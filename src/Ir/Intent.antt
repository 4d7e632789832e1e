-- ===== src/Ir/Intent.antt =====
-- The payload of an IntentSpec artifact (crates/ke-core/src/ir/intent.rs).
use regulatory_rule_engine.Prelude.{String, List}
use regulatory_rule_engine.Ir.Source.{SourceSpan}
use regulatory_rule_engine.Ir.Scalar.{ScalarValue}

pub data Volatility : Type 0 where
  stable volatile : Volatility

pub record AuthorizationCriterion : Type 0 where
  pub name : String
  pub threshold : ScalarValue
  pub volatility : Volatility

pub record IdempotencyDef : Type 0 where
  pub key_fields : List String
  pub scope : String

pub record IntentSpecIr : Type 0 where
  pub action_class : String
  pub criteria : List AuthorizationCriterion
  pub idempotency : IdempotencyDef
  pub source_spans : List SourceSpan
