-- ===== src/Ir/Rule.antt =====
-- The whole rule and its provenance marker (crates/ke-core/src/ir/rule.rs).
use regulatory_rule_engine.Prelude.{ℕ, String, Option, List}
use regulatory_rule_engine.Ir.Source.{DocumentRef}
use regulatory_rule_engine.Ir.Time.{EffectiveWindow}
use regulatory_rule_engine.Ir.Conditions.{ConditionGroupSpec}
use regulatory_rule_engine.Ir.Decision.{DecisionEntry, ObligationSpec}

pub data ProvenanceMarker : Type 0 where
  candidate : (proposal_id : Option String) → ProvenanceMarker
  structurally_verified : ProvenanceMarker
  ml_checked : (policy_version : String) → ProvenanceMarker
  expert_attested : (attestation_count : ℕ) → ProvenanceMarker
  published : (environment : String) → ProvenanceMarker
  deprecated revoked : ProvenanceMarker

pub record RuleIr : Type 0 where
  pub rule_id : String
  pub rule_version : String
  pub description : Option String
  pub tags : Option (List String)
  pub applies_if : Option ConditionGroupSpec
  pub decision_tree : DecisionEntry
  pub obligations : List ObligationSpec
  pub source : DocumentRef
  pub interpretation_notes : Option String
  pub effective_window : Option EffectiveWindow
  pub provenance : ProvenanceMarker
