-- ===== src/Ir/Decision.antt =====
-- Obligations and the decision tree (crates/ke-core/src/ir/obligation.rs and decision.rs).
use regulatory_rule_engine.Prelude.{String, Option, List}
use regulatory_rule_engine.Ir.Source.{SourceSpan}
use regulatory_rule_engine.Ir.Conditions.{Condition}

pub record ObligationSpec : Type 0 where
  pub id : String
  pub description : Option String
  pub deadline : Option String
  pub source_span : Option SourceSpan

pub record DecisionLeaf : Type 0 where
  pub result : String
  pub obligations : Option (List ObligationSpec)
  pub notes : Option String
  pub source_span : Option SourceSpan

-- The fields of `DecisionNode` stand in the constructor.
pub data DecisionEntry : Type 0 where
  node :
      (node_id : String)
      → (condition : Condition) → (true_branch false_branch : DecisionEntry)
      → (source_span : Option SourceSpan) → DecisionEntry
  leaf : DecisionLeaf → DecisionEntry
