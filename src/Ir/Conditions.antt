-- ===== src/Ir/Conditions.antt =====
-- Conditions and their `all` and `any` groups (crates/ke-core/src/ir/condition.rs).
use regulatory_rule_engine.Prelude.{String, Option}
use regulatory_rule_engine.Ir.Scalar.{Operator, ScalarValue}

pub record Condition : Type 0 where
  pub field : String
  pub operator : Operator
  pub value : ScalarValue
  pub description : Option String

mutual
  pub data ConditionOrGroup : Type 0 where
    condition : Condition → ConditionOrGroup
    group : ConditionGroupSpec → ConditionOrGroup

  -- The fields `all` and `any`.
  pub data ConditionGroupSpec : Type 0 where
    group_spec : (all_of : OptionItems) → (any_of : OptionItems) → ConditionGroupSpec

  -- `Option<Vec<ConditionOrGroup>>`
  pub data OptionItems : Type 0 where
    absent : OptionItems
    present : Items → OptionItems

  -- `Vec<ConditionOrGroup>`
  pub data Items : Type 0 where
    nil : Items
    cons : ConditionOrGroup → Items → Items
