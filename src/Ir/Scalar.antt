-- ===== src/Ir/Scalar.antt =====
-- Operators and typed operands (crates/ke-core/src/ir/condition.rs). A decimal is
-- mantissa * 10 ^ (-scale), with an `i128` and an `i8`.
use regulatory_rule_engine.Prelude.{ℤ, pos, String, Bool}

pub data Operator : Type 0 where
  eq not_eq in_ not_in gt lt gte lte exists : Operator

mutual
  pub data ScalarValue : Type 0 where
    str : String → ScalarValue
    bool : Bool → ScalarValue
    decimal : (mantissa : ℤ) → (scale : ℤ) → ScalarValue
    list : ScalarValues → ScalarValue

  -- `Vec<ScalarValue>`
  pub data ScalarValues : Type 0 where
    nil : ScalarValues
    cons : ScalarValue → ScalarValues → ScalarValues

abbrev pub int : ℤ → ScalarValue
int n = decimal n (pos 0)
