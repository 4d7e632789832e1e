-- ===== src/Runtime/Compare.antt =====
-- Operators on facts (crates/ke-runtime/src/compare.rs).
use Prim.Native.Nat.{Ordering}
use Prim.Native.String.{compare}
use regulatory_rule_engine.Prelude.{
  ℕ, suc, String, Bool, true, false, not, ◌&&◌, nat_eq, Option, none, some, if◌then◌else◌, ◌==◌,
  String_eq,
}
use regulatory_rule_engine.Ir.{Operator, ScalarValue, ScalarValues}
use regulatory_rule_engine.Runtime.Value.{
  Cmp, less, equal, greater, Floats, FactValue, FactValues, is_present, as_number,
  operand_as_number, python_str_fact, python_str_scalar,
}

-- The `Ordering` of the source, which is not that of the standard library.
pub data Ord : Type 0 where
  ord_gt ord_lt ord_gte ord_lte : Ord

abbrev holds : Cmp → Ord → Bool
holds c ord_gt = elim c [ greater ↦ true | _ ↦ false ]
holds c ord_lt = elim c [ less ↦ true | _ ↦ false ]
holds c ord_gte = elim c [ less ↦ false | _ ↦ true ]
holds c ord_lte = elim c [ greater ↦ false | _ ↦ true ]

unfoldable pub apply_ord : Option Cmp → Ord → Bool
apply_ord none ord = false
apply_ord (some c) ord = holds c ord

abbrev string_cmp : String → String → Cmp
string_cmp a b = elim (compare a b) [
  | Ordering.lt ↦ less
  | Ordering.eq ↦ equal
  | Ordering.gt ↦ greater
]

abbrev fact_count : {F : Type 0} → FactValues F → ℕ
fact_count FactValues.nil = 0
fact_count (FactValues.cons v vs) = suc (fact_count vs)

abbrev scalar_count : ScalarValues → ℕ
scalar_count ScalarValues.nil = 0
scalar_count (ScalarValues.cons v vs) = suc (scalar_count vs)

-- `if let (Some(a), Some(b))`
abbrev both : {A : Type 0} → Option A → Option A → Option (A × A)
both (some a) (some b) = some (a, b)
both _ _ = none

module _ {F : Type 0} (f : Floats F) where
  -- The numbers that a fact and an operand are, if both are.
  unfoldable pub as_numbers : FactValue F → ScalarValue → Option (F × F)
  unfolding as_number operand_as_number
  as_numbers actual operand = both (as_number f actual) (operand_as_number f operand)

  -- A text or a list is no number, so it does not matter that the source tries numbers first.
  unfoldable mutual
    unfolding as_numbers

    pub eval_eq : FactValue F → ScalarValue → Bool
    eval_eq (FactValue.list a) (ScalarValue.list b) =
        nat_eq (fact_count a) (scalar_count b) && eval_eq_zip a b
    eval_eq (FactValue.str a) (ScalarValue.str b) = a == b
    eval_eq actual operand = elim (as_numbers actual operand) [
      | none ↦ false
      | some p ↦ f.eq_f p.0 p.1
    ]

    -- `a.iter().zip(b).all(…)`
    pub eval_eq_zip : FactValues F → ScalarValues → Bool
    eval_eq_zip (FactValues.cons x xs) (ScalarValues.cons y ys) = eval_eq x y && eval_eq_zip xs ys
    eval_eq_zip _ _ = true

  -- Likewise.
  unfoldable pub eval_ord : FactValue F → ScalarValue → Ord → Bool
  unfolding apply_ord as_numbers
  eval_ord (FactValue.str a) (ScalarValue.str b) ord = apply_ord (some (string_cmp a b)) ord
  eval_ord actual operand ord = elim (as_numbers actual operand) [
    | none ↦ false
    | some p ↦ apply_ord (f.partial_cmp p.0 p.1) ord
  ]

  -- `items.iter().any(|e| python_str_scalar(e) == needle)`
  abbrev any_text : ScalarValues → String → Bool
  any_text ScalarValues.nil needle = false
  any_text (ScalarValues.cons v vs) needle =
      if python_str_scalar f v == needle then true else any_text vs needle

  unfoldable pub eval_in : FactValue F → ScalarValue → Bool
  eval_in actual (ScalarValue.list items) = any_text items (python_str_fact f actual)
  eval_in actual _ = false

  unfoldable pub evaluate : FactValue F → Operator → ScalarValue → Bool
  unfolding eval_eq eval_in eval_ord is_present
  evaluate actual Operator.eq operand = eval_eq actual operand
  evaluate actual Operator.not_eq operand = not (eval_eq actual operand)
  evaluate actual Operator.in_ operand = eval_in actual operand
  evaluate actual Operator.not_in operand = not (eval_in actual operand)
  evaluate actual Operator.gt operand = eval_ord actual operand ord_gt
  evaluate actual Operator.lt operand = eval_ord actual operand ord_lt
  evaluate actual Operator.gte operand = eval_ord actual operand ord_gte
  evaluate actual Operator.lte operand = eval_ord actual operand ord_lte
  evaluate actual Operator.exists operand = is_present actual
