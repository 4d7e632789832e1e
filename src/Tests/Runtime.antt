-- ===== src/Tests/Runtime.antt =====
-- The preview runtime at concrete inputs. The floats of the tests are integers.
use regulatory_rule_engine.Prelude.{
  ℤ, pos, ltb_ℤ, ℤ_eq, ◌==◌, String_eq, ◌≡◌, refl, true, false, ◌&&◌, ◌||◌, String, Option, none,
  some, [], is_empty, if◌then◌else◌,
}
use regulatory_rule_engine.Ir.{
  Operator, ScalarValue, Condition, condition, ConditionGroupSpec, group_spec, absent, present,
  Items, DecisionEntry, node, leaf, DecisionLeaf, RuleIr, candidate, JurisdictionDate,
  EffectiveWindow,
}
use regulatory_rule_engine.Runtime.Value.{Floats, FactValue, Facts, less, equal, greater, lookup}
use regulatory_rule_engine.Runtime.Compare as Compare
use regulatory_rule_engine.Runtime.Exec.{
  decides, flatten, group_mode, check, applicability, walk, run_checks, step, evaluate,
}
use regulatory_rule_engine.Runtime.Exec.Applies.{combined, recorded, through, applicability_lem}
use regulatory_rule_engine.Runtime.Exec.Replay.{replay, replay-walk}
use regulatory_rule_engine.Runtime.Exec.Local.{evaluate_same}
use regulatory_rule_engine.Runtime.Effective.{effective_at, key_lt, effective_at-split}

abbrev floats : Floats ℤ
floats = record {
  of_int = λ i. i;
  parse = λ s. if s == "5" then some (pos 5) else none;
  nan = pos 0;
  zero_f = pos 0;
  one_f = pos 1;
  eq_f = λ a b. a == b;
  partial_cmp = λ a b. some (if ltb_ℤ a b then less else (if a == b then equal else greater));
  is_sign_negative = λ a. false;
  debug = λ a. "5.0";
  digits_of = λ n. "5";
}

-- Seven of a token; and the same, with a fact that no rule below looks at.
abbrev facts_of : Option (FactValue ℤ) → Facts ℤ
facts_of more field =
    if field == "amount"
    then some (FactValue.int (pos 7))
    else (if field == "kind"
        then some (FactValue.str "art")
        else (if field == "more" then more else none))

abbrev facts : Facts ℤ
facts = facts_of none

abbrev others : Facts ℤ
others = facts_of (some (FactValue.bool true))

abbrev at_least_five : Condition
at_least_five = record {
  field = "amount";
  operator = Operator.gte;
  value = ScalarValue.decimal (pos 5) (pos 0);
  description = none;
}

abbrev is_stablecoin : Condition
is_stablecoin = record {
  field = "kind";
  operator = Operator.eq;
  value = ScalarValue.str "stablecoin";
  description = none;
}

abbrev outcome : String → DecisionLeaf
outcome result = record { result = result; obligations = none; notes = none; source_span = none }

abbrev either : ConditionGroupSpec
either = group_spec absent (
    present (
      Items.cons (condition is_stablecoin)
        (Items.cons (condition at_least_five) (Items.cons (condition is_stablecoin) Items.nil))))

abbrev tree : DecisionEntry
tree =
    node "root" at_least_five
      (node "kind" is_stablecoin (leaf (outcome "exempt")) (leaf (outcome "licence")) none)
      (leaf (outcome "small")) none

abbrev rule : RuleIr
rule = record {
  rule_id = "rule";
  rule_version = "1.0";
  description = none;
  tags = none;
  applies_if = some either;
  decision_tree = tree;
  obligations = [];
  source = record {
    document_id = "doc";
    article = none;
    section = none;
    paragraphs = [];
    pages = [];
    url = none;
  };
  interpretation_notes = none;
  effective_window = none;
  provenance = candidate none;
}

licensed :
    let e = evaluate floats facts rule in (e.applicable ≡ true) × (e.decision ≡ some "licence")
unfolding evaluate flatten run_checks group_mode check Compare.evaluate lookup
licensed = (refl, refl)

applicability_lem_example :
    let ks = flatten either in
    ((applicability floats facts (some either)).0
      ≡ (if is_empty ks then true else combined floats facts (group_mode either) ks))
    × ((applicability floats facts (some either)).1
        ≡ recorded floats facts
            (through (λ k. decides (group_mode either) (check floats facts k)) ks))
applicability_lem_example = applicability_lem floats facts either

replay-walk_example : replay tree (walk floats facts tree).1 ≡ some (walk floats facts tree).0
replay-walk_example = replay-walk floats facts tree

evaluate_same_example : evaluate floats others rule ≡ evaluate floats facts rule
unfolding evaluate flatten run_checks group_mode check Compare.evaluate lookup step
evaluate_same_example = evaluate_same floats facts others rule (refl, (refl, tt)) (refl, (refl, tt))

-- The year 2024 and what follows, cut at the start of 2025.
abbrev from_2024 : EffectiveWindow
from_2024 = record {
  effective_from = record { year = pos 2024; month = 1; day = 1 };
  effective_to = some (record { year = pos 2026; month = 1; day = 1 });
  jurisdiction_time_zone = none;
  effective_time_policy = none;
}

abbrev new_year : JurisdictionDate
new_year = record { year = pos 2025; month = 1; day = 1 }

effective_at-split_example :
    let early = effective_at (some (record from_2024 { effective_to = some new_year })) new_year in
    let late = effective_at (some (record from_2024 { effective_from = new_year })) new_year in
    (effective_at (some from_2024) new_year ≡ (early || late)) × ((early && late) ≡ false)
unfolding key_lt
effective_at-split_example = effective_at-split from_2024 new_year new_year refl refl
