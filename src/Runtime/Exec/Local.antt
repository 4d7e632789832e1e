-- ===== src/Runtime/Exec/Local.antt =====
-- An evaluation depends on the facts that it looks at, and its trace names them.
use regulatory_rule_engine.Prelude.{
  ◌≡◌, refl, Bool-cases, inl, inr, Option, none, some, List, [], ◌∷◌, All,
}
use regulatory_rule_engine.Ir.{Condition, ConditionGroupSpec, DecisionEntry, node, leaf, RuleIr}
use regulatory_rule_engine.Runtime.Value.{Floats, Facts, lookup}
use regulatory_rule_engine.Runtime.Exec.{
  Mode, NormStep, decides, flatten, group_mode, check, step, run_checks, run_mode, applicability,
  walk, evaluate,
}

module _ {F : Type 0} (f : Floats F) (facts others : Facts F) where
  -- The two fact sets agree on the fields that the steps name.
  abbrev pub AgreeOn : List NormStep → Type 0
  AgreeOn = All (λ s. lookup others s.field ≡ lookup facts s.field)

  check_same :
      (k : Condition)
      → lookup others k.field ≡ lookup facts k.field
      → check f others k ≡ check f facts k
  unfolding check
  check_same k h = rw h refl

  run_checks_same :
      (mode : Mode) (ks : List Condition)
      → AgreeOn (run_checks f facts mode ks).1
      → run_checks f others mode ks ≡ run_checks f facts mode ks
  unfolding run_checks step
  run_checks_same mode [] h = refl
  run_checks_same mode (k ∷ ks) h = elim (Bool-cases (decides mode (check f facts k))) [
    | inl ends ↦ let h' = rw ends at h in rw (check_same k h'.0, ends) refl
    | inr on ↦ let h' = rw on at h in rw (check_same k h'.0, on, run_checks_same mode ks h'.1) refl
  ]

  walk_same :
      (tree : DecisionEntry)
      → AgreeOn (walk f facts tree).1
      → walk f others tree ≡ walk f facts tree
  unfolding walk step
  walk_same (leaf l) h = refl
  walk_same (node node_id k t e span) h = elim (Bool-cases (check f facts k)) [
    | inl holds ↦ let h' = rw holds at h in rw (check_same k h'.0, holds, walk_same t h'.1) refl
    | inr fails ↦ let h' = rw fails at h in rw (check_same k h'.0, fails, walk_same e h'.1) refl
  ]

  applicability_same :
      (o : Option ConditionGroupSpec)
      → AgreeOn (applicability f facts o).1
      → applicability f others o ≡ applicability f facts o
  unfolding applicability run_mode
  applicability_same none h = refl
  applicability_same (some g) h = by_checks (group_mode g) (flatten g) h
    where
      by_checks :
          (mode : Mode) (ks : List Condition)
          → AgreeOn (run_mode f facts mode ks).1
          → run_mode f others mode ks ≡ run_mode f facts mode ks
      by_checks mode [] h = refl
      by_checks mode (k ∷ ks) h = run_checks_same mode (k ∷ ks) h

  -- If two fact sets agree on each field that the steps of an evaluation name, then the rule has the
  -- same evaluation on both: the same answer, obligations and trace.
  pub evaluate_same :
      (rule : RuleIr)
      → AgreeOn (evaluate f facts rule).applicability_steps
      → AgreeOn (evaluate f facts rule).decision_path
      → evaluate f others rule ≡ evaluate f facts rule
  unfolding evaluate
  evaluate_same rule h k = elim (Bool-cases (applicability f facts rule.applies_if).0) [
    | inl applies ↦
        rw
          (
            applicability_same rule.applies_if (rw applies at h),
            walk_same rule.decision_tree (rw applies at k),
            applies,
          )
          refl
    | inr skips ↦ rw (applicability_same rule.applies_if (rw skips at h), skips) refl
  ]
