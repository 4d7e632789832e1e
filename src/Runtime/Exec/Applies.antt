-- ===== src/Runtime/Exec/Applies.antt =====
-- What the loop over the checks computes.
use regulatory_rule_engine.Prelude.{
  ◌≡◌, refl, Bool, true, some, List, [], ◌∷◌, map, is_empty, all, any, if◌then◌else◌, arith,
}
use regulatory_rule_engine.Ir.{Condition, ConditionGroupSpec}
use regulatory_rule_engine.Runtime.Value.{Floats, Facts}
use regulatory_rule_engine.Runtime.Exec.{
  Mode, all_mode, any_mode, NormStep, decides, flatten, group_mode, check, step, run_checks,
  run_mode, applicability,
}

-- The elements up to the first one that passes the test, that one included.
abbrev pub through : {A : Type 0} → (A → Bool) → List A → List A
through p [] = []
through p (x ∷ xs) = let rest = through p xs in if p x then x ∷ [] else x ∷ rest

module _ {F : Type 0} (f : Floats F) (facts : Facts F) where
  -- All checks, or one of them.
  abbrev pub combined : Mode → List Condition → Bool
  combined all_mode = all (check f facts)
  combined any_mode = any (check f facts)

  abbrev pub recorded : List Condition → List NormStep
  recorded = map (λ k. step f facts k (check f facts k))

  run_checks_lem :
      (mode : Mode) (ks : List Condition)
      → ((run_checks f facts mode ks).0 ≡ combined mode ks)
        × ((run_checks f facts mode ks).1
            ≡ recorded (through (λ k. decides mode (check f facts k)) ks))
  unfolding run_checks
  run_checks_lem all_mode [] = (refl, refl)
  run_checks_lem any_mode [] = (refl, refl)
  run_checks_lem all_mode (k ∷ ks) =
      (ground (arith, run_checks_lem all_mode ks), ground (arith, run_checks_lem all_mode ks))
  run_checks_lem any_mode (k ∷ ks) =
      (ground (arith, run_checks_lem any_mode ks), ground (arith, run_checks_lem any_mode ks))

  run_mode_lem :
      (mode : Mode) (ks : List Condition)
      → ((run_mode f facts mode ks).0 ≡ (if is_empty ks then true else combined mode ks))
        × ((run_mode f facts mode ks).1
            ≡ recorded (through (λ k. decides mode (check f facts k)) ks))
  unfolding run_mode
  run_mode_lem mode [] = (refl, refl)
  run_mode_lem mode (k ∷ ks) = run_checks_lem mode (k ∷ ks)

  -- A group with no check is applicable. A group with checks is applicable when all its flattened
  -- checks hold, or in the `any` mode when one of them does, whatever the loop skips; and the steps
  -- that are recorded are those of the checks, in order, up to the first one that settles the answer.
  pub applicability_lem :
      (g : ConditionGroupSpec)
      → let ks = flatten g in
        ((applicability f facts (some g)).0
          ≡ (if is_empty ks then true else combined (group_mode g) ks))
        × ((applicability f facts (some g)).1
            ≡ recorded (through (λ k. decides (group_mode g) (check f facts k)) ks))
  unfolding applicability
  applicability_lem g = run_mode_lem (group_mode g) (flatten g)
