-- ===== src/Runtime/Exec/Replay.antt =====
-- The recorded path, replayed.
use regulatory_rule_engine.Prelude.{
  ◌≡◌, refl, Bool-cases, inl, inr, ◌&&◌, ◌==◌, String_eq, beq_refl, Option, none, some, List, [],
  ◌∷◌, if◌then◌else◌,
}
use regulatory_rule_engine.Ir.{DecisionEntry, node, leaf, DecisionLeaf}
use regulatory_rule_engine.Runtime.Value.{Floats, Facts}
use regulatory_rule_engine.Runtime.Exec.{NormStep, op_token, check, step, walk}

-- The leaf that recorded steps lead to, without the facts: each step has to name the field and the
-- operator of the node at which it stands, and its result is the branch. Nothing may be left over.
unfoldable pub replay : DecisionEntry → List NormStep → Option DecisionLeaf
replay (leaf l) [] = some l
replay (leaf l) (s ∷ ss) = none
replay (node node_id k true_branch false_branch span) [] = none
replay (node node_id k true_branch false_branch span) (s ∷ ss) =
    let on_true = replay true_branch ss in
    let on_false = replay false_branch ss in
    if s.field == k.field && s.operator == op_token k.operator
    then (if s.result then on_true else on_false)
    else none

module _ {F : Type 0} (f : Floats F) (facts : Facts F) where
  -- The path that the walk records explains the leaf that it returns: replayed on the tree without
  -- the facts, it leads to that leaf, with each step at the node whose condition it names.
  pub replay-walk :
      (tree : DecisionEntry) → replay tree (walk f facts tree).1 ≡ some (walk f facts tree).0
  unfolding replay walk step
  replay-walk (leaf l) = refl
  replay-walk (node node_id k t e span) = elim (Bool-cases (check f facts k)) [
    | inl holds ↦ rw (holds, beq_refl k.field, beq_refl (op_token k.operator)) (replay-walk t)
    | inr fails ↦ rw (fails, beq_refl k.field, beq_refl (op_token k.operator)) (replay-walk e)
  ]
