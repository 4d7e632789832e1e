-- ===== src/Runtime/Exec.antt =====
-- Applicability and the walk down the decision tree (crates/ke-runtime/src/exec.rs, trace.rs). The
-- steps that the source pushes are returned.
pub mod Applies
pub mod Replay
pub mod Local
use regulatory_rule_engine.Prelude.{
  String, Bool, true, false, Option, none, some, List, [], ◌∷◌, ◌++◌, map, if◌then◌else◌,
}
use regulatory_rule_engine.Ir.{
  Operator, Condition, ConditionOrGroup, condition, group, ConditionGroupSpec, group_spec,
  OptionItems, absent, present, Items, DecisionEntry, node, leaf, DecisionLeaf, ObligationSpec,
  RuleIr,
}
use regulatory_rule_engine.Runtime.Value.{Floats, Facts, lookup}
use regulatory_rule_engine.Runtime.Compare as Compare

pub data Mode : Type 0 where
  all_mode any_mode : Mode

pub record NormStep : Type 0 where
  pub field : String
  pub operator : String
  pub result : Bool

unfoldable pub op_token : Operator → String
op_token Operator.eq = "=="
op_token Operator.not_eq = "!="
op_token Operator.in_ = "in"
op_token Operator.not_in = "not_in"
op_token Operator.gt = ">"
op_token Operator.lt = "<"
op_token Operator.gte = ">="
op_token Operator.lte = "<="
op_token Operator.exists = "exists"

pub record Obligation : Type 0 where
  pub id : String
  pub description : Option String
  pub deadline : Option String

pub record Evaluation : Type 0 where
  pub rule_id : String
  pub applicable : Bool
  pub decision : Option String
  pub obligations : List Obligation
  pub applicability_steps : List NormStep
  pub decision_path : List NormStep

unfoldable pub group_mode : ConditionGroupSpec → Mode
group_mode (group_spec (present (Items.cons x xs)) any_of) = all_mode
group_mode _ = any_mode

-- A nested group gives its checks, and not its mode.
unfoldable mutual
  pub flatten : ConditionGroupSpec → List Condition
  flatten (group_spec all_of any_of) = flatten_first all_of (flatten_option any_of)

  -- `all` where it has members, and the other checks where it has none.
  pub flatten_first : OptionItems → List Condition → List Condition
  flatten_first absent others = others
  flatten_first (present Items.nil) others = others
  flatten_first (present (Items.cons x xs)) others = flatten_item x ++ flatten_items xs

  pub flatten_option : OptionItems → List Condition
  flatten_option absent = []
  flatten_option (present xs) = flatten_items xs

  pub flatten_items : Items → List Condition
  flatten_items Items.nil = []
  flatten_items (Items.cons x xs) = flatten_item x ++ flatten_items xs

  pub flatten_item : ConditionOrGroup → List Condition
  flatten_item (condition k) = k ∷ []
  flatten_item (group g) = flatten g

-- Whether a result ends the loop over the checks, and the answer of a loop that did not end early.
abbrev pub decides : Mode → Bool → Bool
decides all_mode result = if result then false else true
decides any_mode result = result

abbrev pub undecided : Mode → Bool
undecided all_mode = true
undecided any_mode = false

module _ {F : Type 0} (f : Floats F) (facts : Facts F) where
  unfoldable pub check : Condition → Bool
  check k = Compare.evaluate f (lookup facts k.field) k.operator k.value

  unfoldable pub step : Condition → Bool → NormStep
  unfolding op_token
  step k result = record { field = k.field; operator = op_token k.operator; result = result }

  -- The loop over the checks. A check that decides is the last one that is pushed.
  unfoldable pub run_checks : Mode → List Condition → Bool × List NormStep
  run_checks mode [] = (undecided mode, [])
  run_checks mode (k ∷ ks) =
      let (answer, steps) = run_checks mode ks in
      let result = check k in
      if decides mode result then (result, step k result ∷ []) else (answer, step k result ∷ steps)

  -- No check at all is applicable in either mode.
  unfoldable pub run_mode : Mode → List Condition → Bool × List NormStep
  run_mode mode [] = (true, [])
  run_mode mode (k ∷ ks) = run_checks mode (k ∷ ks)

  unfoldable pub applicability : Option ConditionGroupSpec → Bool × List NormStep
  unfolding run_mode
  applicability none = (true, [])
  applicability (some g) = run_mode (group_mode g) (flatten g)

  unfoldable pub walk : DecisionEntry → DecisionLeaf × List NormStep
  walk (leaf l) = (l, [])
  walk (node node_id k true_branch false_branch span) =
      let (true_leaf, true_path) = walk true_branch in
      let (false_leaf, false_path) = walk false_branch in
      let result = check k in
      if result
      then (true_leaf, step k result ∷ true_path)
      else (false_leaf, step k result ∷ false_path)

  abbrev pub imposed : Option (List ObligationSpec) → List Obligation
  imposed none = []
  imposed (some os) =
      map
        (λ (o : ObligationSpec). record {
          id = o.id;
          description = o.description;
          deadline = o.deadline;
        })
        os

  unfoldable pub evaluate : RuleIr → Evaluation
  unfolding applicability walk
  evaluate rule =
      let (applicable, steps) = applicability rule.applies_if in
      let (l, path) = walk rule.decision_tree in
      if applicable
      then record {
        rule_id = rule.rule_id;
        applicable = true;
        decision = some l.result;
        obligations = imposed l.obligations;
        applicability_steps = steps;
        decision_path = path;
      }
      else record {
        rule_id = rule.rule_id;
        applicable = false;
        decision = none;
        obligations = [];
        applicability_steps = steps;
        decision_path = [];
      }
