-- ===== src/Artifact/Consistency.antt =====
-- T2/T3 evidence and its builder (crates/ke-artifact/src/consistency.rs).
use regulatory_rule_engine.Prelude.{
  ℕ, suc, ◌≡◌, refl, ◌↔◌, Bool, true, ◌&&◌, String, str_eq, Option, none, some, List, [], ◌∷◌, ◌++◌,
  Result, ok, err, ◌>>◌, if◌then◌else◌, all, not, arith,
}
use regulatory_rule_engine.Manifest.{T2T3Mode}

pub record ConsistencyBlock : Type 0 where
  pub tier_result : String
  pub policy_mode : T2T3Mode
  pub model_name : String
  pub model_version : String
  pub scoring_profile_version : Option String
  pub evidence_references : List String
  pub reviewer_overrides : List String
  pub reviewer_rationale : Option String
  pub timestamp : String
  pub execution_environment : String

pub data ConsistencyError : Type 0 where
  empty_field : (name : String) → ConsistencyError
  empty_evidence_reference : (index : ℕ) → ConsistencyError

-- `ConsistencyBlockBuilder` holds a block and nothing else, so it is the block.
unfoldable pub new_builder :
    (tier_result : String) (policy_mode : T2T3Mode)
    (model_name model_version timestamp execution_environment : String)
    → ConsistencyBlock
new_builder tier_result policy_mode model_name model_version timestamp execution_environment =
    record {
      tier_result = tier_result;
      policy_mode = policy_mode;
      model_name = model_name;
      model_version = model_version;
      scoring_profile_version = none;
      evidence_references = [];
      reviewer_overrides = [];
      reviewer_rationale = none;
      timestamp = timestamp;
      execution_environment = execution_environment;
    }

unfoldable pub with_profile : String → ConsistencyBlock → ConsistencyBlock
with_profile version block = record block { scoring_profile_version = some version }

unfoldable pub with_evidence : String → ConsistencyBlock → ConsistencyBlock
with_evidence reference block = record block {
  evidence_references = block.evidence_references ++ reference ∷ [];
}

unfoldable pub with_override : String → ConsistencyBlock → ConsistencyBlock
with_override entry block = record block {
  reviewer_overrides = block.reviewer_overrides ++ entry ∷ [];
}

unfoldable pub with_rationale : String → ConsistencyBlock → ConsistencyBlock
with_rationale rationale block = record block { reviewer_rationale = some rationale }

abbrev pub empty : String → Bool
empty s = str_eq s ""

-- One round of the loop over the required fields.
require_field : String → String → Result (Unit {0}) ConsistencyError
require_field name value = if empty value then err (empty_field name) else ok tt

-- `iter().position(String::is_empty)`, from an index on.
unfoldable pub empty_position : ℕ → List String → Option ℕ
empty_position i [] = none
empty_position i (s ∷ ss) = if empty s then some i else empty_position (suc i) ss

reject_position : Option ℕ → ConsistencyBlock → Result ConsistencyBlock ConsistencyError
reject_position none block = ok block
reject_position (some i) block = err (empty_evidence_reference i)

unfoldable pub build : ConsistencyBlock → Result ConsistencyBlock ConsistencyError
unfolding require_field empty_position reject_position
build block = do
  require_field "tier_result" block.tier_result
  require_field "model_name" block.model_name
  require_field "model_version" block.model_version
  require_field "timestamp" block.timestamp
  require_field "execution_environment" block.execution_environment
  reject_position (empty_position 0 block.evidence_references) block

-- The blocks that are complete.
abbrev pub is_complete : ConsistencyBlock → Bool
is_complete block =
    not (empty block.tier_result)
    && (not (empty block.model_name)
        && (not (empty block.model_version)
            && (not (empty block.timestamp)
                && (not (empty block.execution_environment)
                    && all (λ s. not (empty s)) block.evidence_references))))

empty_position-none :
    (i : ℕ) (ss : List String) → (empty_position i ss ≡ none) ↔ (all (λ s. not (empty s)) ss ≡ true)
unfolding empty_position
empty_position-none i [] = (λ h. refl, λ h. refl)
empty_position-none i (s ∷ ss) = ground (arith, empty_position-none (suc i) ss)

-- The builder returns a block exactly when none of the five required fields and none of the evidence
-- references is empty, and then it returns the block that it holds.
pub build_iff :
    (block built : ConsistencyBlock)
    → (build block ≡ ok built) ↔ ((built ≡ block) × (is_complete block ≡ true))
unfolding build
build_iff block built = ground (arith, empty_position-none 0 block.evidence_references)
