-- ===== src/Registry/Policy.antt =====
-- The verification policy of a publication (crates/ke-cli/src/policy.rs).
use Prim.Native.String.{◌++◌ as str_append}
use regulatory_rule_engine.Prelude.{
  String, Option, none, some, List, [], ◌∷◌, map, Result, ok, ◌>>=◌, map_err,
}
use regulatory_rule_engine.Crypto.{Bytes}
use regulatory_rule_engine.Manifest.{
  ArtifactKind, regime_pack, equivalence_matrix, test_corpus, policy_bundle, intent_spec, strict,
  AttestationType, source_fidelity, scenario_coverage, publication_approval, VerificationPolicy,
  PolicyBundle,
}
use regulatory_rule_engine.Registry.Error.{RegistryError, policy_load}

unfoldable pub strict_policy : List AttestationType → VerificationPolicy
strict_policy required = record {
  t2_t3_mode = strict;
  required_attestation_types = required;
  minimum_attestation_count_per_type =
      map (λ (t : AttestationType). record { attestation_type = t; count = 1 }) required;
}

unfoldable pub default_verification_policy : VerificationPolicy
unfolding strict_policy
default_verification_policy =
    strict_policy (source_fidelity ∷ scenario_coverage ∷ publication_approval ∷ [])

unfoldable pub intentspec_verification_policy : VerificationPolicy
unfolding strict_policy
intentspec_verification_policy = strict_policy (source_fidelity ∷ publication_approval ∷ [])

unfoldable pub policy_for_kind : ArtifactKind → VerificationPolicy
unfolding default_verification_policy intentspec_verification_policy
policy_for_kind intent_spec = intentspec_verification_policy
policy_for_kind regime_pack = default_verification_policy
policy_for_kind equivalence_matrix = default_verification_policy
policy_for_kind test_corpus = default_verification_policy
policy_for_kind policy_bundle = default_verification_policy

-- `std::fs::read` and `serde_json::from_slice`; the errors are their texts.
pub record PolicyFiles : Type 0 where
  pub read : (path : String) → Result Bytes String
  pub parse : Bytes → Result PolicyBundle String

module _ (c : PolicyFiles) where
  load : String → Result VerificationPolicy RegistryError
  load path = do
    bytes ←
        map_err (λ e. policy_load (str_append "read " (str_append path (str_append ": " e))))
          (c.read path)
    bundle ←
        map_err (λ e. policy_load (str_append "parse " (str_append path (str_append ": " e))))
          (c.parse bytes)
    ok bundle.verification_policy

  unfoldable pub resolve_policy :
      Option String → ArtifactKind → Result VerificationPolicy RegistryError
  unfolding load policy_for_kind
  resolve_policy none kind = ok (policy_for_kind kind)
  resolve_policy (some path) kind = load path
