-- ===== src/Registry/Commands/Attest.antt =====
-- `ke attest` (crates/ke-cli/src/commands/attest.rs, and `sign_attestation` of
-- crates/ke-artifact/src/attestation.rs).
use regulatory_rule_engine.Prelude.{
  ℕ, String, true, not, ◌||◌, ◌==◌, none, List, [], ◌∷◌, map, length, is_empty, replicate, Result,
  ok, err, map_err, List_eq, ℕ_eq,
}
use regulatory_rule_engine.Prelude.{◌-◌, ◌^◌, str_eq}
use regulatory_rule_engine.Crypto.{Bytes, CodecError}
use regulatory_rule_engine.Manifest.{
  Manifest, advisory, AttestationType, source_fidelity, interpretation, scenario_coverage,
  equivalence_claim, publication_approval, VerificationPolicy,
}
use regulatory_rule_engine.Artifact.Keydir.{
  SignerRole, domain_expert, publication_approver, active, KeyDirectory,
}
use regulatory_rule_engine.Artifact.Tsa.{stamp}
use regulatory_rule_engine.Artifact.Attestation.{
  Attestation, whole_artifact, AttestationCrates, PolicyContext, payload_prefix,
}
use regulatory_rule_engine.Artifact.Attestation.Set.{verify_attestation_set}
use regulatory_rule_engine.Artifact.Envelope.Decode.{decode_artifact}
use regulatory_rule_engine.Artifact.Envelope.Assemble.{with_attestations}
use regulatory_rule_engine.Ir.{Hash}
use regulatory_rule_engine.Registry.State.{
  LifecycleState, ml_checked, expert_attested, can_transition,
}
use regulatory_rule_engine.Registry.Error.{artifact_decode, attestation_set_rejected}
use regulatory_rule_engine.Registry.Action.{
  Action, pure, reads, lift, bail_if, raised_by, ◌>>=◌, ◌>>◌,
}
use regulatory_rule_engine.Registry.Backend.{RegistryBackend}
use regulatory_rule_engine.Registry.Commands.{
  CommandError, registry_error, wrong_state, precondition_failed, no_attestation_type,
  signing_failed, appending_failed, address_moved, signature_altered, json_failed, no_evidence,
  same_state, CommandCrates, state_now, append_transition,
}

unfoldable pub signer_role_for : AttestationType → SignerRole
signer_role_for publication_approval = publication_approver
signer_role_for source_fidelity = domain_expert
signer_role_for interpretation = domain_expert
signer_role_for scenario_coverage = domain_expert
signer_role_for equivalence_claim = domain_expert

abbrev pub attestation_policy_version : String
attestation_policy_version = "ap-1"

abbrev pub test_expert_key_id : String
test_expert_key_id = "test-expert-fixed-seed-1"

unfoldable pub expert_key_directory : CommandCrates → KeyDirectory
expert_key_directory c = record {
  entries =
      record {
        key_id = test_expert_key_id;
        public_key = c.expert_public_key;
        signer_roles = domain_expert ∷ publication_approver ∷ [];
        authorized_attestation_types =
            source_fidelity ∷ interpretation ∷ scenario_coverage ∷ equivalence_claim
            ∷ publication_approval ∷ [];
        valid_from_unix = 0;
        valid_to_unix = 2 ^ 64 - 1;
        status = active;
        revoked_at_unix = none;
        revocation_reason = none;
        revocation_event_hash = none;
      }
      ∷ [];
}

unfoldable pub local_policy_context : ℕ → PolicyContext
local_policy_context now_unix = record {
  environment = "local";
  now_unix = now_unix;
  supported_policy_versions = attestation_policy_version ∷ [];
  current_legal_source_hash = none;
}

unfoldable pub permissive_policy : VerificationPolicy
permissive_policy = record {
  t2_t3_mode = advisory;
  required_attestation_types = [];
  minimum_attestation_count_per_type = [];
}

unfoldable pub sign_attestation :
    AttestationCrates → Attestation → (Bytes → Bytes) → Result Attestation CodecError
unfolding payload_prefix
sign_attestation c attestation sign = sign_prefix (payload_prefix c attestation)
  where
    sign_prefix : Result Bytes CodecError → Result Attestation CodecError
    sign_prefix (ok prefix) = ok (record attestation { signature = sign prefix })
    sign_prefix (err e) = err e

-- The payload of the attestation of one type.
unfoldable pub attestation_for : CommandCrates → Manifest → ℕ → AttestationType → Attestation
unfolding signer_role_for
attestation_for c manifest now_unix attestation_type = record {
  artifact_hash = manifest.artifact_hash;
  scope = whole_artifact;
  attestation_type = attestation_type;
  signer_identity = "Test Expert";
  key_id = test_expert_key_id;
  signer_role = signer_role_for attestation_type;
  regime_id = manifest.regime_id;
  effective_from = manifest.effective_from;
  effective_to = manifest.effective_to;
  legal_source_hash = manifest.source_corpus_hash;
  ir_schema_version = manifest.ir_schema_version;
  compiler_version = manifest.compiler_version;
  attestation_policy_version = attestation_policy_version;
  test_corpus_hash = none;
  timestamp = stamp c.mock_tsa_sign manifest.artifact_hash now_unix;
  expiration = none;
  reviewer_comments = none;
  signature = replicate 64 0;
}

-- The loop over the requested types.
unfoldable pub sign_all :
    CommandCrates → Manifest → ℕ → List AttestationType → Result (List Attestation) CommandError
unfolding sign_attestation attestation_for
sign_all c manifest now_unix [] = ok []
sign_all c manifest now_unix (t ∷ ts) =
    cons_signed
      (sign_attestation c.attestation (attestation_for c manifest now_unix t) c.expert_sign)
      (sign_all c manifest now_unix ts)
  where
    cons_signed :
        Result Attestation CodecError
        → Result (List Attestation) CommandError
        → Result (List Attestation) CommandError
    cons_signed (err e) rest = err (signing_failed e)
    cons_signed (ok a) (err e) = err e
    cons_signed (ok a) (ok as') = ok (a ∷ as')

pub record AttestOutcome : Type 0 where
  pub final_state : LifecycleState
  pub attestation_count : ℕ

module _ {S : Type 0} (b : RegistryBackend S) (c : CommandCrates) where
  unfoldable pub attest :
      (artifact_hash : Hash) (types : List AttestationType) (now_unix : ℕ)
      → Action S CommandError AttestOutcome
  unfolding state_now append_transition same_state can_transition sign_all expert_key_directory
      local_policy_context permissive_policy
  attest artifact_hash types now_unix = do
    bail_if (is_empty types) no_attestation_type
    prior_state ← state_now b c artifact_hash
    bail_if (not (same_state prior_state ml_checked)) (wrong_state prior_state)
    kew ← reads λ s. map_err registry_error (b.read_artifact_kew artifact_hash s)
    decoded ← lift (
        map_err (λ e. registry_error (artifact_decode (c.display e)))
          (decode_artifact c.artifact kew))
    attestations ← lift (sign_all c decoded.0.manifest now_unix types)
    attested ← lift (map_err appending_failed (with_attestations c.artifact attestations decoded.0))
    bail_if (not (attested.0.manifest.artifact_hash == decoded.0.manifest.artifact_hash))
        address_moved
    bail_if
        (not (str_eq attested.0.compiler_signature.key_id decoded.0.compiler_signature.key_id)
          || not
              (attested.0.compiler_signature.signature == decoded.0.compiler_signature.signature))
        signature_altered
    manifest_json ← lift (map_err json_failed (c.manifest_json attested.0.manifest))
    schema_json ← lift (map_err json_failed (c.payload_json attested.0.payload))
    raised_by registry_error
        (b.put_artifact decoded.0.manifest.artifact_hash attested.1 manifest_json schema_json)
    lift (
        map_err (λ rs. registry_error (attestation_set_rejected (map c.display_rejection rs)))
          (verify_attestation_set c.attestation attested.0.manifest attested.0.attestations
            permissive_policy (expert_key_directory c) (local_policy_context now_unix)))
    bail_if
        (not (
          can_transition ml_checked expert_attested
            (record no_evidence { attestation_set_valid = true })))
        precondition_failed
    append_transition b c artifact_hash expert_attested now_unix
    final_state ← state_now b c artifact_hash
    pure (record { final_state = final_state; attestation_count = length attestations })
