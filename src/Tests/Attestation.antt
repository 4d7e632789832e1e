-- ===== src/Tests/Attestation.antt =====
-- An attestation at concrete inputs.
use regulatory_rule_engine.Prelude.{
  true, ◌⊎◌, All, ◌≤◌, pos, ◌≡◌, refl, ◌==◌, List_eq, ℕ_eq, none, some, [], ◌∷◌, ◌++◌, take,
  replicate, Result, ok, err, if◌then◌else◌,
}
use regulatory_rule_engine.Ir.{Hash}
use regulatory_rule_engine.Crypto.{Bytes, CodecError}
use regulatory_rule_engine.Manifest.{
  regime_pack, Manifest, source_fidelity, strict, VerificationPolicy,
}
use regulatory_rule_engine.Artifact.Keydir.{
  domain_expert, active, KeyDirectoryEntry, KeyDirectory, lookup,
}
use regulatory_rule_engine.Artifact.Tsa.{
  mock, mock_message, mock_tsa_public_key, verifies_as_mock, derive_class,
}
use regulatory_rule_engine.Artifact.Attestation.{
  Attestation, whole_artifact, AttestationCrates, PolicyContext, is_local, same_role, same_type,
  same_version, same_class, check_status, past_expiration, source_changed, payload_prefix,
  check_signature, check_timestamp, check_key, check_binding, check_policy, verify_attestation,
}
use regulatory_rule_engine.Artifact.Attestation.Set.{
  sift, missing_types, absent_for, approval_in, required_count, found_count, co_attested,
  co_attestation_types, verify_attestation_set, verify_attestation_set_sound,
}
use regulatory_rule_engine.Artifact.Attestation.Day.{unix_start_of}
use regulatory_rule_engine.Artifact.Attestation.Accepts.{
  IsSignedBy, IsStampedLocally, IsAuthorized, IsCurrent, verify_attestation_sound,
}

abbrev expert_key : Hash
expert_key = replicate 32 5

abbrev attested_hash : Hash
attested_hash = replicate 32 7

-- Two bytes of payload, then the signature.
abbrev skip_two : Bytes → Result Bytes CodecError
skip_two (x ∷ y ∷ rest) = ok rest
skip_two _ = err "end of input"

abbrev pub attestation_crates : AttestationCrates
attestation_crates = record {
  to_stdvec = λ a. ok (1 ∷ 2 ∷ a.signature);
  after_payload = skip_two;
  ed25519 = record {
    from_bytes = λ k.
        if k == mock_tsa_public_key
        then some (λ m s. m == take 41 s)
        else (if k == expert_key then some (λ m s. s == m) else none);
  };
  digits_of = λ n. "0";
}

abbrev pub attestation : Attestation
attestation = record {
  artifact_hash = attested_hash;
  scope = whole_artifact;
  attestation_type = source_fidelity;
  signer_identity = "expert";
  key_id = "expert-1";
  signer_role = domain_expert;
  regime_id = "mica";
  effective_from = record { year = pos 2024; month = 6; day = 30 };
  effective_to = none;
  legal_source_hash = 3 ∷ 4 ∷ [];
  ir_schema_version = record { major = 0; minor = 5; patch = 0 };
  compiler_version = record { major = 0; minor = 1; patch = 0 };
  attestation_policy_version = "1.0";
  test_corpus_hash = none;
  timestamp = record {
    class = mock;
    token = mock_message attested_hash 1700000000 ++ replicate 23 0;
    claimed_time_unix = 1700000000;
  };
  expiration = some (record { year = pos 2026; month = 6; day = 12 });
  reviewer_comments = none;
  signature = 1 ∷ 2 ∷ [];
}

abbrev attested_manifest : Manifest
attested_manifest = record {
  artifact_kind = regime_pack;
  artifact_hash = attested_hash;
  regime_id = "mica";
  effective_from = record { year = pos 2024; month = 6; day = 30 };
  effective_to = none;
  compiler_version = record { major = 0; minor = 1; patch = 0 };
  compiler_build_hash = [];
  ir_schema_version = record { major = 0; minor = 5; patch = 0 };
  codec_version = "postcard-1";
  canonicalization_version = "ke-canon-5";
  corpus_root_hash = [];
  source_corpus_hash = [];
  attestation_policy_version = "1.0";
}

abbrev pub directory : KeyDirectory
directory = record {
  entries =
      record {
        key_id = "expert-1";
        public_key = expert_key;
        signer_roles = domain_expert ∷ [];
        authorized_attestation_types = source_fidelity ∷ [];
        valid_from_unix = 1600000000;
        valid_to_unix = 1900000000;
        status = active;
        revoked_at_unix = none;
        revocation_reason = none;
        revocation_event_hash = none;
      }
      ∷ [];
}

abbrev pub context : PolicyContext
context = record {
  environment = "local";
  now_unix = 1700000000;
  supported_policy_versions = "1.0" ∷ [];
  current_legal_source_hash = some (3 ∷ 4 ∷ []);
}

accepted :
    verify_attestation attestation_crates attestation attested_hash attested_manifest directory
      context
    ≡ ok tt
unfolding verify_attestation lookup check_signature check_timestamp check_key check_binding
    check_policy derive_class verifies_as_mock mock_message check_status same_role same_type
    same_version same_class past_expiration unix_start_of source_changed payload_prefix is_local
accepted = refl

verify_attestation_sound_example :
    (entry : KeyDirectoryEntry) × (lookup directory "expert-1" ≡ some entry)
    × IsSignedBy attestation_crates entry attestation
    × IsStampedLocally attestation_crates attestation context
    × IsAuthorized attestation_crates entry attestation 1700000000
    × IsCurrent attestation_crates attestation attested_hash attested_manifest context
verify_attestation_sound_example =
    verify_attestation_sound attestation_crates attestation attested_hash attested_manifest
      directory context accepted

abbrev pub one_each : VerificationPolicy
one_each = record {
  t2_t3_mode = strict;
  required_attestation_types = source_fidelity ∷ [];
  minimum_attestation_count_per_type =
      record { attestation_type = source_fidelity; count = 1 } ∷ [];
}

set_accepted :
    verify_attestation_set attestation_crates attested_manifest
      (attestation ∷ [])
      one_each
      directory
      context
    ≡ ok tt
unfolding verify_attestation_set sift missing_types absent_for approval_in required_count
    found_count verify_attestation lookup check_signature check_timestamp check_key check_binding
    check_policy derive_class verifies_as_mock mock_message check_status same_role same_type
    same_version same_class past_expiration unix_start_of source_changed payload_prefix is_local
set_accepted = refl

verify_attestation_set_sound_example :
    All
      (λ a.
        verify_attestation attestation_crates a attested_hash attested_manifest directory context
        ≡ ok tt)
      (attestation ∷ [])
    × All (λ t. required_count one_each t ≤ found_count (attestation ∷ []) t) (source_fidelity ∷ [])
    × ((approval_in (attestation ∷ []) ≡ none)
        ⊎ ((approval : Attestation) × (approval_in (attestation ∷ []) ≡ some approval)
            × All
                (λ t. co_attested (attestation ∷ []) approval t ≡ true)
                (co_attestation_types regime_pack)))
verify_attestation_set_sound_example =
    verify_attestation_set_sound attestation_crates attested_manifest directory context
      (attestation ∷ []) one_each set_accepted
