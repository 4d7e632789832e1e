-- ===== src/Artifact/Attestation.antt =====
-- Attestations and the rules that reject them (crates/ke-artifact/src/attestation.rs).
pub mod Day
pub mod Accepts
pub mod Set
use Prim.Native.String.{◌++◌ as str_append}
use regulatory_rule_engine.Prelude.{
  ℕ, ◌-◌, ◌^◌, ℤ, pos, ltb, leb, leb_ℤ, nat_eq, str_eq, ◌==◌, ℕ_eq, List_eq, String_eq, contains,
  not, String, Bool, true, false, ◌&&◌, ◌||◌, Option, none, some, List, [], ◌∷◌, length, take,
  Result, ok, err, ◌>>=◌, ◌>>◌, map_err, ok_or, if◌then◌else◌,
}
use regulatory_rule_engine.Ir.{Hash, JurisdictionDate}
use regulatory_rule_engine.Manifest.{SemVer, AttestationType, Manifest}
use regulatory_rule_engine.Crypto.{Bytes, CodecError, Ed25519, VerifyingKey}
use regulatory_rule_engine.Artifact.Keydir.{
  SignerRole, KeyStatus, active, expired, revoked, KeyDirectoryEntry, KeyDirectory, lookup,
}
use regulatory_rule_engine.Artifact.Tsa.{
  TimestampAuthorityClass, rfc3161_external, rfc3161_internal, mock, TimestampToken, TsaError,
  unsupported, class_mismatch, derive_class,
}
use regulatory_rule_engine.Artifact.Attestation.Day.{unix_start_of}

pub data AttestationScope : Type 0 where
  rule_ids : List String → AttestationScope
  whole_artifact : AttestationScope

pub record Attestation : Type 0 where
  pub artifact_hash : Hash
  pub scope : AttestationScope
  pub attestation_type : AttestationType
  pub signer_identity : String
  pub key_id : String
  pub signer_role : SignerRole
  pub regime_id : String
  pub effective_from : JurisdictionDate
  pub effective_to : Option JurisdictionDate
  pub legal_source_hash : Hash
  pub ir_schema_version : SemVer
  pub compiler_version : SemVer
  pub attestation_policy_version : String
  pub test_corpus_hash : Option Hash
  pub timestamp : TimestampToken
  pub expiration : Option JurisdictionDate
  pub reviewer_comments : Option String
  pub signature : Bytes

pub record PolicyContext : Type 0 where
  pub environment : String
  pub now_unix : ℕ
  pub supported_policy_versions : List String
  pub current_legal_source_hash : Option Hash

unfoldable pub is_local : PolicyContext → Bool
is_local c = str_eq c.environment "local"

pub data AttestationRejection : Type 0 where
  key_unknown : (key_id : String) → AttestationRejection
  key_expired : (key_id : String) → AttestationRejection
  key_revoked : (key_id : String) → AttestationRejection
  key_unauthorized_for_type :
      (key_id : String) → (attestation_type : AttestationType) → AttestationRejection
  not_bound_to_artifact : (expected got : Hash) → AttestationRejection
  policy_version_unsupported : (version : String) → AttestationRejection
  attestation_expired : AttestationRejection
  legal_source_hash_changed : AttestationRejection
  required_type_missing :
      (attestation_type : AttestationType) → (required found : ℕ) → AttestationRejection
  co_attestation_absent : (missing : AttestationType) → AttestationRejection
  mock_tsa_non_local : AttestationRejection
  attestation_signature_invalid : AttestationRejection
  timestamp_class_mismatch : AttestationRejection
  tsa_unsupported : (class : TimestampAuthorityClass) → AttestationRejection

-- The derived equalities.
unfoldable pub same_role : SignerRole → SignerRole → Bool
same_role SignerRole.domain_expert SignerRole.domain_expert = true
same_role SignerRole.publication_approver SignerRole.publication_approver = true
same_role SignerRole.registry SignerRole.registry = true
same_role _ _ = false

unfoldable pub same_type : AttestationType → AttestationType → Bool
same_type AttestationType.source_fidelity AttestationType.source_fidelity = true
same_type AttestationType.interpretation AttestationType.interpretation = true
same_type AttestationType.scenario_coverage AttestationType.scenario_coverage = true
same_type AttestationType.equivalence_claim AttestationType.equivalence_claim = true
same_type AttestationType.publication_approval AttestationType.publication_approval = true
same_type _ _ = false

unfoldable pub same_version : SemVer → SemVer → Bool
same_version a b = nat_eq a.major b.major && (nat_eq a.minor b.minor && nat_eq a.patch b.patch)

unfoldable pub same_class : TimestampAuthorityClass → TimestampAuthorityClass → Bool
same_class (rfc3161_external i) (rfc3161_external j) = str_eq i j
same_class (rfc3161_internal i) (rfc3161_internal j) = str_eq i j
same_class mock mock = true
same_class _ _ = false

-- `contains`, with such an equality.
abbrev pub has : {A : Type 0} → (A → A → Bool) → List A → A → Bool
has same [] a = false
has same (x ∷ xs) a = if same x a then true else has same xs a

-- An early return under a condition.
abbrev pub reject_if : Bool → AttestationRejection → Result (Unit {0}) AttestationRejection
reject_if true r = err r
reject_if false r = ok tt

-- What is called of the crates: postcard on an attestation, and how many bytes follow its payload;
-- ed25519; and the decimal digits of a number.
pub record AttestationCrates : Type 0 where
  pub to_stdvec : Attestation → Result Bytes CodecError
  pub after_payload : Bytes → Result Bytes CodecError
  pub ed25519 : Ed25519
  pub digits_of : ℕ → String

tsa_rejection : TsaError → AttestationRejection
tsa_rejection (unsupported class) = tsa_unsupported class
tsa_rejection class_mismatch = timestamp_class_mismatch

unfoldable pub check_status : KeyStatus → String → Result (Unit {0}) AttestationRejection
check_status expired key_id = err (key_expired key_id)
check_status revoked key_id = err (key_revoked key_id)
check_status active key_id = ok tt

unfoldable pub past_expiration : ℕ → Option JurisdictionDate → Bool
past_expiration now none = false
past_expiration now (some expiration) =
    leb_ℤ (unix_start_of expiration) (if ltb now (2 ^ 63) then pos now else pos (2 ^ 63 - 1))

unfoldable pub source_changed : Option Hash → Hash → Bool
source_changed none attested = false
source_changed (some current) attested = not (current == attested)

is_mock : TimestampAuthorityClass → Bool
is_mock mock = true
is_mock _ = false

module _ (c : AttestationCrates) where
  unfoldable pub payload_prefix : Attestation → Result Bytes CodecError
  payload_prefix a = do
    bytes ← c.to_stdvec a
    rest ← c.after_payload bytes
    ok (take (length bytes - length rest) bytes)

  -- `format!("ir-schema-{}", version)`
  schema_text : SemVer → String
  schema_text v = str_append "ir-schema-" (
      str_append (c.digits_of v.major)
        (str_append "." (str_append (c.digits_of v.minor) (str_append "." (c.digits_of v.patch)))))

  unfoldable pub check_signature :
      KeyDirectoryEntry → Attestation → Result (Unit {0}) AttestationRejection
  unfolding payload_prefix
  check_signature entry a = do
    verify ← ok_or attestation_signature_invalid (c.ed25519.from_bytes entry.public_key)
    prefix ← map_err (λ _. attestation_signature_invalid) (payload_prefix a)
    reject_if (not (verify prefix a.signature)) attestation_signature_invalid

  unfoldable pub check_timestamp :
      Attestation → PolicyContext → Result (Unit {0}) AttestationRejection
  unfolding same_class tsa_rejection is_mock is_local
  check_timestamp a context = do
    derived ← map_err tsa_rejection (derive_class c.ed25519 a.timestamp a.artifact_hash)
    reject_if (not (same_class derived a.timestamp.class)) timestamp_class_mismatch
    reject_if (is_mock derived && not (is_local context)) mock_tsa_non_local

  unfoldable pub check_key :
      KeyDirectoryEntry → Attestation → PolicyContext → Result (Unit {0}) AttestationRejection
  unfolding check_status same_role same_type
  check_key entry a context = do
    check_status entry.status a.key_id
    reject_if
        (ltb context.now_unix entry.valid_from_unix || leb entry.valid_to_unix context.now_unix)
        (key_expired a.key_id)
    reject_if
        (not (has same_role entry.signer_roles a.signer_role)
          || not (has same_type entry.authorized_attestation_types a.attestation_type))
        (key_unauthorized_for_type a.key_id a.attestation_type)

  unfoldable pub check_binding :
      Attestation → Hash → Manifest → Result (Unit {0}) AttestationRejection
  unfolding same_version
  check_binding a expected m = do
    reject_if (not (a.artifact_hash == expected)) (not_bound_to_artifact expected a.artifact_hash)
    reject_if
        (not (str_eq a.regime_id m.regime_id)
          || not (same_version a.compiler_version m.compiler_version))
        (not_bound_to_artifact expected a.artifact_hash)

  unfoldable pub check_policy :
      Attestation → Manifest → PolicyContext → Result (Unit {0}) AttestationRejection
  unfolding same_version schema_text past_expiration source_changed
  check_policy a m context = do
    reject_if (not (contains context.supported_policy_versions a.attestation_policy_version))
        (policy_version_unsupported a.attestation_policy_version)
    reject_if (not (same_version a.ir_schema_version m.ir_schema_version))
        (policy_version_unsupported (schema_text a.ir_schema_version))
    reject_if (past_expiration context.now_unix a.expiration) attestation_expired
    reject_if (source_changed context.current_legal_source_hash a.legal_source_hash)
        legal_source_hash_changed

  -- The checks, in the order of the source.
  unfoldable pub verify_attestation :
      Attestation
      → Hash
      → Manifest
      → KeyDirectory
      → PolicyContext
      → Result (Unit {0}) AttestationRejection
  unfolding check_signature check_timestamp check_key check_binding check_policy
  verify_attestation a expected m directory context = do
    entry ← ok_or (key_unknown a.key_id) (lookup directory a.key_id)
    check_signature entry a
    check_timestamp a context
    check_key entry a context
    check_binding a expected m
    check_policy a m context
