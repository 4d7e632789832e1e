-- ===== src/Artifact/Verify.antt =====
-- The verdict on an artifact, and the provenance that goes with it
-- (crates/ke-artifact/src/verify.rs).
pub mod Verified
use Prim.Native.String.{slice, ◌++◌ as str_append}
use regulatory_rule_engine.Prelude.{
  ℕ, ◌≡◌, refl, ◌↔◌, ◌⊎◌, inl, inr, String, str_eq, Bool, true, false, Bool-cases, Option, none,
  some, List, [], map, take, replicate, Result, Result-cases, ok, err, if◌then◌else◌, ◌==◌, List_eq,
  ℕ_eq, eq_of_beq, beq_refl, Option-cases, arith, sym, ◌∙◌, ap, ok-injective,
}
use regulatory_rule_engine.Ir.{Hash}
use regulatory_rule_engine.Crypto.{Bytes, VerifyingKey}
use regulatory_rule_engine.Manifest.{
  SemVer, ArtifactKind, AttestationType, VerificationPolicy, Manifest,
}
use regulatory_rule_engine.Artifact.Keydir.{KeyDirectoryEntry, KeyDirectory, lookup}
use regulatory_rule_engine.Artifact.Tsa.{TimestampAuthorityClass}
use regulatory_rule_engine.Artifact.Attestation.{
  Attestation, AttestationCrates, PolicyContext, AttestationRejection,
}
use regulatory_rule_engine.Artifact.Attestation.Set.{verify_attestation_set}
use regulatory_rule_engine.Artifact.Envelope.{Artifact, ArtifactError, ArtifactCrates}
use regulatory_rule_engine.Artifact.Envelope.Decode.{decode_artifact, verify_hash, verify_signature}

pub data RegistryStatus : Type 0 where
  published deprecated revoked unknown : RegistryStatus

pub record RegistryEvidence : Type 0 where
  pub status : RegistryStatus
  pub event_head_hash : Hash
  pub live_event_head : Option Hash

-- The error of the decoder stands for its text.
pub data RejectionReason : Type 0 where
  decode : ArtifactError → RejectionReason
  hash_mismatch : RejectionReason
  compiler_signature_invalid : RejectionReason
  attestations : List AttestationRejection → RejectionReason
  not_published : (status : RegistryStatus) → RejectionReason
  stale_event_head : (embedded live : Hash) → RejectionReason

pub data Verdict : Type 0 where
  verified : Verdict
  rejected : RejectionReason → Verdict

pub record AttestationSummary : Type 0 where
  pub attestation_type : AttestationType
  pub signer_key_id : String
  pub is_test_key : Bool
  pub tsa_class : TimestampAuthorityClass
  pub claimed_time_unix : ℕ

pub record ArtifactProvenance : Type 0 where
  pub artifact_kind : Option ArtifactKind
  pub regime_id : String
  pub artifact_hash : Hash
  pub ir_schema_version : String
  pub codec_version : String
  pub canonicalization_version : String
  pub signer_key_id : String
  pub is_test_key : Bool
  pub attestations : List AttestationSummary
  pub registry_state : RegistryStatus
  pub registry_event_head_hash : Hash
  pub exported_at_unix : ℕ

pub record VerificationOutcome : Type 0 where
  pub verdict : Verdict
  pub provenance : ArtifactProvenance
  pub registry_state : RegistryStatus

-- `starts_with("test-")`
unfoldable pub test_key : String → Bool
test_key key_id = str_eq (slice key_id 0 5) "test-"

unfoldable pub summarize_attestation : Attestation → AttestationSummary
unfolding test_key
summarize_attestation a = record {
  attestation_type = a.attestation_type;
  signer_key_id = a.key_id;
  is_test_key = test_key a.key_id;
  tsa_class = a.timestamp.class;
  claimed_time_unix = a.timestamp.claimed_time_unix;
}

unfoldable pub is_published : RegistryStatus → Bool
is_published published = true
is_published _ = false

unfoldable pub decode_failed_provenance : RegistryEvidence → ℕ → ArtifactProvenance
decode_failed_provenance registry exported_at_unix = record {
  artifact_kind = none;
  regime_id = "";
  artifact_hash = replicate 32 0;
  ir_schema_version = "";
  codec_version = "";
  canonicalization_version = "";
  signer_key_id = "";
  is_test_key = false;
  attestations = [];
  registry_state = registry.status;
  registry_event_head_hash = registry.event_head_hash;
  exported_at_unix = exported_at_unix;
}

staleness : Hash → Option Hash → Verdict
staleness embedded none = verified
staleness embedded (some live) =
    if live == embedded then verified else rejected (stale_event_head embedded live)

parsed_key : (Bytes → Option VerifyingKey) → Option KeyDirectoryEntry → Option VerifyingKey
parsed_key from_bytes none = none
parsed_key from_bytes (some entry) = from_bytes entry.public_key

module _ (c : ArtifactCrates) (attestation : AttestationCrates) where
  version_text : SemVer → String
  version_text v = str_append (attestation.digits_of v.major) (
      str_append "." (
        str_append (attestation.digits_of v.minor)
          (str_append "." (attestation.digits_of v.patch))))

  unfoldable pub artifact_provenance : Artifact → RegistryEvidence → ℕ → ArtifactProvenance
  unfolding version_text summarize_attestation
  artifact_provenance artifact registry exported_at_unix = record {
    artifact_kind = some artifact.manifest.artifact_kind;
    regime_id = artifact.manifest.regime_id;
    artifact_hash = artifact.manifest.artifact_hash;
    ir_schema_version = version_text artifact.manifest.ir_schema_version;
    codec_version = artifact.manifest.codec_version;
    canonicalization_version = artifact.manifest.canonicalization_version;
    signer_key_id = artifact.compiler_signature.key_id;
    is_test_key = test_key artifact.compiler_signature.key_id;
    attestations = map summarize_attestation artifact.attestations;
    registry_state = registry.status;
    registry_event_head_hash = registry.event_head_hash;
    exported_at_unix = exported_at_unix;
  }

  -- The key that the directory has for the signature, if there is one and it parses.
  unfoldable pub compiler_key : KeyDirectory → Artifact → Option VerifyingKey
  unfolding parsed_key
  compiler_key keydir artifact =
      parsed_key c.ed25519.from_bytes (lookup keydir artifact.compiler_signature.key_id)

  registry_verdict : RegistryEvidence → Verdict
  unfolding is_published staleness
  registry_verdict registry =
      if is_published registry.status
      then staleness registry.event_head_hash registry.live_event_head
      else rejected (not_published registry.status)

  attested_verdict :
      Artifact → KeyDirectory → PolicyContext → VerificationPolicy → RegistryEvidence → Verdict
  unfolding registry_verdict
  attested_verdict artifact keydir ctx policy registry =
      elim (verify_attestation_set attestation artifact.manifest artifact.attestations policy keydir
        ctx) [
          | ok u ↦ registry_verdict registry
          | err rejections ↦ rejected (attestations rejections)
        ]

  signed_verdict : Option VerifyingKey → Bytes → Artifact → Verdict → Verdict
  signed_verdict none envelope artifact next = rejected compiler_signature_invalid
  signed_verdict (some key) envelope artifact next =
      elim (verify_signature c envelope artifact.compiler_signature key) [
        | ok u ↦ next
        | err e ↦ rejected compiler_signature_invalid
      ]

  unfoldable pub verdict_for :
      Artifact
      → Bytes
      → ℕ
      → KeyDirectory
      → PolicyContext
      → VerificationPolicy
      → RegistryEvidence
      → Verdict
  unfolding signed_verdict attested_verdict compiler_key
  verdict_for artifact kew envelope_len keydir ctx policy registry = elim (verify_hash c kew) [
    | err e ↦ rejected hash_mismatch
    | ok h ↦
        signed_verdict (compiler_key keydir artifact) (take envelope_len kew) artifact
          (attested_verdict artifact keydir ctx policy registry)
  ]

  unfoldable pub verify_artifact :
      Bytes
      → KeyDirectory
      → PolicyContext
      → VerificationPolicy
      → RegistryEvidence
      → ℕ
      → VerificationOutcome
  unfolding verdict_for artifact_provenance decode_failed_provenance
  verify_artifact kew keydir ctx policy registry exported_at_unix = elim (decode_artifact c kew) [
    | err e ↦ record {
      verdict = rejected (decode e);
      provenance = decode_failed_provenance registry exported_at_unix;
      registry_state = registry.status;
    }
    | ok decoded ↦ record {
      verdict = verdict_for decoded.0 kew decoded.1 keydir ctx policy registry;
      provenance = artifact_provenance decoded.0 registry exported_at_unix;
      registry_state = registry.status;
    }
  ]
