-- ===== src/Manifest.antt =====
-- Artifact manifests and policies (crates/ke-core/src/manifest.rs, version.rs).
use regulatory_rule_engine.Prelude.{ℕ, String, Option, List}
use regulatory_rule_engine.Ir.{Hash, JurisdictionDate, EffectiveWindow}

-- `SemVer`, and `SchemaVersion`, which has the same fields.
pub record SemVer : Type 0 where
  pub major : ℕ
  pub minor : ℕ
  pub patch : ℕ

pub data ArtifactKind : Type 0 where
  regime_pack equivalence_matrix test_corpus policy_bundle intent_spec : ArtifactKind

pub record Manifest : Type 0 where
  pub artifact_kind : ArtifactKind
  pub artifact_hash : Hash
  pub regime_id : String
  pub effective_from : JurisdictionDate
  pub effective_to : Option JurisdictionDate
  pub compiler_version : SemVer
  pub compiler_build_hash : Hash
  pub ir_schema_version : SemVer
  pub codec_version : String
  pub canonicalization_version : String
  pub corpus_root_hash : Hash
  pub source_corpus_hash : Hash
  pub attestation_policy_version : String

pub data T2T3Mode : Type 0 where
  strict review_override advisory disabled : T2T3Mode

pub data AttestationType : Type 0 where
  source_fidelity interpretation scenario_coverage equivalence_claim publication_approval :
      AttestationType

pub data RevocationPolicy : Type 0 where
  hard_stop finish_pinned audit_only : RevocationPolicy

pub record AttestationCount : Type 0 where
  pub attestation_type : AttestationType
  pub count : ℕ

pub record VerificationPolicy : Type 0 where
  pub t2_t3_mode : T2T3Mode
  pub required_attestation_types : List AttestationType
  pub minimum_attestation_count_per_type : List AttestationCount

pub record PolicyBundle : Type 0 where
  pub environment : String
  pub verification_policy : VerificationPolicy
  pub revocation_policy : RevocationPolicy
  pub effective_window : EffectiveWindow
