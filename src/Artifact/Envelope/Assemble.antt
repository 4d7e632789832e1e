-- ===== src/Artifact/Envelope/Assemble.antt =====
-- Assembling an artifact, and appending attestations to one (crates/ke-artifact/src/artifact.rs,
-- sign.rs).
use regulatory_rule_engine.Prelude.{
  String, none, List, [], ◌∷◌, ◌++◌, replicate, Result, ok, ◌>>=◌, ◌>>◌, map_err,
}
use regulatory_rule_engine.Ir.{RuleIr}
use regulatory_rule_engine.Crypto.{Bytes, CodecError}
use regulatory_rule_engine.Manifest.{Manifest}
use regulatory_rule_engine.Canonical.Error.{CanonicalError}
use regulatory_rule_engine.Canonical.Encode.{canonicalize_rule, canonicalize_manifest}
use regulatory_rule_engine.Artifact.Attestation.{Attestation}
use regulatory_rule_engine.Artifact.Envelope.{
  ArtifactPayload, rules, intent_spec, SourceSpanIndex, AuditVersions, CompilerSignature,
  EnvelopeView, Artifact, ArtifactError, canonical, ArtifactCrates, draft, build_span_index,
}
use regulatory_rule_engine.Artifact.Envelope.Decode.{overwrite, artifact_hash_offset}

unfoldable pub codec : CodecError → ArtifactError
codec e = canonical (CanonicalError.codec e)

-- An `ed25519_dalek::SigningKey`, as what it does with a message.
abbrev pub SigningKey : Type 0
SigningKey = Bytes → Bytes

unfoldable pub sign_envelope : Bytes → SigningKey → String → CompilerSignature
sign_envelope envelope_prefix signing_key key_id = record {
  key_id = key_id;
  signature = signing_key envelope_prefix;
}

-- The 32 zero bytes of the hash slot.
unfoldable pub with_hash : Bytes → Manifest → Manifest
with_hash hash m = record m { artifact_hash = hash }

unfoldable pub index_of : ArtifactPayload → SourceSpanIndex
index_of (rules rs) = build_span_index rs
index_of (intent_spec spec) = record { entries = [] }

module _ (c : ArtifactCrates) where
  unfoldable pub canonicalize_rules : List RuleIr → Result (List RuleIr) CanonicalError
  canonicalize_rules [] = ok []
  canonicalize_rules (r ∷ rs) = do
    r' ← canonicalize_rule c.encoding r
    rs' ← canonicalize_rules rs
    ok (r' ∷ rs')

  -- Only rules are normalised.
  unfoldable pub canonicalize_payload : ArtifactPayload → Result ArtifactPayload CanonicalError
  unfolding canonicalize_rules
  canonicalize_payload (rules rs) = do rs' ← canonicalize_rules rs; ok (rules rs')
  canonicalize_payload (intent_spec spec) = ok (intent_spec spec)

  -- The hash goes into the encoded envelope at its offset; what is signed is the result.
  unfoldable pub assemble_payload :
      Manifest
      → ArtifactPayload
      → AuditVersions
      → SigningKey
      → String
      → Result (Artifact × Bytes) ArtifactError
  unfolding canonicalize_payload with_hash index_of sign_envelope codec
  assemble_payload manifest payload audit_versions signing_key key_id = do
    let zeroed = with_hash (replicate 32 0) manifest
    map_err canonical (canonicalize_manifest c.encoding zeroed)
    payload' ← map_err canonical (canonicalize_payload payload)
    let unhashed : EnvelopeView = record {
      manifest = zeroed;
      payload = payload';
      source_span_index = index_of payload';
      audit_versions = audit_versions;
      consistency_block = none;
    }
    encoded ← map_err codec (c.prefix.to_stdvec unhashed)
    let hash = c.blake3 encoded
    let envelope = overwrite (artifact_hash_offset c zeroed.artifact_kind) hash encoded
    let signature = sign_envelope envelope signing_key key_id
    s ← map_err codec (c.compiler_signature.to_stdvec signature)
    a ← map_err codec (c.attestations.to_stdvec [])
    r ← map_err codec (c.registry_state_metadata.to_stdvec draft)
    ok (
      record {
        envelope = record {
          manifest = with_hash hash zeroed;
          payload = payload';
          source_span_index = index_of payload';
          audit_versions = audit_versions;
          consistency_block = none;
        };
        compiler_signature = signature;
        attestations = [];
        registry_state_metadata = draft;
      },
      envelope ++ (s ++ (a ++ r)),
    )

  unfoldable pub assemble :
      Manifest
      → List RuleIr
      → AuditVersions
      → SigningKey
      → String
      → Result (Artifact × Bytes) ArtifactError
  unfolding assemble_payload
  assemble manifest rs audit_versions signing_key key_id =
      assemble_payload manifest (rules rs) audit_versions signing_key key_id

  unfoldable pub with_attestations :
      List Attestation → Artifact → Result (Artifact × Bytes) ArtifactError
  unfolding codec
  with_attestations attestations artifact = do
    let appended = record artifact { attestations = attestations }
    kew ← map_err codec (c.artifact_to_stdvec appended)
    ok (appended, kew)
