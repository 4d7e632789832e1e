-- ===== src/Artifact/Envelope/Decode.antt =====
-- Decoding and checking the bytes of an artifact (crates/ke-artifact/src/artifact.rs, hash.rs,
-- sign.rs).
use regulatory_rule_engine.Prelude.{
  ℕ, ◌+◌, ◌-◌, ltb, Bool, true, false, not, ◌++◌, length, is_empty, take, drop, replicate, Result,
  ok, err, ◌>>=◌, ◌>>◌, map_err, if◌then◌else◌, ◌==◌, List_eq, ℕ_eq,
}
use regulatory_rule_engine.Ir.{Hash}
use regulatory_rule_engine.Crypto.{Bytes, CodecError, VerifyingKey}
use regulatory_rule_engine.Manifest.{ArtifactKind}
use regulatory_rule_engine.Canonical.Error.{CanonicalDecodeError}
use regulatory_rule_engine.Canonical.Ordering.{for_each}
use regulatory_rule_engine.Canonical.Decode.{validate_rule, validate_manifest}
use regulatory_rule_engine.Artifact.Envelope.{
  ArtifactPayload, rules, intent_spec, Artifact, CompilerSignature, ArtifactError, canonical_decode,
  trailing_bytes, hash_mismatch, signature_invalid, envelope_truncated, kind_payload_mismatch,
  ArtifactCrates,
}

-- `bytes[offset..offset + new.len()].copy_from_slice(new)`, for a range within the bytes.
abbrev pub overwrite : ℕ → Bytes → Bytes → Bytes
overwrite offset new bytes = take offset bytes ++ (new ++ drop (offset + length new) bytes)

codec_decode : CodecError → ArtifactError
codec_decode e = canonical_decode (CanonicalDecodeError.codec e)

unfoldable pub is_intent_spec : ArtifactKind → Bool
is_intent_spec ArtifactKind.intent_spec = true
is_intent_spec _ = false

-- The encoding of a fieldless variant cannot fail.
encoded_length : Result Bytes CodecError → ℕ
encoded_length (ok bytes) = length bytes
encoded_length (err e) = 0

module _ (c : ArtifactCrates) where
  unfoldable pub artifact_hash_offset : ArtifactKind → ℕ
  unfolding encoded_length
  artifact_hash_offset kind = encoded_length (c.kind.to_stdvec kind)

  -- The agreement of kind and payload, and the rules' own checks.
  unfoldable pub validate_payload : ArtifactKind → ArtifactPayload → Result (Unit {0}) ArtifactError
  unfolding is_intent_spec
  validate_payload kind (rules rs) =
      if is_intent_spec kind
      then err (kind_payload_mismatch kind)
      else map_err canonical_decode (for_each (validate_rule c.encoding) rs)
  validate_payload kind (intent_spec spec) =
      if is_intent_spec kind then ok tt else err (kind_payload_mismatch kind)

  -- The artifact, and the length of its envelope.
  unfoldable pub decode_artifact : Bytes → Result (Artifact × ℕ) ArtifactError
  unfolding codec_decode validate_payload
  decode_artifact bytes = do
    taken ←
        map_err (λ e. if c.is_unexpected_end e then envelope_truncated else codec_decode e)
          (c.prefix.take_from_bytes bytes)
    signature ← map_err codec_decode (c.compiler_signature.take_from_bytes taken.1)
    attestations ← map_err codec_decode (c.attestations.take_from_bytes signature.1)
    metadata ← map_err codec_decode (c.registry_state_metadata.take_from_bytes attestations.1)
    if is_empty metadata.1 then ok tt else err trailing_bytes
    map_err canonical_decode (validate_manifest c.encoding taken.0.manifest)
    validate_payload taken.0.manifest.artifact_kind taken.0.payload
    ok (
      record {
        envelope = taken.0;
        compiler_signature = signature.0;
        attestations = attestations.0;
        registry_state_metadata = metadata.0;
      },
      length bytes - length taken.1,
    )

  unfoldable pub content_hash : Bytes → Result Hash ArtifactError
  unfolding artifact_hash_offset
  content_hash envelope_prefix = do
    kind ← map_err (λ _. envelope_truncated) (c.kind.take_from_bytes envelope_prefix)
    let offset = artifact_hash_offset kind.0
    if ltb (length envelope_prefix) (offset + 32)
        then err envelope_truncated
        else ok (c.blake3 (overwrite offset (replicate 32 0) envelope_prefix))

  unfoldable pub verify_hash : Bytes → Result Hash ArtifactError
  unfolding decode_artifact content_hash
  verify_hash kew_bytes = do
    decoded ← decode_artifact kew_bytes
    got ← content_hash (take decoded.1 kew_bytes)
    if not (got == decoded.0.manifest.artifact_hash)
        then err (hash_mismatch decoded.0.manifest.artifact_hash got)
        else ok got

  unfoldable pub verify_signature :
      Bytes → CompilerSignature → VerifyingKey → Result (Unit {0}) ArtifactError
  verify_signature envelope_prefix compiler_signature verifying_key =
      if verifying_key envelope_prefix compiler_signature.signature
      then ok tt
      else err signature_invalid
