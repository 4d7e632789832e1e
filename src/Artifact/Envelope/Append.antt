-- ===== src/Artifact/Envelope/Append.antt =====
-- Assembling gives a sealed artifact, and appending attestations keeps it sealed.
use mathlib.Core.Path.{subst}
use regulatory_rule_engine.Prelude.{
  ℕ, ◌≡◌, refl, sym, ap, ◌∙◌, true, false, none, List, [], ◌∷◌, ◌++◌, length, replicate,
  length-replicate, ok, >>=-eq-ok, map_err, map_err-eq-ok, ok-injective, String,
}
use regulatory_rule_engine.Crypto.{Bytes}
use regulatory_rule_engine.Ir.{RuleIr}
use regulatory_rule_engine.Manifest.{Manifest, ArtifactKind}
use regulatory_rule_engine.Canonical.Ordering.{for_each}
use regulatory_rule_engine.Canonical.Encode.{canonicalize_rule, canonicalize_manifest}
use regulatory_rule_engine.Canonical.Decode.{validate_rule, validate_manifest}
use regulatory_rule_engine.Canonical.Roundtrip.{canonicalize_rule-validate}
use regulatory_rule_engine.Canonical.Checks.{Agree-manifest}
use regulatory_rule_engine.Artifact.Attestation.{Attestation}
use regulatory_rule_engine.Artifact.Envelope.{
  ArtifactPayload, rules, intent_spec, AuditVersions, EnvelopeView, Artifact, canonical,
  ArtifactCrates, draft,
}
use regulatory_rule_engine.Artifact.Envelope.Decode.{
  is_intent_spec, validate_payload, artifact_hash_offset, decode_artifact, verify_hash, overwrite,
}
use regulatory_rule_engine.Artifact.Envelope.Assemble.{
  codec, SigningKey, sign_envelope, with_hash, index_of, canonicalize_rules, canonicalize_payload,
  assemble_payload, with_attestations,
}
use regulatory_rule_engine.Artifact.Envelope.Sealed.{
  overwrite_at, ArtifactCratesLaws, IsSealed, envelope_of, prefix_written, IsSealed-decode,
  IsSealed-hash,
}

-- The kind of the manifest says what the payload is.
abbrev pub Agrees : ArtifactKind → ArtifactPayload → Type 0
Agrees kind (rules rs) = is_intent_spec kind ≡ false
Agrees kind (intent_spec spec) = is_intent_spec kind ≡ true

module _ (c : ArtifactCrates) where
  canonicalize_rules-valid :
      (rs : List RuleIr) {rs' : List RuleIr}
      → canonicalize_rules c rs ≡ ok rs'
      → for_each (validate_rule c.encoding) rs' ≡ ok tt
  unfolding canonicalize_rules
  canonicalize_rules-valid [] h =
      subst (λ xs. for_each (validate_rule c.encoding) xs ≡ ok tt) (ok-injective h) refl
  canonicalize_rules-valid (r ∷ rs) h =
      let (r', made, h₁) = >>=-eq-ok (canonicalize_rule c.encoding r) _ h in
      let (rs', others, h₂) = >>=-eq-ok (canonicalize_rules c rs) _ h₁ in
      subst (λ xs. for_each (validate_rule c.encoding) xs ≡ ok tt) (ok-injective h₂)
        (rw ((canonicalize_rule-validate c.encoding r made).0) (canonicalize_rules-valid rs others))

  canonicalize_payload-valid :
      (kind : ArtifactKind) (payload : ArtifactPayload) {payload' : ArtifactPayload}
      → Agrees kind payload
      → canonicalize_payload c payload ≡ ok payload'
      → validate_payload c kind payload' ≡ ok tt
  unfolding canonicalize_payload validate_payload
  canonicalize_payload-valid kind (rules rs) agrees h =
      let (rs', made, same) = >>=-eq-ok (canonicalize_rules c rs) _ h in
      subst (λ p. validate_payload c kind p ≡ ok tt) (ok-injective same)
        (rw (agrees, canonicalize_rules-valid rs made) refl)
  canonicalize_payload-valid kind (intent_spec spec) agrees h =
      subst (λ p. validate_payload c kind p ≡ ok tt) (ok-injective h)
        (rw (agrees, validate_payload) refl)

  module _ (laws : ArtifactCratesLaws c) where
    open laws use {
      kind_bytes, kind_written, rest_of, rest_of-patch, layout, artifact_layout, length-blake3,
    }

    offset_lem : (k : ArtifactKind) → artifact_hash_offset c k ≡ length (kind_bytes k)
    unfolding artifact_hash_offset
    offset_lem k = rw (kind_written k) refl

    patched :
        (kind : ArtifactKind) (hash rest encoded : Bytes)
        → length hash ≡ 32
        → kind_bytes kind ++ (replicate 32 0 ++ rest) ≡ encoded
        → overwrite (artifact_hash_offset c kind) hash encoded ≡ kind_bytes kind ++ (hash ++ rest)
    patched kind hash rest encoded long same =
        rw (offset_lem kind, sym same)
          (overwrite_at (kind_bytes kind) (replicate 32 0) hash rest
            (length-replicate {A = ℕ} 32 0 ∙ sym long))

    pub assemble_payload-IsSealed :
        (manifest : Manifest) (payload : ArtifactPayload) (audit_versions : AuditVersions)
        (signing_key : SigningKey) (key_id : String) {a : Artifact} {kew : Bytes}
        → Agrees manifest.artifact_kind payload
        → assemble_payload c manifest payload audit_versions signing_key key_id ≡ ok (a, kew)
        → IsSealed c laws a kew
    unfolding assemble_payload canonicalize_manifest validate_manifest with_hash codec sign_envelope
    assemble_payload-IsSealed manifest payload audit_versions signing_key key_id agrees h =
        let zeros : Bytes = replicate 32 0 in
        let zeroed = with_hash zeros manifest in
        let kind = manifest.artifact_kind in
        let (u, checked, h₁) =
          >>=-eq-ok (map_err canonical (canonicalize_manifest c.encoding zeroed)) _ h in
        let (payload', made, h₂) =
          >>=-eq-ok (map_err canonical (canonicalize_payload c payload)) _ h₁ in
        let unhashed : EnvelopeView = record {
          manifest = zeroed;
          payload = payload';
          source_span_index = index_of payload';
          audit_versions = audit_versions;
          consistency_block = none;
        } in
        let (encoded, written, h₃) = >>=-eq-ok (map_err codec (c.prefix.to_stdvec unhashed)) _ h₂ in
        let (rest, rest_ok, parts) =
          >>=-eq-ok (rest_of unhashed) _ (
            sym (layout unhashed (length-replicate {A = ℕ} 32 0))
            ∙ map_err-eq-ok codec _ written) in
        let same : kind_bytes kind ++ (zeros ++ rest) ≡ encoded = ok-injective parts in
        let hash = c.blake3 encoded in
        let envelope = overwrite (artifact_hash_offset c kind) hash encoded in
        let signature = sign_envelope envelope signing_key key_id in
        let (s, s_ok, h₄) =
          >>=-eq-ok (map_err codec (c.compiler_signature.to_stdvec signature)) _ h₃ in
        let (t, t_ok, h₅) = >>=-eq-ok (map_err codec (c.attestations.to_stdvec [])) _ h₄ in
        let (m, m_ok, h₆) =
          >>=-eq-ok (map_err codec (c.registry_state_metadata.to_stdvec draft)) _ h₅ in
        subst (λ x. IsSealed c laws x.0 x.1) (ok-injective h₆)
          (record {
            manifest_valid =
                (Agree-manifest c.encoding (with_hash hash zeroed)).to
                  (map_err-eq-ok canonical _ checked);
            payload_valid =
                canonicalize_payload-valid kind payload agrees (map_err-eq-ok canonical _ made);
            hash_length = length-blake3 encoded;
            rest = rest;
            rest_written = rest_of-patch unhashed hash ∙ rest_ok;
            signature = s;
            signature_written = map_err-eq-ok codec _ s_ok;
            attested = t;
            attested_written = map_err-eq-ok codec _ t_ok;
            metadata = m;
            metadata_written = map_err-eq-ok codec _ m_ok;
            hashed = ap c.blake3 (sym same);
            bytes =
                ap (λ b. b ++ (s ++ (t ++ m)))
                  (patched kind hash rest encoded (length-blake3 encoded) same);
          })

    -- With crates that behave as documented (`ArtifactCratesLaws`): if a payload of the manifest's kind
    -- is assembled, then decoding the bytes gives the assembled artifact back, and checking their hash
    -- succeeds with the hash that the artifact's manifest claims.
    pub decode_artifact-assemble_payload :
        (manifest : Manifest) (payload : ArtifactPayload) (audit_versions : AuditVersions)
        (signing_key : SigningKey) (key_id : String) {a : Artifact} {kew : Bytes}
        → Agrees manifest.artifact_kind payload
        → assemble_payload c manifest payload audit_versions signing_key key_id ≡ ok (a, kew)
        → ((n : ℕ) × (decode_artifact c kew ≡ ok (a, n)))
          × (verify_hash c kew ≡ ok a.manifest.artifact_hash)
    decode_artifact-assemble_payload manifest payload audit_versions signing_key key_id agrees h =
        let sealed =
          assemble_payload-IsSealed manifest payload audit_versions signing_key key_id agrees h in
        ((_, IsSealed-decode c laws sealed), IsSealed-hash c laws sealed)

    -- With crates that behave as documented (`ArtifactCratesLaws`): appending attestations to a sealed
    -- artifact leaves its envelope and its signature as they were and gives a sealed artifact.
    pub with_attestations-IsSealed :
        (attestations : List Attestation) {a a' : Artifact} {kew kew' : Bytes}
        → IsSealed c laws a kew
        → with_attestations c attestations a ≡ ok (a', kew')
        → IsSealed c laws a' kew'
          × (a'.envelope ≡ a.envelope)
          × (a'.compiler_signature ≡ a.compiler_signature)
          × (a'.attestations ≡ attestations)
    unfolding with_attestations codec
    with_attestations-IsSealed attestations {a} {a'} {kew} {kew'} sealed h =
        let appended : Artifact = record a { attestations = attestations } in
        let (bytes, written, h₁) = >>=-eq-ok (map_err codec (c.artifact_to_stdvec appended)) _ h in
        let (p, p_ok, r₁) =
          >>=-eq-ok (c.prefix.to_stdvec a.envelope) _
            (sym (artifact_layout appended) ∙ map_err-eq-ok codec _ written) in
        let (s, s_ok, r₂) = >>=-eq-ok (c.compiler_signature.to_stdvec a.compiler_signature) _ r₁ in
        let (t, t_ok, r₃) = >>=-eq-ok (c.attestations.to_stdvec attestations) _ r₂ in
        let (m, m_ok, r₄) =
          >>=-eq-ok (c.registry_state_metadata.to_stdvec a.registry_state_metadata) _ r₃ in
        let same : p ≡ envelope_of c laws sealed =
          ok-injective (sym p_ok ∙ prefix_written c laws sealed) in
        subst
          (λ x.
            IsSealed c laws x.0 x.1
            × (x.0.envelope ≡ a.envelope)
            × (x.0.compiler_signature ≡ a.compiler_signature)
            × (x.0.attestations ≡ attestations))
          (ok-injective h₁)
          (
            record {
              manifest_valid = sealed.manifest_valid;
              payload_valid = sealed.payload_valid;
              hash_length = sealed.hash_length;
              rest = sealed.rest;
              rest_written = sealed.rest_written;
              signature = s;
              signature_written = s_ok;
              attested = t;
              attested_written = t_ok;
              metadata = m;
              metadata_written = m_ok;
              hashed = sealed.hashed;
              bytes = sym (ok-injective r₄) ∙ ap (λ b. b ++ (s ++ (t ++ m))) same;
            },
            refl,
            refl,
            refl,
          )

    -- With crates that behave as documented (`ArtifactCratesLaws`): if a payload of the manifest's kind
    -- is assembled and attestations are appended to the artifact, then decoding the new bytes gives
    -- the artifact with those attestations, and checking their hash gives the same hash as before.
    pub verify_hash-with_attestations :
        (manifest : Manifest) (payload : ArtifactPayload) (audit_versions : AuditVersions)
        (signing_key : SigningKey) (key_id : String) (attestations : List Attestation)
        {a a' : Artifact} {kew kew' : Bytes}
        → Agrees manifest.artifact_kind payload
        → assemble_payload c manifest payload audit_versions signing_key key_id ≡ ok (a, kew)
        → with_attestations c attestations a ≡ ok (a', kew')
        → ((n : ℕ) × (decode_artifact c kew' ≡ ok (a', n)))
          × (a'.attestations ≡ attestations)
          × (verify_hash c kew' ≡ ok a.manifest.artifact_hash)
    verify_hash-with_attestations manifest payload audit_versions signing_key key_id attestations
          {a} {a'} agrees h k =
        let sealed =
          assemble_payload-IsSealed manifest payload audit_versions signing_key key_id agrees h in
        let (sealed', same, signed, appended) = with_attestations-IsSealed attestations sealed k in
        (
          (_, IsSealed-decode c laws sealed'),
          appended,
          IsSealed-hash c laws sealed' ∙ ap (λ e. ok e.manifest.artifact_hash) same,
        )
