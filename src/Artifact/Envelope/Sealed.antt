-- ===== src/Artifact/Envelope/Sealed.antt =====
-- Artifacts together with their bytes: what assembling and appending establish, and what decoding
-- and hashing then give back.
use mathlib.Core.Path.{subst}
use mathlib.Core.List.{append-nil}
use regulatory_rule_engine.Prelude.{
  ◌+◌, ◌-◌, ltb, false, ◌≡◌, refl, sym, ap, [], ◌∷◌, ◌++◌, length, length-append, take, take-append,
  drop, drop-append, replicate, Result, ok, ◌>>=◌, arith, beq_refl, List_eq, ℕ_eq,
}
use regulatory_rule_engine.Ir.{Hash}
use regulatory_rule_engine.Crypto.{Bytes, CodecError}
use regulatory_rule_engine.Manifest.{ArtifactKind}
use regulatory_rule_engine.Canonical.Roundtrip.{PostcardLaws}
use regulatory_rule_engine.Canonical.Decode.{validate_manifest}
use regulatory_rule_engine.Artifact.Envelope.{EnvelopeView, Artifact, ArtifactCrates}
use regulatory_rule_engine.Artifact.Envelope.Decode.{
  overwrite, artifact_hash_offset, validate_payload, decode_artifact, content_hash, verify_hash,
}

-- The envelope with another hash in its manifest.
abbrev pub patch : Hash → EnvelopeView → EnvelopeView
patch hash e = record e { manifest = record e.manifest { artifact_hash = hash } }

-- What the crates document. Postcard reads back what it wrote. It writes the fields of a struct one
-- after the other: of an envelope first the kind, then the 32 bytes of the hash, then the rest, which
-- does not depend on the hash; and of an artifact the envelope, the signature, the attestations and
-- the metadata. It writes every kind. A BLAKE3 digest has 32 bytes.
pub record ArtifactCratesLaws (c : ArtifactCrates) : Type 0 where
  pub prefix_laws : PostcardLaws c.prefix
  pub signature_laws : PostcardLaws c.compiler_signature
  pub attestations_laws : PostcardLaws c.attestations
  pub metadata_laws : PostcardLaws c.registry_state_metadata
  pub kind_laws : PostcardLaws c.kind
  pub kind_bytes : ArtifactKind → Bytes
  pub kind_written : (k : ArtifactKind) → c.kind.to_stdvec k ≡ ok (kind_bytes k)
  pub rest_of : EnvelopeView → Result Bytes CodecError
  pub rest_of-patch : (e : EnvelopeView) (h : Hash) → rest_of (patch h e) ≡ rest_of e
  pub layout :
      (e : EnvelopeView)
      → length e.manifest.artifact_hash ≡ 32
      → c.prefix.to_stdvec e ≡ (
          rest_of e >>= λ rest.
          ok (kind_bytes e.manifest.artifact_kind ++ (e.manifest.artifact_hash ++ rest)))
  pub artifact_layout :
      (a : Artifact)
      → c.artifact_to_stdvec a ≡ (
          c.prefix.to_stdvec a.envelope >>= λ p.
          c.compiler_signature.to_stdvec a.compiler_signature >>= λ s.
          c.attestations.to_stdvec a.attestations >>= λ t.
          c.registry_state_metadata.to_stdvec a.registry_state_metadata >>= λ m.
          ok (p ++ (s ++ (t ++ m))))
  pub length-blake3 : (b : Bytes) → length (c.blake3 b) ≡ 32

pub overwrite_at :
    (a old new rest : Bytes)
    → length old ≡ length new
    → overwrite (length a) new (a ++ (old ++ rest)) ≡ a ++ (new ++ rest)
overwrite_at a old new rest h =
    let split : length a + length new ≡ length (a ++ old) = omega (arith, length-append a old) in
    let left : take (length a) (a ++ (old ++ rest)) ≡ a = take-append a (old ++ rest) in
    let right : drop (length (a ++ old)) ((a ++ old) ++ rest) ≡ rest =
      drop-append (a ++ old) rest in
    rw (left, split, sym (assoc a old rest), right) refl
  where
    assoc : (x y z : Bytes) → (x ++ y) ++ z ≡ x ++ (y ++ z)
    assoc [] y z = refl
    assoc (b ∷ bs) y z = ap (λ t. b ∷ t) (assoc bs y z)

module _ (c : ArtifactCrates) (laws : ArtifactCratesLaws c) where
  open laws use {
    prefix_laws, signature_laws, attestations_laws, metadata_laws, kind_laws, kind_bytes,
    kind_written, rest_of, layout,
  }

  -- The artifact passes the decoder's checks, its hash is the content hash of its envelope, and the
  -- bytes are what postcard writes of it.
  pub record IsSealed (a : Artifact) (kew : Bytes) : Type 0 where
    pub manifest_valid : validate_manifest c.encoding a.manifest ≡ ok tt
    pub payload_valid : validate_payload c a.manifest.artifact_kind a.payload ≡ ok tt
    pub hash_length : length a.manifest.artifact_hash ≡ 32
    pub rest : Bytes
    pub rest_written : rest_of a.envelope ≡ ok rest
    pub signature : Bytes
    pub signature_written : c.compiler_signature.to_stdvec a.compiler_signature ≡ ok signature
    pub attested : Bytes
    pub attested_written : c.attestations.to_stdvec a.attestations ≡ ok attested
    pub metadata : Bytes
    pub metadata_written :
        c.registry_state_metadata.to_stdvec a.registry_state_metadata ≡ ok metadata
    pub hashed :
        a.manifest.artifact_hash
        ≡ c.blake3 (kind_bytes a.manifest.artifact_kind ++ (replicate 32 0 ++ rest))
    pub bytes :
        kew
        ≡ (kind_bytes a.manifest.artifact_kind ++ (a.manifest.artifact_hash ++ rest))
          ++ (signature ++ (attested ++ metadata))

  -- The bytes of the envelope of a sealed artifact.
  abbrev pub envelope_of : {a : Artifact} {kew : Bytes} → IsSealed a kew → Bytes
  envelope_of {a} s = kind_bytes a.manifest.artifact_kind ++ (a.manifest.artifact_hash ++ s.rest)

  pub prefix_written :
      {a : Artifact} {kew : Bytes} (s : IsSealed a kew)
      → c.prefix.to_stdvec a.envelope ≡ ok (envelope_of s)
  prefix_written {a} s = rw (layout a.envelope s.hash_length, s.rest_written) refl

  metadata_last :
      {a : Artifact} {kew : Bytes} (s : IsSealed a kew)
      → c.registry_state_metadata.take_from_bytes s.metadata ≡ ok (a.registry_state_metadata, [])
  metadata_last {a} s =
      subst (λ b. c.registry_state_metadata.take_from_bytes b ≡ ok (a.registry_state_metadata, []))
        (append-nil s.metadata)
        (metadata_laws.take-to a.registry_state_metadata s.metadata [] s.metadata_written)

  pub IsSealed-decode :
      {a : Artifact} {kew : Bytes} (s : IsSealed a kew)
      → decode_artifact c kew ≡ ok (a, length (envelope_of s))
  unfolding decode_artifact
  IsSealed-decode {a} {kew} s =
      let tail = s.signature ++ (s.attested ++ s.metadata) in
      let n : length (envelope_of s ++ tail) - length tail ≡ length (envelope_of s) =
        omega (arith, length-append (envelope_of s) tail) in
      rw
        (
          s.bytes,
          prefix_laws.take-to a.envelope (envelope_of s) tail (prefix_written s),
          signature_laws.take-to a.compiler_signature s.signature (s.attested ++ s.metadata)
              s.signature_written,
          attestations_laws.take-to a.attestations s.attested s.metadata s.attested_written,
          metadata_last s,
          s.manifest_valid,
          s.payload_valid,
          n,
        )
        refl

  content_hash-envelope :
      {a : Artifact} {kew : Bytes} (s : IsSealed a kew)
      → content_hash c (envelope_of s) ≡ ok a.manifest.artifact_hash
  unfolding content_hash artifact_hash_offset
  content_hash-envelope {a} s =
      let k = a.manifest.artifact_kind in
      let zeros : Bytes = replicate 32 0 in
      let long : ltb (length (envelope_of s)) (length (kind_bytes k) + 32) ≡ false = ground (
        arith,
        length-append (kind_bytes k) (a.manifest.artifact_hash ++ s.rest),
        length-append a.manifest.artifact_hash s.rest,
        s.hash_length,
      ) in
      rw
        (
          kind_laws.take-to k (kind_bytes k) (a.manifest.artifact_hash ++ s.rest) (kind_written k),
          kind_written k,
          long,
          overwrite_at (kind_bytes k) a.manifest.artifact_hash zeros s.rest s.hash_length,
        )
        (ap ok (sym s.hashed))

  pub IsSealed-hash :
      {a : Artifact} {kew : Bytes} (s : IsSealed a kew)
      → verify_hash c kew ≡ ok a.manifest.artifact_hash
  unfolding verify_hash
  IsSealed-hash {a} {kew} s =
      let prefix : take (length (envelope_of s)) kew ≡ envelope_of s =
        rw s.bytes (take-append (envelope_of s) _) in
      rw (IsSealed-decode s, prefix, content_hash-envelope s, beq_refl a.manifest.artifact_hash)
        refl
