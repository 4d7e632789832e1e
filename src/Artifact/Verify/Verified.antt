-- ===== src/Artifact/Verify/Verified.antt =====
-- When the verdict on an artifact is `Verified`.
use regulatory_rule_engine.Prelude.{
  ℕ, ◌≡◌, refl, ◌↔◌, ◌⊎◌, inl, inr, true, Bool-cases, Option, none, some, take, Result-cases, ok,
  ◌==◌, List_eq, ℕ_eq, eq_of_beq, beq_refl, arith, ap,
}
use regulatory_rule_engine.Ir.{Hash}
use regulatory_rule_engine.Crypto.{Bytes, VerifyingKey}
use regulatory_rule_engine.Manifest.{VerificationPolicy}
use regulatory_rule_engine.Artifact.Keydir.{KeyDirectory}
use regulatory_rule_engine.Artifact.Attestation.{AttestationCrates, PolicyContext}
use regulatory_rule_engine.Artifact.Attestation.Set.{verify_attestation_set}
use regulatory_rule_engine.Artifact.Envelope.{Artifact, ArtifactCrates}
use regulatory_rule_engine.Artifact.Envelope.Decode.{decode_artifact, verify_hash, verify_signature}
use regulatory_rule_engine.Artifact.Verify.{
  RegistryStatus, published, RegistryEvidence, Verdict, verified, is_published, staleness,
  compiler_key, registry_verdict, attested_verdict, signed_verdict, verdict_for, verify_artifact,
}

-- The registry says that the artifact is published, and knows of no other head of its log.
pub record IsLive (registry : RegistryEvidence) : Type 0 where
  pub status_published : registry.status ≡ published
  pub fresh :
      (registry.live_event_head ≡ none) ⊎ (registry.live_event_head ≡ some registry.event_head_hash)

is_published_iff : (s : RegistryStatus) → (is_published s ≡ true) ↔ (s ≡ published)
unfolding is_published
is_published_iff s = ground arith

staleness_iff :
    (head : Hash) (live : Option Hash)
    → (staleness head live ≡ verified) ↔ ((live ≡ none) ⊎ (live ≡ some head))
unfolding staleness
staleness_iff head none = (λ h. inl refl, λ h. refl)
staleness_iff head (some live) = (
  λ h. elim (Bool-cases (live == head)) [
    | inl same ↦ inr (ap some (eq_of_beq live head same))
    | inr other ↦ cc (rw other at h)
  ],
  λ h. elim h [ inl missing ↦ cc missing | inr same ↦ ground (arith, beq_refl head, same) ],
)

module _ (c : ArtifactCrates) (attestation : AttestationCrates) where
  -- Everything that `verify_artifact` checks, with the artifact that the bytes decode to.
  pub record IsTrusted (kew : Bytes) (keydir : KeyDirectory) (ctx : PolicyContext)
      (policy : VerificationPolicy) (registry : RegistryEvidence) : Type 0 where
    pub artifact : Artifact
    pub envelope_len : ℕ
    pub decoded : decode_artifact c kew ≡ ok (artifact, envelope_len)
    pub hash : Hash
    pub hashed : verify_hash c kew ≡ ok hash
    pub key : VerifyingKey
    pub key_known : compiler_key c attestation keydir artifact ≡ some key
    pub signed : verify_signature c (take envelope_len kew) artifact.compiler_signature key ≡ ok tt
    pub attested :
        verify_attestation_set attestation artifact.manifest artifact.attestations policy keydir ctx
        ≡ ok tt
    pub live : IsLive registry

  registry_verdict_iff :
      (registry : RegistryEvidence)
      → (registry_verdict c attestation registry ≡ verified) ↔ IsLive registry
  unfolding registry_verdict
  registry_verdict_iff registry = (
    λ h. elim (Bool-cases (is_published registry.status)) [
      | inl p ↦ record {
        status_published = (is_published_iff registry.status).0 p;
        fresh = (staleness_iff registry.event_head_hash registry.live_event_head).0 (rw p at h);
      }
      | inr other ↦ cc (rw other at h)
    ],
    λ live.
        rw ((is_published_iff registry.status).1 live.status_published)
          ((staleness_iff registry.event_head_hash registry.live_event_head).1 live.fresh),
  )

  signed_verdict-verified :
      (parsed : Option VerifyingKey) (envelope : Bytes) (artifact : Artifact) (next : Verdict)
      → signed_verdict c attestation parsed envelope artifact next ≡ verified
      → (key : VerifyingKey) × (parsed ≡ some key)
        × (verify_signature c envelope artifact.compiler_signature key ≡ ok tt)
        × (next ≡ verified)
  unfolding signed_verdict
  signed_verdict-verified none envelope artifact next h = cc
  signed_verdict-verified (some key) envelope artifact next h =
      elim (Result-cases (verify_signature c envelope artifact.compiler_signature key)) [
        | inl (u, signed) ↦ (key, refl, signed, rw (signed, signed_verdict) at h)
        | inr (e, failed) ↦ cc (rw (failed, signed_verdict) at h)
      ]

  attested_verdict-verified :
      (artifact : Artifact) (keydir : KeyDirectory) (ctx : PolicyContext)
      (policy : VerificationPolicy) (registry : RegistryEvidence)
      → attested_verdict c attestation artifact keydir ctx policy registry ≡ verified
      → (verify_attestation_set attestation artifact.manifest artifact.attestations policy keydir
            ctx
          ≡ ok tt)
        × IsLive registry
  unfolding attested_verdict
  attested_verdict-verified artifact keydir ctx policy registry h =
      elim (Result-cases (
        verify_attestation_set attestation artifact.manifest artifact.attestations policy keydir
          ctx)) [
            | inl (u, attested) ↦
                (attested, (registry_verdict_iff registry).0 (rw (attested, attested_verdict) at h))
            | inr (e, failed) ↦ cc (rw (failed, attested_verdict) at h)
          ]

  verdict_for-verified :
      (artifact : Artifact) (kew : Bytes) (n : ℕ) (keydir : KeyDirectory) (ctx : PolicyContext)
      (policy : VerificationPolicy) (registry : RegistryEvidence)
      → decode_artifact c kew ≡ ok (artifact, n)
      → verdict_for c attestation artifact kew n keydir ctx policy registry ≡ verified
      → IsTrusted kew keydir ctx policy registry
  unfolding verdict_for
  verdict_for-verified artifact kew n keydir ctx policy registry decoded h =
      elim (Result-cases (verify_hash c kew)) [
        | inr (e, failed) ↦ cc (rw (failed, verdict_for) at h)
        | inl (hash, hashed) ↦
            let (key, known, signed, h₁) =
              signed_verdict-verified (compiler_key c attestation keydir artifact) (take n kew)
                artifact (attested_verdict c attestation artifact keydir ctx policy registry)
                (rw (hashed, verdict_for) at h) in
            let (attested, live) =
              attested_verdict-verified artifact keydir ctx policy registry h₁ in
            record {
              artifact = artifact;
              envelope_len = n;
              decoded = decoded;
              hash = hash;
              hashed = hashed;
              key = key;
              key_known = known;
              signed = signed;
              attested = attested;
              live = live;
            }
      ]

  -- The verdict on an artifact is `verified` exactly when its bytes decode, their content hash is the
  -- claimed one, the key directory has a key for the compiler's signature that parses and accepts the
  -- envelope, `verify_attestation_set` accepts the attestations, and the registry has the artifact as
  -- published and no other head of its log.
  pub verify_artifact-verified :
      (kew : Bytes) (keydir : KeyDirectory) (ctx : PolicyContext) (policy : VerificationPolicy)
      (registry : RegistryEvidence) (exported_at_unix : ℕ)
      → ((verify_artifact c attestation kew keydir ctx policy registry exported_at_unix).verdict
          ≡ verified)
        ↔ IsTrusted kew keydir ctx policy registry
  unfolding verify_artifact verdict_for signed_verdict attested_verdict
  verify_artifact-verified kew keydir ctx policy registry exported_at_unix = (
    λ h. elim (Result-cases (decode_artifact c kew)) [
      | inr (e, failed) ↦ cc (rw (failed, verify_artifact) at h)
      | inl ((artifact, n), decoded) ↦
          verdict_for-verified artifact kew n keydir ctx policy registry decoded
            (rw (decoded, verify_artifact) at h)
    ],
    λ t.
        rw
          (
            t.decoded, verify_artifact, t.hashed, verdict_for, t.key_known, signed_verdict,
            t.signed, t.attested, attested_verdict,
          )
          ((registry_verdict_iff registry).1 t.live),
  )
