-- ===== src/Tests/Envelope.antt =====
-- A wire codec for the envelopes with at most one rule, and the crates of an artifact.
use regulatory_rule_engine.Prelude.{
  ℕ, ◌%◌, nat_eq, nat_eq_iff, ◌≡◌, refl, sym, ap, Bool-cases, inl, inr, true, Option, none, some,
  String, List, [], ◌∷◌, ◌++◌, length, take, take-append, drop, drop-append, replicate,
  length-replicate, Result, ok, err, ◌>>=◌, ok-injective, if◌then◌else◌, ◌==◌, String_eq, List_eq,
  ℕ_eq,
}
use mathlib.Core.Path.{subst}
use regulatory_rule_engine.Ir.{Hash, RuleIr}
use regulatory_rule_engine.Crypto.{Bytes, CodecError}
use regulatory_rule_engine.Manifest.{Manifest, ArtifactKind}
use regulatory_rule_engine.Canonical.Roundtrip.{PostcardLaws}
use regulatory_rule_engine.Artifact.Consistency.{ConsistencyBlock}
use regulatory_rule_engine.Artifact.Attestation.{
  AttestationScope, whole_artifact, rule_ids, Attestation,
}
use regulatory_rule_engine.Artifact.Envelope.{
  ArtifactPayload, rules, intent_spec, SpanIndexEntry, SourceSpanIndex, AuditVersions, EnvelopeView,
  CompilerSignature, RegistryStateMetadata, draft, ArtifactCrates,
}
use regulatory_rule_engine.Artifact.Envelope.Sealed.{ArtifactCratesLaws}
use regulatory_rule_engine.Tests.Codec.{
  Codec, number, numbers, option, nothing, no_elements, pair, renamed, via, coded, one_of,
}
use regulatory_rule_engine.Tests.Rules.{words, rule_codec}
use regulatory_rule_engine.Tests.Policies.{
  type_codec, date_codec, version_codec, manifest_codec, postcard, kind_code, kinds, kinds-code,
  crates,
}
use regulatory_rule_engine.Tests.Crates.{signer_role, token}

-- Thirty-two bytes, as they are.
abbrev write_raw : Hash → Result Bytes CodecError
write_raw h = if nat_eq (length h) 32 then ok h else err "not 32 bytes"

abbrev read_raw : Bytes → Result (Hash × Bytes) CodecError
read_raw bytes = ok (take 32 bytes, drop 32 bytes)

pub read_raw-write_raw :
    (h : Hash) {p : Bytes} (rest : Bytes) → write_raw h ≡ ok p → read_raw (p ++ rest) ≡ ok (h, rest)
read_raw-write_raw h {p} rest w = elim (Bool-cases (nat_eq (length h) 32)) [
  | inr other ↦ cc (rw other at w)
  | inl long ↦
      let n : length h ≡ 32 = (nat_eq_iff (length h) 32).0 long in
      let same : h ≡ p = ok-injective (rw long at w) in
      subst (λ b. read_raw (b ++ rest) ≡ ok (h, rest)) same
        (subst
          (λ k.
            ◌≡◌ {A = Result (Hash × Bytes) CodecError} (ok (take k (h ++ rest), drop k (h ++ rest)))
              (ok (h, rest)))
          n (rw (take-append h rest, drop-append h rest) refl))
]

abbrev raw : Codec Hash
raw = record { write = write_raw; read = read_raw; read-write = read_raw-write_raw }

-- Lists of at most one element.
abbrev at_most_one : {A : Type 0} → List A → Result (Option A) CodecError
at_most_one [] = ok none
at_most_one (x ∷ []) = ok (some x)
at_most_one _ = err "not supported"

abbrev of_at_most_one : {A : Type 0} → Option A → List A
of_at_most_one none = []
of_at_most_one (some x) = x ∷ []

pub at_most_one-eq-ok :
    {A : Type 0} (xs : List A) (o : Option A)
    → at_most_one xs ≡ ok o
    → ◌≡◌ {A = Result (List A) CodecError} (ok (of_at_most_one o)) (ok xs)
at_most_one-eq-ok {A} [] o h =
    subst (λ x. ◌≡◌ {A = Result (List A) CodecError} (ok (of_at_most_one x)) (ok []))
      (ok-injective h) refl
at_most_one-eq-ok {A} (x ∷ []) o h =
    subst (λ y. ◌≡◌ {A = Result (List A) CodecError} (ok (of_at_most_one y)) (ok (x ∷ [])))
      (ok-injective h) refl
at_most_one-eq-ok (x ∷ y ∷ zs) o h = cc

abbrev up_to_one : {A : Type 0} → Codec A → Codec (List A)
up_to_one c = via at_most_one (λ o. ok (of_at_most_one o)) at_most_one-eq-ok (option c)

abbrev only_rules : ArtifactPayload → Result (List RuleIr) CodecError
only_rules (rules rs) = ok rs
only_rules (intent_spec spec) = err "not supported"

pub only_rules-eq-ok :
    (p : ArtifactPayload) (rs : List RuleIr)
    → only_rules p ≡ ok rs
    → ◌≡◌ {A = Result ArtifactPayload CodecError} (ok (rules rs)) (ok p)
only_rules-eq-ok (rules rs) qs h = ap (λ x. ok (rules x)) (sym (ok-injective h))
only_rules-eq-ok (intent_spec spec) qs h = cc

abbrev payload_codec : Codec ArtifactPayload
payload_codec = via only_rules (λ rs. ok (rules rs)) only_rules-eq-ok (up_to_one rule_codec)

abbrev entry_codec : Codec SpanIndexEntry
entry_codec =
    renamed (λ (e : SpanIndexEntry). (e.rule_id, e.spans))
      (λ x. record { rule_id = x.0; spans = x.1 }) (λ e. refl) (pair words no_elements)

abbrev index_codec : Codec SourceSpanIndex
index_codec =
    renamed (λ (i : SourceSpanIndex). i.entries) (λ x. record { entries = x }) (λ i. refl)
      (up_to_one entry_codec)

abbrev audit_codec : Codec AuditVersions
audit_codec =
    renamed (λ (a : AuditVersions). (a.jurisdiction_resolver_version, a.scenario_corpus_version))
      (λ x. record { jurisdiction_resolver_version = x.0; scenario_corpus_version = x.1 })
      (λ a. refl) (pair nothing nothing)

abbrev without_hash : Manifest → Manifest
without_hash m = record m { artifact_hash = [] }

-- The fields of an envelope behind the kind and the hash.
abbrev Body : Type 0
Body = Manifest × (ArtifactPayload × (SourceSpanIndex × (AuditVersions × Option ConsistencyBlock)))

abbrev body_of : EnvelopeView → Body
body_of e = (
  without_hash e.manifest,
  (e.payload, (e.source_span_index, (e.audit_versions, e.consistency_block))),
)

abbrev body_codec : Codec Body
body_codec = pair manifest_codec (pair payload_codec (pair index_codec (pair audit_codec nothing)))

abbrev kind_codec : Codec ArtifactKind
kind_codec = coded kind_code kinds kinds-code

abbrev envelope_codec : Codec EnvelopeView
envelope_codec =
    renamed
      (λ (e : EnvelopeView). (e.manifest.artifact_kind, (e.manifest.artifact_hash, body_of e)))
      (λ x. record {
        manifest = record x.1.1.0 { artifact_hash = x.1.0 };
        payload = x.1.1.1.0;
        source_span_index = x.1.1.1.1.0;
        audit_versions = x.1.1.1.1.1.0;
        consistency_block = x.1.1.1.1.1.1;
      })
      (λ e. refl) (pair kind_codec (pair raw body_codec))

abbrev signature_codec : Codec CompilerSignature
signature_codec =
    renamed (λ (s : CompilerSignature). (s.key_id, s.signature))
      (λ x. record { key_id = x.0; signature = x.1 }) (λ s. refl) (pair words numbers)

abbrev whole_only : AttestationScope → Result ℕ CodecError
whole_only whole_artifact = ok 0
whole_only (rule_ids ids) = err "not supported"

pub whole_only-eq-ok :
    (s : AttestationScope) (n : ℕ)
    → whole_only s ≡ ok n
    → ◌≡◌ {A = Result AttestationScope CodecError} (ok whole_artifact) (ok s)
whole_only-eq-ok whole_artifact n h = refl
whole_only-eq-ok (rule_ids ids) n h = cc

abbrev scope_codec : Codec AttestationScope
scope_codec = via whole_only (λ n. ok whole_artifact) whole_only-eq-ok number

abbrev people : Codec String
people = one_of (
    "expert" ∷ "expert-1" ∷ "mica" ∷ "1.0" ∷ "Test Expert" ∷ "test-expert-fixed-seed-1" ∷ "rule"
    ∷ "ap-1" ∷ [])

abbrev attestation_codec : Codec Attestation
attestation_codec =
    renamed
      (λ (a : Attestation). (
        (
          (a.artifact_hash, (a.scope, (a.attestation_type, a.signer_identity))),
          (a.key_id, (a.signer_role, (a.regime_id, a.effective_from))),
        ),
        (
          (a.effective_to, (a.legal_source_hash, (a.ir_schema_version, a.compiler_version))),
          (
            (a.attestation_policy_version, (a.test_corpus_hash, a.timestamp)),
            (a.expiration, (a.reviewer_comments, a.signature)),
          ),
        ),
      ))
      (λ x. record {
        artifact_hash = x.0.0.0;
        scope = x.0.0.1.0;
        attestation_type = x.0.0.1.1.0;
        signer_identity = x.0.0.1.1.1;
        key_id = x.0.1.0;
        signer_role = x.0.1.1.0;
        regime_id = x.0.1.1.1.0;
        effective_from = x.0.1.1.1.1;
        effective_to = x.1.0.0;
        legal_source_hash = x.1.0.1.0;
        ir_schema_version = x.1.0.1.1.0;
        compiler_version = x.1.0.1.1.1;
        attestation_policy_version = x.1.1.0.0;
        test_corpus_hash = x.1.1.0.1.0;
        timestamp = x.1.1.0.1.1;
        expiration = x.1.1.1.0;
        reviewer_comments = x.1.1.1.1.0;
        signature = x.1.1.1.1.1;
      })
      (λ a. refl)
      (pair
        (pair (pair numbers (pair scope_codec (pair type_codec people)))
          (pair people (pair signer_role (pair people date_codec))))
        (pair (pair (option date_codec) (pair numbers (pair version_codec version_codec))) (
          pair (pair people (pair (option numbers) token))
            (pair (option date_codec) (pair nothing numbers)))))

abbrev attestations_codec : Codec (List Attestation)
attestations_codec = up_to_one attestation_codec

pub only_metadata : (m : RegistryStateMetadata) → draft ≡ m
only_metadata draft = refl

abbrev metadata_codec : Codec RegistryStateMetadata
metadata_codec = renamed (λ m. 0) (λ n. draft) only_metadata number

abbrev pub artifact_crates : ArtifactCrates
artifact_crates = record {
  encoding = crates;
  kind = postcard kind_codec;
  prefix = postcard envelope_codec;
  compiler_signature = postcard signature_codec;
  attestations = postcard attestations_codec;
  registry_state_metadata = postcard metadata_codec;
  artifact_to_stdvec = λ a. envelope_codec.write a.envelope >>= λ p.
      signature_codec.write a.compiler_signature >>= λ s.
      attestations_codec.write a.attestations >>= λ t.
      metadata_codec.write a.registry_state_metadata >>= λ m. ok (p ++ (s ++ (t ++ m)));
  is_unexpected_end = λ e. e == "end of input";
  blake3 = λ b. replicate 32 (length b % 256);
  ed25519 = record { from_bytes = λ k. some (λ m s. s == m) };
}

codec_laws : {A : Type 0} (c : Codec A) → PostcardLaws (postcard c)
codec_laws c = record { take-to = λ a bytes rest h. c.read-write a rest h }

after_hash :
    (k : ℕ) (h : Hash) (r : Result Bytes CodecError)
    → length h ≡ 32
    → (write_raw h >>= (λ q. r >>= λ b. ok (q ++ b)) >>= λ s. ok ((k ∷ []) ++ s))
      ≡ (r >>= λ b. ok ((k ∷ []) ++ (h ++ b)))
after_hash k h (ok b) n =
    let long : nat_eq (length h) 32 ≡ true = (nat_eq_iff (length h) 32).1 n in rw long refl
after_hash k h (err e) n =
    let long : nat_eq (length h) 32 ≡ true = (nat_eq_iff (length h) 32).1 n in rw long refl

pub artifact_crates_laws : ArtifactCratesLaws artifact_crates
artifact_crates_laws = record {
  prefix_laws = codec_laws envelope_codec;
  signature_laws = codec_laws signature_codec;
  attestations_laws = codec_laws attestations_codec;
  metadata_laws = codec_laws metadata_codec;
  kind_laws = codec_laws kind_codec;
  kind_bytes = λ k. kind_code k ∷ [];
  kind_written = λ k. refl;
  rest_of = λ e. body_codec.write (body_of e);
  rest_of-patch = λ e h. refl;
  layout = λ e n.
      after_hash (kind_code e.manifest.artifact_kind) e.manifest.artifact_hash
        (body_codec.write (body_of e)) n;
  artifact_layout = λ a. refl;
  length-blake3 = λ b. length-replicate 32 (length b % 256);
}
