-- ===== src/Tests/Policies.antt =====
-- A wire codec for all manifests, and for the policies with two types and two counts; and the
-- concrete crates of the canonical encoding.
use regulatory_rule_engine.Prelude.{ℕ, ◌≡◌, refl, not, List, [], ◌∷◌, ok, ◌==◌, String_eq, arith}
use regulatory_rule_engine.Ir.{
  JurisdictionDate, TimeZone, EffectiveTimePolicy, midnight_local, EffectiveWindow,
}
use regulatory_rule_engine.Manifest.{
  SemVer, ArtifactKind, regime_pack, equivalence_matrix, test_corpus, policy_bundle, intent_spec,
  Manifest, T2T3Mode, strict, review_override, advisory, disabled, AttestationType, source_fidelity,
  interpretation, scenario_coverage, equivalence_claim, publication_approval, RevocationPolicy,
  hard_stop, finish_pinned, audit_only, AttestationCount, VerificationPolicy, PolicyBundle,
}
use regulatory_rule_engine.Crypto.{Postcard}
use regulatory_rule_engine.Canonical.Ordering.{CanonicalCrates}
use regulatory_rule_engine.Canonical.Roundtrip.{PostcardLaws}
use regulatory_rule_engine.Tests.Codec.{
  Codec, number, numbers, integer, option, two_elements, pair, renamed, coded, nth,
}
use regulatory_rule_engine.Tests.Rules.{words, rule_codec}

abbrev pub date_codec : Codec JurisdictionDate
date_codec =
    renamed (λ (d : JurisdictionDate). (d.year, (d.month, d.day)))
      (λ x. record { year = x.0; month = x.1.0; day = x.1.1 }) (λ d. refl)
      (pair integer (pair number number))

abbrev zone_codec : Codec TimeZone
zone_codec =
    renamed (λ (z : TimeZone). (z.name, z.tz_data_version))
      (λ x. record { name = x.0; tz_data_version = x.1 }) (λ z. refl) (pair words words)

pub only_time_policy : (p : EffectiveTimePolicy) → midnight_local ≡ p
only_time_policy midnight_local = refl

abbrev time_policy_codec : Codec EffectiveTimePolicy
time_policy_codec = renamed (λ p. 0) (λ n. midnight_local) only_time_policy number

abbrev window_codec : Codec EffectiveWindow
window_codec =
    renamed
      (λ (w : EffectiveWindow).
        (w.effective_from, (w.effective_to, (w.jurisdiction_time_zone, w.effective_time_policy))))
      (λ x. record {
        effective_from = x.0;
        effective_to = x.1.0;
        jurisdiction_time_zone = x.1.1.0;
        effective_time_policy = x.1.1.1;
      })
      (λ w. refl)
      (pair date_codec
        (pair (option date_codec) (pair (option zone_codec) (option time_policy_codec))))

abbrev modes : List T2T3Mode
modes = strict ∷ review_override ∷ advisory ∷ disabled ∷ []

abbrev mode_code : T2T3Mode → ℕ
mode_code strict = 0
mode_code review_override = 1
mode_code advisory = 2
mode_code disabled = 3

pub modes-code : (m : T2T3Mode) → nth modes (mode_code m) ≡ ok m
modes-code m = ground arith

abbrev types : List AttestationType
types =
    source_fidelity ∷ interpretation ∷ scenario_coverage ∷ equivalence_claim ∷ publication_approval
    ∷ []

abbrev type_code : AttestationType → ℕ
type_code source_fidelity = 0
type_code interpretation = 1
type_code scenario_coverage = 2
type_code equivalence_claim = 3
type_code publication_approval = 4

pub types-code : (t : AttestationType) → nth types (type_code t) ≡ ok t
types-code t = ground arith

abbrev pub type_codec : Codec AttestationType
type_codec = coded type_code types types-code

abbrev count_codec : Codec AttestationCount
count_codec =
    renamed (λ (n : AttestationCount). (n.attestation_type, n.count))
      (λ x. record { attestation_type = x.0; count = x.1 }) (λ n. refl) (pair type_codec number)

abbrev policies : List RevocationPolicy
policies = hard_stop ∷ finish_pinned ∷ audit_only ∷ []

abbrev policy_code : RevocationPolicy → ℕ
policy_code hard_stop = 0
policy_code finish_pinned = 1
policy_code audit_only = 2

pub policies-code : (p : RevocationPolicy) → nth policies (policy_code p) ≡ ok p
policies-code p = ground arith

abbrev verification_codec : Codec VerificationPolicy
verification_codec =
    renamed
      (λ (v : VerificationPolicy).
        (v.t2_t3_mode, (v.required_attestation_types, v.minimum_attestation_count_per_type)))
      (λ x. record {
        t2_t3_mode = x.0;
        required_attestation_types = x.1.0;
        minimum_attestation_count_per_type = x.1.1;
      })
      (λ v. refl)
      (pair (coded mode_code modes modes-code)
        (pair (two_elements type_codec) (two_elements count_codec)))

abbrev policy_codec : Codec PolicyBundle
policy_codec =
    renamed
      (λ (p : PolicyBundle).
        (p.environment, (p.verification_policy, (p.revocation_policy, p.effective_window))))
      (λ x. record {
        environment = x.0;
        verification_policy = x.1.0;
        revocation_policy = x.1.1.0;
        effective_window = x.1.1.1;
      })
      (λ p. refl)
      (pair words
        (pair verification_codec (pair (coded policy_code policies policies-code) window_codec)))

abbrev pub kinds : List ArtifactKind
kinds = regime_pack ∷ equivalence_matrix ∷ test_corpus ∷ policy_bundle ∷ intent_spec ∷ []

abbrev pub kind_code : ArtifactKind → ℕ
kind_code regime_pack = 0
kind_code equivalence_matrix = 1
kind_code test_corpus = 2
kind_code policy_bundle = 3
kind_code intent_spec = 4

pub kinds-code : (k : ArtifactKind) → nth kinds (kind_code k) ≡ ok k
kinds-code k = ground arith

abbrev pub version_codec : Codec SemVer
version_codec =
    renamed (λ (v : SemVer). (v.major, (v.minor, v.patch)))
      (λ x. record { major = x.0; minor = x.1.0; patch = x.1.1 }) (λ v. refl)
      (pair number (pair number number))

abbrev pub manifest_codec : Codec Manifest
manifest_codec =
    renamed
      (λ (m : Manifest). (
        m.artifact_kind,
        (
          m.artifact_hash,
          (
            m.regime_id,
            (
              m.effective_from,
              (
                m.effective_to,
                (
                  m.compiler_version,
                  (
                    m.compiler_build_hash,
                    (
                      m.ir_schema_version,
                      (
                        m.codec_version,
                        (
                          m.canonicalization_version,
                          (
                            m.corpus_root_hash,
                            (m.source_corpus_hash, m.attestation_policy_version),
                          ),
                        ),
                      ),
                    ),
                  ),
                ),
              ),
            ),
          ),
        ),
      ))
      (λ x. record {
        artifact_kind = x.0;
        artifact_hash = x.1.0;
        regime_id = x.1.1.0;
        effective_from = x.1.1.1.0;
        effective_to = x.1.1.1.1.0;
        compiler_version = x.1.1.1.1.1.0;
        compiler_build_hash = x.1.1.1.1.1.1.0;
        ir_schema_version = x.1.1.1.1.1.1.1.0;
        codec_version = x.1.1.1.1.1.1.1.1.0;
        canonicalization_version = x.1.1.1.1.1.1.1.1.1.0;
        corpus_root_hash = x.1.1.1.1.1.1.1.1.1.1.0;
        source_corpus_hash = x.1.1.1.1.1.1.1.1.1.1.1.0;
        attestation_policy_version = x.1.1.1.1.1.1.1.1.1.1.1.1;
      })
      (λ m. refl)
      (pair (coded kind_code kinds kinds-code) (
        pair numbers (
          pair words (
            pair date_codec (
              pair (option date_codec) (
                pair version_codec (
                  pair numbers (
                    pair version_codec
                      (pair words (pair words (pair numbers (pair numbers words))))))))))))

abbrev pub postcard : {A : Type 0} → Codec A → Postcard A
postcard c = record { to_stdvec = c.write; take_from_bytes = c.read }

abbrev pub crates : CanonicalCrates
crates = record {
  is_nfc = λ s. not (s == "decomposed");
  tag_to_stdvec = words.write;
  type_to_stdvec = type_codec.write;
  count_to_stdvec = count_codec.write;
  rule = postcard rule_codec;
  policy = postcard policy_codec;
  manifest = postcard manifest_codec;
}

pub rule_laws : PostcardLaws crates.rule
rule_laws = record { take-to = λ a bytes rest h. rule_codec.read-write a rest h }

pub policy_laws : PostcardLaws crates.policy
policy_laws = record { take-to = λ a bytes rest h. policy_codec.read-write a rest h }

pub manifest_laws : PostcardLaws crates.manifest
manifest_laws = record { take-to = λ a bytes rest h. manifest_codec.read-write a rest h }
