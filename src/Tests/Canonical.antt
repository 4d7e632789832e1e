-- ===== src/Tests/Canonical.antt =====
-- The canonical encoding at concrete inputs.
use mathlib.Core.List.{Permᴰ}
use regulatory_rule_engine.Prelude.{
  ℤ, pos, negsuc, ◌≡◌, refl, sym, ap, ◌∙◌, ok-injective, String, none, some, List, [], ◌∷◌, Result,
  ok, err, map_err, ◌>>=◌,
}
use regulatory_rule_engine.Crypto.{Bytes}
use regulatory_rule_engine.Ir.{
  decimal, gte, condition, group_spec, absent, present, Items, leaf, RuleIr, structurally_verified,
  is_structurally_valid, midnight_local,
}
use regulatory_rule_engine.Manifest.{
  AttestationType, regime_pack, Manifest, strict, source_fidelity, interpretation, hard_stop,
  PolicyBundle,
}
use regulatory_rule_engine.Canonical.Error.{CanonicalError}
use regulatory_rule_engine.Canonical.Bytewise.{bytes_cmp}
use regulatory_rule_engine.Canonical.Decimal.{
  normalize_decimal, fold_scale, strip_zeros, checked_mul_ten, check_decimal_canonical,
}
use regulatory_rule_engine.Canonical.Decimal.Form.{normalize_decimal-canonical}
use regulatory_rule_engine.Canonical.Decimal.Value.{
  SameValue, times_ten, normalize_decimal_value, normalize_decimal_unique,
}
use regulatory_rule_engine.Canonical.Set.{
  canonicalize_set, check_set_canonical, with_keys, insert_keyed, sort_keyed, has_duplicate,
}
use regulatory_rule_engine.Canonical.Set.Sorted.{canonicalize_set_sound}
use regulatory_rule_engine.Canonical.Ordering.{ensure_nfc, ensure_date, ensure_known_tz}
use regulatory_rule_engine.Canonical.Encode.{
  canonicalize_doc_ref, canonicalize_leaf, canonicalize_provenance, canonicalize_scalar,
  canonicalize_condition, canonicalize_group, canonicalize_entry, canonicalize_tags,
  canonicalize_applies_if, canonicalize_rule, canonicalize_window, canonicalize_time_zone,
  canonicalize_verification_policy, canonicalize_policy, canonicalize_manifest, encode_rule,
  encode_policy, encode_manifest,
}
use regulatory_rule_engine.Canonical.Decode.{
  validate_rule, decode_rule, decode_policy, decode_manifest,
}
use regulatory_rule_engine.Canonical.Roundtrip.{
  canonicalize_rule-validate, decode_rule-encode_rule, encode_rule-decode_rule,
  decode_policy-encode_policy, decode_manifest-encode_manifest,
}
use regulatory_rule_engine.Tests.Policies.{crates, rule_laws, policy_laws, manifest_laws}

-- A rule with its tags out of order and the decimal 5.0 as 50 tenths, and the same rule in normal form.
abbrev rule_of : List String → ℤ → ℤ → RuleIr
rule_of tags mantissa scale = record {
  rule_id = "rule";
  rule_version = "1.0";
  description = none;
  tags = some tags;
  applies_if = some (
      group_spec
        (present (
          Items.cons
            (condition (record {
              field = "amount";
              operator = gte;
              value = decimal mantissa scale;
              description = none;
            }))
            Items.nil))
        absent);
  decision_tree =
      leaf (record { result = "compliant"; obligations = none; notes = none; source_span = none });
  obligations = [];
  source = record {
    document_id = "doc";
    article = none;
    section = none;
    paragraphs = [];
    pages = 1 ∷ 2 ∷ [];
    url = none;
  };
  interpretation_notes = none;
  effective_window = none;
  provenance = structurally_verified;
}

abbrev pub authored : RuleIr
authored = rule_of ("stablecoin" ∷ "art" ∷ []) (pos 50) (pos 1)

abbrev pub normal : RuleIr
normal = rule_of ("art" ∷ "stablecoin" ∷ []) (pos 5) (pos 0)

abbrev pub written : {A : Type 0} → Result Bytes A → Bytes
written (ok bytes) = bytes
written (err _) = []

normalizing_gives : canonicalize_rule crates authored ≡ ok normal
unfolding canonicalize_rule canonicalize_tags canonicalize_applies_if canonicalize_group
    canonicalize_entry canonicalize_doc_ref canonicalize_leaf canonicalize_provenance
    canonicalize_set with_keys sort_keyed insert_keyed has_duplicate bytes_cmp
    canonicalize_condition normalize_decimal strip_zeros ensure_nfc canonicalize_scalar
normalizing_gives = refl

abbrev rule_bytes : Bytes
rule_bytes = written (crates.rule.to_stdvec normal)

authored_encoded : encode_rule crates authored ≡ ok rule_bytes
unfolding encode_rule
authored_encoded =
    ap (λ x. x >>= λ r. map_err CanonicalError.codec (crates.rule.to_stdvec r)) normalizing_gives

canonicalize_rule-validate_example :
    (validate_rule crates normal ≡ ok tt) × (canonicalize_rule crates normal ≡ ok normal)
canonicalize_rule-validate_example = canonicalize_rule-validate crates authored normalizing_gives

decode_rule-encode_rule_example :
    (r : RuleIr) × (canonicalize_rule crates authored ≡ ok r)
    × (decode_rule crates rule_bytes ≡ ok r)
decode_rule-encode_rule_example = decode_rule-encode_rule crates rule_laws authored authored_encoded

rule_decoded : decode_rule crates rule_bytes ≡ ok normal
rule_decoded =
    let (r, made, read) = decode_rule-encode_rule crates rule_laws authored authored_encoded in
    read ∙ ap ok (ok-injective (sym made ∙ normalizing_gives))

encode_rule-decode_rule_example :
    (canonicalize_rule crates normal ≡ ok normal)
    × (encode_rule crates normal ≡ map_err CanonicalError.codec (crates.rule.to_stdvec normal))
encode_rule-decode_rule_example = encode_rule-decode_rule crates rule_bytes rule_decoded

-- A policy with its types and its counts out of order.
abbrev policy_of : AttestationType → AttestationType → PolicyBundle
policy_of a b = record {
  environment = "production";
  verification_policy = record {
    t2_t3_mode = strict;
    required_attestation_types = a ∷ b ∷ [];
    minimum_attestation_count_per_type =
        record { attestation_type = a; count = 2 }
        ∷ record { attestation_type = b; count = 2 }
        ∷ [];
  };
  revocation_policy = hard_stop;
  effective_window = record {
    effective_from = record { year = pos 2024; month = 6; day = 30 };
    effective_to = none;
    jurisdiction_time_zone = some (record { name = "UTC"; tz_data_version = "2025a" });
    effective_time_policy = some midnight_local;
  };
}

abbrev policy_bytes : Bytes
policy_bytes = written (crates.policy.to_stdvec (policy_of source_fidelity interpretation))

policy_encoded : encode_policy crates (policy_of interpretation source_fidelity) ≡ ok policy_bytes
unfolding encode_policy canonicalize_policy canonicalize_verification_policy canonicalize_set
    with_keys sort_keyed insert_keyed has_duplicate bytes_cmp canonicalize_window
    canonicalize_time_zone ensure_nfc ensure_date ensure_known_tz is_structurally_valid
policy_encoded = refl

decode_policy-encode_policy_example :
    (p : PolicyBundle) × (canonicalize_policy crates (policy_of interpretation source_fidelity)
      ≡ ok p)
    × (decode_policy crates policy_bytes ≡ ok p)
decode_policy-encode_policy_example =
    decode_policy-encode_policy crates policy_laws (policy_of interpretation source_fidelity)
      policy_encoded

abbrev pub manifest : Manifest
manifest = record {
  artifact_kind = regime_pack;
  artifact_hash = 1 ∷ 2 ∷ [];
  regime_id = "rule";
  effective_from = record { year = pos 2024; month = 6; day = 30 };
  effective_to = some (record { year = pos 2025; month = 1; day = 1 });
  compiler_version = record { major = 0; minor = 1; patch = 0 };
  compiler_build_hash = [];
  ir_schema_version = record { major = 1; minor = 0; patch = 0 };
  codec_version = "1.0";
  canonicalization_version = "1.0";
  corpus_root_hash = [];
  source_corpus_hash = [];
  attestation_policy_version = "1.0";
}

abbrev manifest_bytes : Bytes
manifest_bytes = written (crates.manifest.to_stdvec manifest)

manifest_encoded : encode_manifest crates manifest ≡ ok manifest_bytes
unfolding encode_manifest canonicalize_manifest ensure_nfc ensure_date is_structurally_valid
manifest_encoded = refl

decode_manifest-encode_manifest_example : decode_manifest crates manifest_bytes ≡ ok manifest
decode_manifest-encode_manifest_example =
    decode_manifest-encode_manifest crates manifest_laws manifest manifest_encoded

-- 1200 and 12 hundreds, and 12.50.
twelve_hundred : normalize_decimal (pos 12) (negsuc 1) ≡ ok (pos 1200, pos 0)
unfolding normalize_decimal fold_scale checked_mul_ten strip_zeros
twelve_hundred = refl

twelve_fifty : normalize_decimal (negsuc 1249) (pos 2) ≡ ok (negsuc 124, pos 1)
unfolding normalize_decimal fold_scale strip_zeros
twelve_fifty = refl

normalize_decimal_value_example : SameValue (pos 12) (negsuc 1) (pos 1200) (pos 0)
normalize_decimal_value_example = normalize_decimal_value (pos 12) (negsuc 1) twelve_hundred

normalize_decimal-canonical_example : check_decimal_canonical (negsuc 124) (pos 1) ≡ ok tt
normalize_decimal-canonical_example = normalize_decimal-canonical (negsuc 1249) (pos 2) twelve_fifty

-- 1200.0, as 12000 tenths.
tenths : normalize_decimal (pos 12000) (pos 1) ≡ ok (pos 1200, pos 0)
unfolding normalize_decimal strip_zeros
tenths = refl

normalize_decimal_unique_example : ◌≡◌ {A = ℤ × ℤ} (pos 1200, pos 0) (pos 1200, pos 0)
normalize_decimal_unique_example =
    normalize_decimal_unique (pos 12) (negsuc 1) (pos 12000) (pos 1)
      (record { up_left = 3; up_right = 0; scales = refl; values = unfold times_ten in refl })
      twelve_hundred tenths

tags_sorted :
    canonicalize_set crates.tag_to_stdvec ("stablecoin" ∷ "art" ∷ [])
    ≡ ok ("art" ∷ "stablecoin" ∷ [])
unfolding canonicalize_set with_keys sort_keyed insert_keyed has_duplicate bytes_cmp
tags_sorted = refl

canonicalize_set_sound_example :
    Permᴰ {A = String} ("art" ∷ "stablecoin" ∷ []) ("stablecoin" ∷ "art" ∷ [])
    × (check_set_canonical crates.tag_to_stdvec ("art" ∷ "stablecoin" ∷ []) ≡ ok tt)
canonicalize_set_sound_example =
    canonicalize_set_sound crates.tag_to_stdvec ("stablecoin" ∷ "art" ∷ []) tags_sorted
