-- ===== src/Tests/Artifacts.antt =====
-- Artifacts at concrete inputs.
use regulatory_rule_engine.Prelude.{
  ℕ, suc, zero, ◌<◌, ◌≡◌, refl, ◌↔◌, true, false, none, some, [], ◌∷◌, All, replicate,
  length-replicate, List_eq, ℕ_eq, ok, arith,
}
use regulatory_rule_engine.Ir.{Hash, is_structurally_valid}
use regulatory_rule_engine.Crypto.{Bytes}
use regulatory_rule_engine.Manifest.{advisory}
use regulatory_rule_engine.Canonical.Bytewise.{bytes_cmp}
use regulatory_rule_engine.Canonical.Decimal.{normalize_decimal, strip_zeros}
use regulatory_rule_engine.Canonical.Set.{
  canonicalize_set, with_keys, insert_keyed, sort_keyed, has_duplicate,
}
use regulatory_rule_engine.Canonical.Ordering.{ensure_nfc, ensure_date}
use regulatory_rule_engine.Canonical.Encode.{
  canonicalize_doc_ref, canonicalize_leaf, canonicalize_provenance, canonicalize_scalar,
  canonicalize_condition, canonicalize_group, canonicalize_entry, canonicalize_tags,
  canonicalize_applies_if, canonicalize_rule, canonicalize_manifest,
}
use regulatory_rule_engine.Artifact.Consistency.{ConsistencyBlock, build, is_complete, build_iff}
use regulatory_rule_engine.Artifact.Envelope.{
  rules, AuditVersions, EnvelopeView, Artifact, draft, sort_entries, insert_entry,
  collect_rule_spans, collect_entry_spans, obligation_spans, build_span_index,
}
use regulatory_rule_engine.Artifact.Envelope.Decode.{
  decode_artifact, verify_hash, artifact_hash_offset, is_intent_spec,
}
use regulatory_rule_engine.Artifact.Envelope.Assemble.{
  codec, sign_envelope, with_hash, index_of, canonicalize_rules, canonicalize_payload,
  assemble_payload, with_attestations,
}
use regulatory_rule_engine.Artifact.Envelope.Append.{
  decode_artifact-assemble_payload, verify_hash-with_attestations,
}
use regulatory_rule_engine.Artifact.Verify.{RegistryEvidence, published, verified, verify_artifact}
use regulatory_rule_engine.Artifact.Verify.Verified.{IsTrusted, verify_artifact-verified}
use regulatory_rule_engine.Registry.Hex.{hex32, hex_to_hash, hex_to_hash-hex32}
use regulatory_rule_engine.Tests.Canonical.{authored, normal, manifest, written}
use regulatory_rule_engine.Tests.Attestation.{
  attestation_crates, attestation, directory, context, one_each,
}
use regulatory_rule_engine.Tests.Envelope.{artifact_crates, artifact_crates_laws}

abbrev no_audit : AuditVersions
no_audit = record { jurisdiction_resolver_version = none; scenario_corpus_version = none }

-- The envelope with some hash in it.
abbrev envelope_with : Hash → EnvelopeView
envelope_with hash = record {
  manifest = record manifest { artifact_hash = hash };
  payload = rules (normal ∷ []);
  source_span_index = record { entries = record { rule_id = "rule"; spans = [] } ∷ [] };
  audit_versions = no_audit;
  consistency_block = none;
}

abbrev prefix_with : Hash → Bytes
prefix_with hash = written (artifact_crates.prefix.to_stdvec (envelope_with hash))

abbrev pub content : Hash
content = artifact_crates.blake3 (prefix_with (replicate 32 0))

-- The signer of the tests repeats the first byte.
abbrev sign : Bytes → Bytes
sign [] = []
sign (x ∷ xs) = x ∷ []

abbrev pub artifact : Artifact
artifact = record {
  envelope = envelope_with content;
  compiler_signature = record { key_id = "rule"; signature = sign (prefix_with content) };
  attestations = [];
  registry_state_metadata = draft;
}

abbrev pub kew : Bytes
kew = written (artifact_crates.artifact_to_stdvec artifact)

assembled :
    assemble_payload artifact_crates manifest (rules (authored ∷ [])) no_audit sign "rule"
    ≡ ok (artifact, kew)
unfolding assemble_payload canonicalize_payload canonicalize_rules with_hash index_of sign_envelope
    codec artifact_hash_offset canonicalize_rule canonicalize_tags canonicalize_applies_if
    canonicalize_group canonicalize_entry canonicalize_doc_ref canonicalize_leaf
    canonicalize_provenance canonicalize_set with_keys sort_keyed insert_keyed has_duplicate
    bytes_cmp canonicalize_condition normalize_decimal strip_zeros ensure_nfc canonicalize_scalar
    canonicalize_manifest ensure_date is_structurally_valid build_span_index collect_rule_spans
    collect_entry_spans obligation_spans sort_entries insert_entry
assembled = refl

agrees : is_intent_spec manifest.artifact_kind ≡ false
unfolding is_intent_spec
agrees = refl

decode_artifact-assemble_payload_example :
    ((n : ℕ) × (decode_artifact artifact_crates kew ≡ ok (artifact, n)))
    × (verify_hash artifact_crates kew ≡ ok content)
decode_artifact-assemble_payload_example =
    decode_artifact-assemble_payload artifact_crates artifact_crates_laws manifest
      (rules (authored ∷ [])) no_audit sign "rule" agrees assembled

abbrev attested : Artifact
attested = record artifact { attestations = attestation ∷ [] }

abbrev attested_kew : Bytes
attested_kew = written (artifact_crates.artifact_to_stdvec attested)

appended :
    with_attestations artifact_crates (attestation ∷ []) artifact ≡ ok (attested, attested_kew)
unfolding with_attestations codec
appended = refl

verify_hash-with_attestations_example :
    ((n : ℕ) × (decode_artifact artifact_crates attested_kew ≡ ok (attested, n)))
    × ((attestation ∷ []) ≡ (attestation ∷ []))
    × (verify_hash artifact_crates attested_kew ≡ ok content)
verify_hash-with_attestations_example =
    verify_hash-with_attestations artifact_crates artifact_crates_laws manifest
      (rules (authored ∷ [])) no_audit sign "rule" (attestation ∷ []) agrees assembled appended

abbrev registry : RegistryEvidence
registry = record { status = published; event_head_hash = 1 ∷ []; live_event_head = some (1 ∷ []) }

verify_artifact-verified_example :
    ((verify_artifact artifact_crates attestation_crates attested_kew directory context one_each
        registry 1700000000).verdict
      ≡ verified)
    ↔ IsTrusted artifact_crates attestation_crates attested_kew directory context one_each registry
verify_artifact-verified_example =
    verify_artifact-verified artifact_crates attestation_crates attested_kew directory context
      one_each registry 1700000000

abbrev block : ConsistencyBlock
block = record {
  tier_result = "t2_pass";
  policy_mode = advisory;
  model_name = "model-x";
  model_version = "1.0.0";
  scoring_profile_version = none;
  evidence_references = "evidence://run/1" ∷ [];
  reviewer_overrides = [];
  reviewer_rationale = none;
  timestamp = "2026-06-12T00:00:00Z";
  execution_environment = "ci";
}

build_iff_example : (build block ≡ ok block) ↔ ((block ≡ block) × (is_complete block ≡ true))
build_iff_example = build_iff block block

small : (n : ℕ) → All (λ b. b < 256) (replicate n 171)
small zero = tt
small (suc n) = (omega arith, small n)

hex_to_hash-hex32_example : hex_to_hash (hex32 (replicate 32 171)) ≡ ok (replicate 32 171)
hex_to_hash-hex32_example =
    hex_to_hash-hex32 (replicate 32 171) (length-replicate {A = ℕ} 32 171) (small 32)
