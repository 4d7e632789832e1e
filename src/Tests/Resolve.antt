-- ===== src/Tests/Resolve.antt =====
-- Resolution on a directory tree.
use regulatory_rule_engine.Prelude.{◌≡◌, refl, List_eq, ℕ_eq, none, some, [], ◌∷◌, ok, map}
use regulatory_rule_engine.Ir.{EffectiveWindow}
use regulatory_rule_engine.Crypto.{Bytes}
use regulatory_rule_engine.Artifact.Envelope.Decode.{
  decode_artifact, is_intent_spec, validate_payload,
}
use regulatory_rule_engine.Canonical.Decode.{
  validate_rule, validate_tags, validate_entry, validate_condition, validate_manifest,
  validate_provenance, validate_doc_ref, validate_leaf, validate_group, validate_scalar,
}
use regulatory_rule_engine.Canonical.Ordering.{check_date, check_nfc}
use regulatory_rule_engine.Canonical.Decimal.{check_decimal_canonical}
use regulatory_rule_engine.Canonical.Set.{check_set_canonical, check_from, after_prev}
use regulatory_rule_engine.Canonical.Bytewise.{bytes_cmp}
use regulatory_rule_engine.Ir.{is_structurally_valid}
use regulatory_rule_engine.Registry.Backend.LocalFs.Read.{
  decode_all, sort_manifests, insert_manifest,
}
use regulatory_rule_engine.Registry.State.{published}
use regulatory_rule_engine.Registry.Event.{
  chain_hash, canonical_bytes, verify_signature, payload_prefix,
}
use regulatory_rule_engine.Registry.Log.{current_state, walk, check_event, check_link}
use regulatory_rule_engine.Registry.Backend.LocalFs.{
  EventPath, Tree, insert_named, sort_named, insert_by_seq, sort_by_seq, listing, attempt,
}
use regulatory_rule_engine.Registry.Backend.LocalFs.Read.{list_manifests, read_events, read_files}
use regulatory_rule_engine.Registry.Backend.LocalFs.Store.{local_fs}
use regulatory_rule_engine.Registry.Resolve.{
  Selector, by_regime, DateTexts, describe, ResolutionRecord, window_contains, date_lt,
  some_published, state_revoked, only_match, matches, all_matches, selected,
  verify_resolved_artifact, resolve, event_key,
}
use regulatory_rule_engine.Registry.Resolve.Sound.{Resolved, resolve_sound}
use regulatory_rule_engine.Registry.Resolve.OwnHash.{verify_resolved_artifact-passes}
use regulatory_rule_engine.Registry.Resolve.Windows.{window_contains-effective_at}
use regulatory_rule_engine.Runtime.Effective.{effective_at}
use regulatory_rule_engine.Tests.Canonical.{manifest}
use regulatory_rule_engine.Tests.Crates.{crates}
use regulatory_rule_engine.Tests.Artifacts.{content, artifact, kew}
use regulatory_rule_engine.Tests.Store.{fs_crates, published_tree}

-- The artifact of the other tests, under its own address, and a log of five events there. Nothing
-- compares the address in an event with the address of the log.
abbrev pub stocked_tree : Tree
stocked_tree = record published_tree {
  kews = (content, kew) ∷ [];
  event_files = map (λ (f : EventPath × Bytes). ((content, f.0.1), f.1)) published_tree.event_files;
}

abbrev texts : DateTexts
texts = record { four_digits = λ y. "2025"; two_digits = λ n. "01" }

abbrev in_regime : Selector
in_regime = by_regime manifest.regime_id manifest.effective_from "production"

abbrev answer : ResolutionRecord
answer = record {
  artifact_hash = content;
  registry_state_at_resolution = published;
  resolving_event_key = "published";
  selector_desc = describe texts in_regime;
  attestation_policy_version = manifest.attestation_policy_version;
  resolution_timestamp_unix = 5;
  revocation = none;
}

resolves : resolve (local_fs fs_crates) crates stocked_tree texts in_regime 5 ≡ ok (content, answer)
unfolding resolve describe selected all_matches matches window_contains date_lt some_published
    only_match verify_resolved_artifact event_key state_revoked local_fs list_manifests decode_all
    sort_manifests insert_manifest read_events read_files listing sort_named insert_named
    sort_by_seq insert_by_seq attempt current_state walk check_event check_link chain_hash
    canonical_bytes verify_signature payload_prefix decode_artifact validate_payload is_intent_spec
    validate_rule validate_tags validate_entry validate_condition validate_manifest
    validate_provenance validate_doc_ref validate_leaf check_date check_nfc check_decimal_canonical
    check_set_canonical check_from after_prev bytes_cmp is_structurally_valid validate_group
    validate_scalar
resolves = refl

resolve_sound_example : Resolved (local_fs fs_crates) crates stocked_tree in_regime content answer
resolve_sound_example =
    resolve_sound (local_fs fs_crates) crates stocked_tree texts in_regime 5 content answer resolves

abbrev half_year : EffectiveWindow
half_year = record {
  effective_from = manifest.effective_from;
  effective_to = manifest.effective_to;
  jurisdiction_time_zone = none;
  effective_time_policy = none;
}

window_contains-effective_at_example :
    window_contains manifest.effective_from manifest.effective_to manifest.effective_from
    ≡ effective_at (some half_year) manifest.effective_from
window_contains-effective_at_example =
    window_contains-effective_at half_year manifest.effective_from

lists : list_manifests fs_crates stocked_tree ≡ ok ((content, artifact.manifest) ∷ [])
unfolding list_manifests decode_all sort_manifests insert_manifest attempt decode_artifact
    validate_payload is_intent_spec validate_rule validate_tags validate_entry validate_condition
    validate_manifest validate_provenance validate_doc_ref validate_leaf check_date check_nfc
    check_decimal_canonical check_set_canonical check_from after_prev bytes_cmp
    is_structurally_valid validate_group validate_scalar
lists = refl

verify_resolved_artifact-passes_example :
    verify_resolved_artifact (local_fs fs_crates) crates stocked_tree content "by-hash"
    ≡ ok artifact.manifest
verify_resolved_artifact-passes_example =
    verify_resolved_artifact-passes fs_crates crates content "by-hash" stocked_tree lists
