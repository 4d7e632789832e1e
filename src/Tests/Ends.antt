-- ===== src/Tests/Ends.antt =====
-- The commands of the theorems on publishing and attesting end in a success on their trees.
use regulatory_rule_engine.Prelude.{◌≡◌, refl, ok, [], ◌∷◌}
use regulatory_rule_engine.Registry.Commands.Publish.{publish}
use regulatory_rule_engine.Registry.Commands.Attest.{
  attest, sign_all, sign_attestation, attestation_for, signer_role_for, permissive_policy,
  expert_key_directory, local_policy_context,
}
use regulatory_rule_engine.Registry.Backend.LocalFs.Store.{local_fs}
use regulatory_rule_engine.Registry.Backend.LocalFs.Read.{
  read_events, read_files, read_artifact_kew,
}
use regulatory_rule_engine.Registry.Backend.LocalFs.Write.{append_event, event_path, put_pointer}
use regulatory_rule_engine.Registry.Backend.LocalFs.{
  at, put, without, put_place, tag_path, event_file_name, listing, sort_named, insert_named,
  sort_by_seq, insert_by_seq, attempt,
}
use regulatory_rule_engine.Registry.Log.{
  current_state, walk, check_event, check_link, require_current_state, head_event,
  build_transition_event,
}
use regulatory_rule_engine.Registry.Event.{
  verify_signature, chain_hash, canonical_bytes, payload_prefix, sign_event,
}
use regulatory_rule_engine.Registry.State.{event_kind, published, expert_attested, can_transition}
use regulatory_rule_engine.Artifact.Tsa.{stamp, mock_message, class_discriminant}
use regulatory_rule_engine.Artifact.Envelope.Decode.{
  decode_artifact, validate_payload, is_intent_spec,
}
use regulatory_rule_engine.Canonical.Decode.{
  validate_rule, validate_tags, validate_entry, validate_condition, validate_manifest,
  validate_provenance, validate_doc_ref, validate_leaf, validate_group, validate_scalar,
}
use regulatory_rule_engine.Canonical.Ordering.{check_date, check_nfc}
use regulatory_rule_engine.Canonical.Decimal.{check_decimal_canonical}
use regulatory_rule_engine.Canonical.Set.{check_set_canonical, check_from, after_prev}
use regulatory_rule_engine.Canonical.Bytewise.{bytes_cmp}
use regulatory_rule_engine.Ir.{is_structurally_valid}
use regulatory_rule_engine.Registry.Policy.{resolve_policy}
use regulatory_rule_engine.Artifact.Attestation.Set.{
  verify_attestation_set, sift, missing_types, absent_for, approval_in,
}
use regulatory_rule_engine.Manifest.{source_fidelity}
use regulatory_rule_engine.Registry.Backend.LocalFs.Write.{put_artifact}
use regulatory_rule_engine.Artifact.Attestation.{
  is_local, same_role, same_type, same_version, same_class, check_status, past_expiration,
  source_changed, check_signature, check_timestamp, check_key, check_binding, check_policy,
  verify_attestation,
}
use regulatory_rule_engine.Artifact.Attestation
use regulatory_rule_engine.Artifact.Tsa.{le_bytes, verifies_as_mock, derive_class}
use regulatory_rule_engine.Artifact.Keydir.{lookup}
use regulatory_rule_engine.Artifact.Envelope.Assemble.{with_attestations, codec}
use regulatory_rule_engine.Tests.Artifacts.{content}
use regulatory_rule_engine.Tests.Store.{fs_crates}
use regulatory_rule_engine.Tests.Commands.{command_crates, publication, expert_tree, checked_tree}

publishes :
    (publish (local_fs fs_crates) command_crates publication expert_tree).0
    ≡ ok (record { final_state = published; tag_ref = "production/current" })
unfolding publish expert_key_directory local_policy_context local_fs read_events read_files
    read_artifact_kew append_event event_path put_pointer at put without put_place tag_path
    event_file_name listing sort_named insert_named sort_by_seq insert_by_seq attempt current_state
    walk check_event check_link require_current_state head_event build_transition_event
    verify_signature chain_hash canonical_bytes payload_prefix sign_event event_kind can_transition
    stamp mock_message class_discriminant decode_artifact validate_payload is_intent_spec
    validate_rule validate_tags validate_entry validate_condition validate_manifest
    validate_provenance validate_doc_ref validate_leaf validate_group validate_scalar check_date
    check_nfc check_decimal_canonical check_set_canonical check_from after_prev bytes_cmp
    is_structurally_valid resolve_policy verify_attestation_set sift missing_types absent_for
    approval_in
publishes = refl

attests :
    (attest (local_fs fs_crates) command_crates content (source_fidelity ∷ []) 5 checked_tree).0
    ≡ ok (record { final_state = expert_attested; attestation_count = 1 })
unfolding attest sign_all sign_attestation attestation_for signer_role_for permissive_policy
    put_artifact is_local same_role same_type same_version same_class check_status past_expiration
    source_changed check_signature check_timestamp check_key check_binding check_policy
    verify_attestation le_bytes verifies_as_mock derive_class lookup with_attestations codec
    Attestation.payload_prefix expert_key_directory local_policy_context local_fs read_events
    read_files read_artifact_kew append_event event_path put_pointer at put without put_place
    tag_path event_file_name listing sort_named insert_named sort_by_seq insert_by_seq attempt
    current_state walk check_event check_link require_current_state head_event
    build_transition_event verify_signature chain_hash canonical_bytes payload_prefix sign_event
    event_kind can_transition stamp mock_message class_discriminant decode_artifact validate_payload
    is_intent_spec validate_rule validate_tags validate_entry validate_condition validate_manifest
    validate_provenance validate_doc_ref validate_leaf validate_group validate_scalar check_date
    check_nfc check_decimal_canonical check_set_canonical check_from after_prev bytes_cmp
    is_structurally_valid resolve_policy verify_attestation_set sift missing_types absent_for
    approval_in
attests = refl
