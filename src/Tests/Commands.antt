-- ===== src/Tests/Commands.antt =====
-- The commands on a directory tree.
use regulatory_rule_engine.Prelude.{
  String, ◌++◌, ◌+◌, ◌^◌, ◌≤◌, ◌≡◌, refl, ◌↔◌, ◌==◌, List_eq, ℕ_eq, Bool-cases, inl, inr, none,
  some, List, [], ◌∷◌, length, replicate, ok, arith,
}
use regulatory_rule_engine.Ir.{Hash}
use regulatory_rule_engine.Tests.Canonical.{manifest}
use regulatory_rule_engine.Manifest.{PolicyBundle, T2T3Mode, source_fidelity, hard_stop}
use regulatory_rule_engine.Revocation.{advisory}
use regulatory_rule_engine.Registry.State.{
  structurally_verified, ml_checked, expert_attested, published, revoked,
}
use regulatory_rule_engine.Registry.Event.{
  chain_hash, canonical_bytes, verify_signature, payload_prefix,
}
use regulatory_rule_engine.Registry.Log.{current_state, walk, check_event, check_link}
use regulatory_rule_engine.Registry.Action.Post.{Post}
use regulatory_rule_engine.Registry.Backend.LocalFs.{
  tag_path, Tree, insert_named, sort_named, insert_by_seq, sort_by_seq, listing,
}
use regulatory_rule_engine.Registry.Backend.LocalFs.Logs.{events_in}
use regulatory_rule_engine.Registry.Backend.LocalFs.Store.{local_fs}
use regulatory_rule_engine.Registry.Backend.LocalFs.Laws.{IsApart, local_fs-BackendLaws}
use regulatory_rule_engine.Registry.Commands.{CommandCrates}
use regulatory_rule_engine.Registry.Commands.Step.{Logs, Moved, Step, HasRoom}
use regulatory_rule_engine.Registry.Commands.Rollback.{RollbackOutcome, rollback}
use regulatory_rule_engine.Registry.Commands.Revoke.{
  recorded_policy, severity_for, RevokeArgs, RevokeOutcome, revoke,
}
use regulatory_rule_engine.Registry.Commands.Attest.{AttestOutcome, attest}
use regulatory_rule_engine.Registry.Commands.Publish.{PublishArgs, PublishOutcome, publish}
use regulatory_rule_engine.Registry.Commands.Moves.{rollback-Step}
use regulatory_rule_engine.Registry.Commands.Attested.{
  IsPublishable, IsAttested, publish-Step, attest-Step,
}
use regulatory_rule_engine.Registry.Commands.Recorded.{
  Recorded, recorded_policy_iff, Revoked, RevokeStep, revoke-Step,
}
use regulatory_rule_engine.Registry.Commands.Run.{
  Command, rollback_of, deprecate_of, run, Progress, run-Progress,
}
use regulatory_rule_engine.Tests.Crates.{crates, crates_laws}
use regulatory_rule_engine.Tests.Artifacts.{content, kew}
use regulatory_rule_engine.Artifact.Keydir.{registry}
use regulatory_rule_engine.Registry.Event.{LifecycleEvent}
use regulatory_rule_engine.Registry.State.{LifecycleState}
use regulatory_rule_engine.Tests.Registry.{signed, stamp, some_hash}
use regulatory_rule_engine.Tests.Attestation.{attestation_crates}
use regulatory_rule_engine.Tests.Envelope.{artifact_crates}
use regulatory_rule_engine.Tests.Store.{fs_crates, fs_reads, tree_of, verified_tree, published_tree}

-- A policy that requires no attestations.
abbrev open_bundle : PolicyBundle
open_bundle = record {
  environment = "production";
  verification_policy = record {
    t2_t3_mode = T2T3Mode.advisory;
    required_attestation_types = [];
    minimum_attestation_count_per_type = [];
  };
  revocation_policy = hard_stop;
  effective_window = record {
    effective_from = manifest.effective_from;
    effective_to = none;
    jurisdiction_time_zone = none;
    effective_time_policy = none;
  };
}

abbrev pub command_crates : CommandCrates
command_crates = record {
  events = crates;
  attestation = attestation_crates;
  artifact = artifact_crates;
  mock_tsa_sign = λ m. m ++ replicate 23 0;
  expert_sign = λ m. m;
  expert_public_key = replicate 32 5;
  policies = record { read = λ path. ok []; parse = λ bytes. ok open_bundle };
  manifest_json = λ m. ok "manifest";
  payload_json = λ p. ok "payload";
  digits_of = λ n. "4";
  display = λ e. "refused";
  display_rejection = λ r. "rejected";
}

abbrev logs_of : Tree → Logs
logs_of t = events_in fs_crates t.event_files

room_for_verified : HasRoom (logs_of verified_tree) some_hash
unfolding listing sort_named insert_named sort_by_seq insert_by_seq
room_for_verified = let n : length (logs_of verified_tree some_hash) ≡ 2 = refl in omega (arith, n)

room_for_published : HasRoom (logs_of published_tree) some_hash
unfolding listing sort_named insert_named sort_by_seq insert_by_seq
room_for_published =
    let n : length (logs_of published_tree some_hash) ≡ 5 = refl in omega (arith, n)

is_verified :
    current_state crates (logs_of verified_tree some_hash) ≡ ok (some structurally_verified)
unfolding listing sort_named insert_named sort_by_seq insert_by_seq current_state walk check_event
    check_link chain_hash canonical_bytes verify_signature payload_prefix
is_verified = refl

is_published : current_state crates (logs_of published_tree some_hash) ≡ ok (some published)
unfolding listing sort_named insert_named sort_by_seq insert_by_seq current_state walk check_event
    check_link chain_hash canonical_bytes verify_signature payload_prefix
is_published = refl

apart : IsApart fs_crates "production" "current"
unfolding tag_path
apart path same = cc same

rollback-Step_example :
    let before = logs_of published_tree in
    Post
      (λ (o : RollbackOutcome) t.
        Moved crates Unit some_hash published published before (logs_of t)
        × (o.target_state ≡ published))
      (λ t. Step crates Unit some_hash published published before (logs_of t))
      (rollback
        (local_fs fs_crates)
        command_crates
        "production"
        "current"
        some_hash
        5
        published_tree)
rollback-Step_example =
    rollback-Step (local_fs fs_crates) (local_fs-BackendLaws fs_crates fs_reads) command_crates
      crates_laws "production" "current" some_hash 5 published_tree room_for_published apart

abbrev revocation : RevokeArgs
revocation = record {
  artifact_hash = some_hash;
  policy = some hard_stop;
  reason_class = some advisory;
  reason = some "withdrawn";
  now_unix = 5;
}

revoke-Step_example :
    let b = local_fs fs_crates in
    let laws = local_fs-BackendLaws fs_crates fs_reads in
    let before = logs_of published_tree in
    Post
      (λ (o : RevokeOutcome) t.
        (r : Revoked b laws command_crates crates_laws revocation before (logs_of t))
        × (o.final_state ≡ revoked)
        × (o.recorded ≡ r.policy)
        × (o.severity ≡ severity_for r.policy))
      (λ t. RevokeStep b laws command_crates crates_laws revocation before (logs_of t))
      (revoke b command_crates revocation published_tree)
revoke-Step_example =
    revoke-Step (local_fs fs_crates) (local_fs-BackendLaws fs_crates fs_reads) command_crates
      crates_laws revocation published_tree room_for_published

recorded_policy_iff_example :
    (recorded_policy (some hard_stop) (some advisory) ≡ ok hard_stop)
    ↔ Recorded (some hard_stop) (some advisory) hard_stop
recorded_policy_iff_example = recorded_policy_iff (some hard_stop) (some advisory) hard_stop

-- A log that starts in a state, and the artifact of the other tests, both under its address.
abbrev begun : LifecycleState → String → LifecycleEvent
begun state kind = signed (record {
  artifact_hash = content;
  seq = 0;
  prior_state = none;
  new_state = state;
  event_kind = kind;
  authority_key_id = "root";
  authority_role = registry;
  timestamp = stamp;
  prev_event_hash = none;
})

abbrev stocked : LifecycleEvent → Tree
stocked e = record (tree_of (e ∷ [])) { kews = (content, kew) ∷ [] }

abbrev pub expert_tree : Tree
expert_tree = stocked (begun expert_attested "expert_attested")

room_for_expert : HasRoom (logs_of expert_tree) content
unfolding listing sort_named insert_named sort_by_seq insert_by_seq
room_for_expert = let n : length (logs_of expert_tree content) ≡ 1 = refl in omega (arith, n)

abbrev pub publication : PublishArgs
publication = record {
  artifact_hash = content;
  env = "production";
  tag = "current";
  policy_path = some "open.json";
  now_unix = 5;
}

publish-Step_example :
    let before = logs_of expert_tree in
    let Evidence = IsPublishable (local_fs fs_crates) command_crates publication expert_tree in
    Post
      (λ (o : PublishOutcome) t.
        Moved crates Evidence content expert_attested published before (logs_of t)
        × (o.final_state ≡ published))
      (λ t. Step crates Evidence content expert_attested published before (logs_of t))
      (publish (local_fs fs_crates) command_crates publication expert_tree)
publish-Step_example =
    publish-Step (local_fs fs_crates) (local_fs-BackendLaws fs_crates fs_reads) command_crates
      crates_laws publication expert_tree room_for_expert apart

abbrev pub checked_tree : Tree
checked_tree = stocked (begun ml_checked "ml_checked")

room_for_checked : HasRoom (logs_of checked_tree) content
unfolding listing sort_named insert_named sort_by_seq insert_by_seq
room_for_checked = let n : length (logs_of checked_tree content) ≡ 1 = refl in omega (arith, n)

attest-Step_example :
    let before = logs_of checked_tree in
    let Evidence =
      IsAttested
        (local_fs fs_crates)
        command_crates
        content
        (source_fidelity ∷ [])
        5
        checked_tree in
    Post
      (λ (o : AttestOutcome) t.
        Moved crates Evidence content ml_checked expert_attested before (logs_of t)
        × (o.final_state ≡ expert_attested))
      (λ t. Step crates Evidence content ml_checked expert_attested before (logs_of t))
      (attest (local_fs fs_crates) command_crates content (source_fidelity ∷ []) 5 checked_tree)
attest-Step_example =
    attest-Step (local_fs fs_crates) (local_fs-BackendLaws fs_crates fs_reads) command_crates
      crates_laws content (source_fidelity ∷ []) 5 checked_tree room_for_checked

abbrev two_commands : List Command
two_commands = rollback_of "production" "current" some_hash 5 ∷ deprecate_of some_hash 6 ∷ []

room_for_two : (g : Hash) → length (logs_of published_tree g) + length two_commands ≤ 2 ^ 32
unfolding listing sort_named insert_named sort_by_seq insert_by_seq
room_for_two g = elim (Bool-cases (some_hash == g)) [
  | inl here ↦ rw (here, listing) (omega arith)
  | inr elsewhere ↦ rw (elsewhere, listing) (omega arith)
]

run-Progress_example :
    Progress crates some_hash published 2
      (logs_of published_tree)
      (logs_of (run (local_fs fs_crates) command_crates two_commands published_tree))
run-Progress_example =
    run-Progress (local_fs fs_crates) (local_fs-BackendLaws fs_crates fs_reads) command_crates
      crates_laws two_commands published_tree room_for_two (apart, (tt, tt)) some_hash published
      is_published
