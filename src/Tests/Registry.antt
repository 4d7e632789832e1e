-- ===== src/Tests/Registry.antt =====
-- The lifecycle and the event log at concrete inputs.
use regulatory_rule_engine.Prelude.{
  ◌+◌, ◌≤◌, ◌≡◌, refl, length, take, replicate, ◌==◌, List_eq, ℕ_eq, if◌then◌else◌, ◌↔◌, ◌⊎◌, true,
  none, some, List, [], ◌∷◌, ◌++◌, last, Result, ok, err,
}
use regulatory_rule_engine.Ir.{Hash}
use regulatory_rule_engine.Crypto.{Bytes, CodecError, Ed25519}
use regulatory_rule_engine.Manifest.{RevocationPolicy, hard_stop}
use regulatory_rule_engine.Revocation.{
  advisory, revocation_decision, strictness_rank, revocation_floor, NoStricter,
  revocation_decision-IsJoin,
}
use regulatory_rule_engine.Artifact.Keydir.{registry}
use regulatory_rule_engine.Artifact.Tsa.{
  TimestampToken, rfc3161_external, mock, mock_message, mock_tsa_public_key, verifies_as_mock,
  derive_class,
}
use regulatory_rule_engine.Registry.State.{
  event_kind, draft, structurally_verified, ml_checked, expert_attested, published, Preconditions,
  can_transition,
}
use regulatory_rule_engine.Registry.State.Reach.{
  Request, Permitted, stage, length-Permitted, published_needs_evidence,
}
use regulatory_rule_engine.Registry.Event.{
  EventPayloadView, LifecycleEvent, payload_prefix, canonical_bytes, chain_hash, sign_event,
}
use regulatory_rule_engine.Registry.Log.{
  state_of, current_state, build_draft_event, build_transition_event, build_tag_moved_event,
}
use regulatory_rule_engine.Registry.Log.Valid.{IsLog, current_state_iff}
use regulatory_rule_engine.Registry.Log.Extend.{
  build_draft_event-current_state, build_transition_event-current_state,
  build_tag_moved_event-current_state,
}
use regulatory_rule_engine.Registry.Log.Tamper.{Collision, head_determines_log}
use regulatory_rule_engine.Tests.Crates.{payload, crates, crates_laws}

abbrev pub written : Result Bytes CodecError → Bytes
written (ok bytes) = bytes
written (err _) = []

abbrev pub some_hash : Hash
some_hash = 7 ∷ 8 ∷ 9 ∷ []

abbrev pub stamp : TimestampToken
stamp = record { class = mock; token = 1 ∷ 2 ∷ []; claimed_time_unix = 1700000000 }

-- The signature is over the bytes of the payload, and the signer of the tests repeats them.
abbrev pub signed : EventPayloadView → LifecycleEvent
signed v = record { payload = v; signature = written (payload.write v) }

abbrev pub first : LifecycleEvent
first = signed (record {
  artifact_hash = some_hash;
  seq = 0;
  prior_state = none;
  new_state = draft;
  event_kind = "draft";
  authority_key_id = "root";
  authority_role = registry;
  timestamp = stamp;
  prev_event_hash = none;
})

abbrev pub second : LifecycleEvent
second = signed (record {
  artifact_hash = some_hash;
  seq = 1;
  prior_state = some draft;
  new_state = structurally_verified;
  event_kind = "structurally_verified";
  authority_key_id = "root";
  authority_role = registry;
  timestamp = stamp;
  prev_event_hash = some (crates.blake3 (written (crates.to_stdvec first)));
})

abbrev third : LifecycleEvent
third = signed (record {
  artifact_hash = some_hash;
  seq = 2;
  prior_state = some structurally_verified;
  new_state = structurally_verified;
  event_kind = "tag_moved";
  authority_key_id = "root";
  authority_role = registry;
  timestamp = stamp;
  prev_event_hash = some (crates.blake3 (written (crates.to_stdvec second)));
})

first_built : build_draft_event crates some_hash "root" stamp ≡ ok first
unfolding build_draft_event event_kind sign_event payload_prefix
first_built = refl

second_built :
    build_transition_event crates first structurally_verified "root" registry stamp ≡ ok second
unfolding build_transition_event event_kind chain_hash canonical_bytes sign_event payload_prefix
second_built = refl

third_built : build_tag_moved_event crates second "root" registry stamp ≡ ok third
unfolding build_tag_moved_event chain_hash canonical_bytes sign_event payload_prefix
third_built = refl

build_draft_event-current_state_example : current_state crates (first ∷ []) ≡ ok (some draft)
build_draft_event-current_state_example =
    build_draft_event-current_state crates crates_laws some_hash "root" stamp first_built

build_transition_event-current_state_example :
    current_state crates (first ∷ second ∷ []) ≡ ok (some structurally_verified)
build_transition_event-current_state_example =
    build_transition_event-current_state crates crates_laws (first ∷ []) first structurally_verified
      "root" registry stamp build_draft_event-current_state_example refl second_built

build_tag_moved_event-current_state_example :
    current_state crates (first ∷ second ∷ third ∷ []) ≡ ok (some structurally_verified)
build_tag_moved_event-current_state_example =
    build_tag_moved_event-current_state crates crates_laws (first ∷ second ∷ []) second "root"
      registry stamp build_transition_event-current_state_example refl third_built

current_state_iff_example :
    let log = first ∷ second ∷ third ∷ [] in
    (current_state crates log ≡ ok (some structurally_verified))
    ↔ (IsLog crates log × (some structurally_verified ≡ state_of crates (last log)))
current_state_iff_example =
    current_state_iff crates (first ∷ second ∷ third ∷ []) (some structurally_verified)

third_hashed : chain_hash crates third ≡ ok (crates.blake3 (written (crates.to_stdvec third)))
unfolding chain_hash canonical_bytes
third_hashed = refl

head_determines_log_example :
    let log = first ∷ second ∷ third ∷ [] in (log ≡ log) ⊎ Collision crates
head_determines_log_example =
    head_determines_log crates crates_laws (first ∷ second ∷ third ∷ [])
      (first ∷ second ∷ third ∷ []) third third build_tag_moved_event-current_state_example
      build_tag_moved_event-current_state_example refl refl third_hashed third_hashed

-- All the evidence, for each of the four steps to publication.
abbrev all_evidence : Preconditions
all_evidence = record {
  structural_clean = true;
  compiler_signature_valid = true;
  consistency_block_present = true;
  attestation_set_valid = true;
  prior_is_expert_attested = true;
}

abbrev to_publication : List Request
to_publication =
    record { pre = all_evidence; target = structurally_verified }
    ∷ record { pre = all_evidence; target = ml_checked }
    ∷ record { pre = all_evidence; target = expert_attested }
    ∷ record { pre = all_evidence; target = published }
    ∷ []

to_publication-Permitted : Permitted draft to_publication published
unfolding can_transition
to_publication-Permitted = (refl, (refl, (refl, (refl, refl))))

published_needs_evidence_example :
    (a b c d : Request) × (to_publication ≡ a ∷ b ∷ c ∷ d ∷ [])
    × (a.pre.structural_clean ≡ true)
    × (a.pre.compiler_signature_valid ≡ true)
    × (b.pre.consistency_block_present ≡ true)
    × (c.pre.attestation_set_valid ≡ true)
    × (d.pre.prior_is_expert_attested ≡ true)
published_needs_evidence_example = published_needs_evidence to_publication to_publication-Permitted

length-Permitted_example : stage draft + length to_publication ≤ stage published
length-Permitted_example = length-Permitted draft published to_publication to_publication-Permitted

-- A token that claims an external authority and carries the signature of the mock one.
abbrev mock_key : Ed25519
mock_key = record {
  from_bytes = λ k. if k == mock_tsa_public_key then some (λ m s. m == take 41 s) else none;
}

abbrev claims_external : TimestampToken
claims_external = record {
  class = rfc3161_external "tsa.example";
  token = mock_message (replicate 32 7) 1700000000 ++ replicate 23 0;
  claimed_time_unix = 1700000000;
}

claims_external_class : derive_class mock_key claims_external (replicate 32 7) ≡ ok mock
unfolding derive_class verifies_as_mock mock_message
claims_external_class = refl

-- A configured `hard_stop` wins over the floor of an advisory.
revocation_decision-IsJoin_example :
    let decided = revocation_decision advisory (some hard_stop) in
    (strictness_rank (revocation_floor advisory) ≤ strictness_rank decided)
    × NoStricter (some hard_stop) decided
    × ((p : RevocationPolicy)
        → strictness_rank (revocation_floor advisory) ≤ strictness_rank p
        → NoStricter (some hard_stop) p
        → strictness_rank decided ≤ strictness_rank p)
revocation_decision-IsJoin_example = revocation_decision-IsJoin advisory (some hard_stop)
