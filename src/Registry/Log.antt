-- ===== src/Registry/Log.antt =====
-- The event log of one artifact: walking it, and building the events that extend it
-- (crates/ke-cli/src/registry/mod.rs).
pub mod Valid
pub mod Extend
pub mod Tamper
pub mod Numbers
use regulatory_rule_engine.Prelude.{
  ℕ, zero, suc, ◌+◌, ◌%◌, ◌^◌, String, Option, none, some, Bool, List, [], ◌∷◌, replicate, ok_or,
  nat_eq, ◌==◌, last, Result, ok, err, ◌>>=◌, ◌>>◌, if◌then◌else◌, List_eq, ℕ_eq,
}
use regulatory_rule_engine.Ir.{Hash}
use regulatory_rule_engine.Crypto.{Bytes}
use regulatory_rule_engine.Artifact.Keydir.{SignerRole, registry}
use regulatory_rule_engine.Artifact.Tsa.{TimestampToken}
use regulatory_rule_engine.Registry.State.{LifecycleState, draft, event_kind}
use regulatory_rule_engine.Registry.Error.{
  RegistryError, seq_gap, chain_broken, chain_genesis_invalid, no_state,
}
use regulatory_rule_engine.Registry.Event.{
  EventPayloadView, LifecycleEvent, EventCrates, chain_hash, verify_signature, sign_event,
}

-- A cast to `u32`.
abbrev pub u32 : ℕ → ℕ
u32 n = n % 2 ^ 32

-- The `match` on the index, the event's link, and the hash of the event before it.
unfoldable pub check_link : ℕ → Option Hash → Option Hash → ℕ → Result (Unit {0}) RegistryError
check_link zero none prior seq = ok tt
check_link zero (some link) prior seq = err (chain_genesis_invalid seq)
check_link (suc i) none prior seq = err (chain_genesis_invalid seq)
check_link (suc i) (some link) none seq = err (chain_broken seq)
check_link (suc i) (some link) (some prior) seq =
    if link == prior then ok tt else err (chain_broken seq)

module _ (c : EventCrates) where
  -- One round of the loop: the checks on the event at index `i`, and the hash that the next one
  -- has to name.
  unfoldable pub check_event : ℕ → Option Hash → LifecycleEvent → Result Hash RegistryError
  unfolding check_link
  check_event i prior e =
      if nat_eq e.seq (u32 i)
      then (do check_link i e.prev_event_hash prior e.seq; verify_signature c e; chain_hash c e)
      else err (seq_gap (u32 i) e.seq)

  -- The loop, from an index on.
  unfoldable pub walk : ℕ → Option Hash → List LifecycleEvent → Result (Unit {0}) RegistryError
  walk i prior [] = ok tt
  walk i prior (e ∷ es) = check_event i prior e >>= λ h. walk (suc i) (some h) es

  abbrev pub state_of : Option LifecycleEvent → Option LifecycleState
  state_of none = none
  state_of (some e) = some e.new_state

  unfoldable pub current_state : List LifecycleEvent → Result (Option LifecycleState) RegistryError
  current_state es = do walk 0 none es; ok (state_of (last es))

-- `[0u8; 64]`, which signing overwrites.
abbrev pub no_signature : Bytes
no_signature = replicate 64 0

module _ (c : EventCrates) where
  unfoldable pub build_draft_event :
      Hash → String → TimestampToken → Result LifecycleEvent RegistryError
  build_draft_event artifact_hash authority_key_id timestamp = sign_event c (record {
    payload = record {
      artifact_hash = artifact_hash;
      seq = 0;
      prior_state = none;
      new_state = draft;
      event_kind = event_kind draft;
      authority_key_id = authority_key_id;
      authority_role = registry;
      timestamp = timestamp;
      prev_event_hash = none;
    };
    signature = no_signature;
  })

  unfoldable pub build_transition_event :
      LifecycleEvent
      → LifecycleState
      → String
      → SignerRole
      → TimestampToken
      → Result LifecycleEvent RegistryError
  build_transition_event prior new_state authority_key_id authority_role timestamp = do
    link ← chain_hash c prior
    sign_event c (record {
      payload = record {
        artifact_hash = prior.artifact_hash;
        seq = u32 (prior.seq + 1);
        prior_state = some prior.new_state;
        new_state = new_state;
        event_kind = event_kind new_state;
        authority_key_id = authority_key_id;
        authority_role = authority_role;
        timestamp = timestamp;
        prev_event_hash = some link;
      };
      signature = no_signature;
    })

  unfoldable pub build_tag_moved_event :
      LifecycleEvent → String → SignerRole → TimestampToken → Result LifecycleEvent RegistryError
  build_tag_moved_event prior authority_key_id authority_role timestamp = do
    link ← chain_hash c prior
    sign_event c (record {
      payload = record {
        artifact_hash = prior.artifact_hash;
        seq = u32 (prior.seq + 1);
        prior_state = some prior.new_state;
        new_state = prior.new_state;
        event_kind = "tag_moved";
        authority_key_id = authority_key_id;
        authority_role = authority_role;
        timestamp = timestamp;
        prev_event_hash = some link;
      };
      signature = no_signature;
    })

  -- What the backend read of the log, validated; `events` is what `read_events` returned.
  unfoldable pub head_event :
      Result (List LifecycleEvent) RegistryError → Result LifecycleEvent RegistryError
  head_event read = do events ← read; current_state c events; ok_or no_state (last events)

  unfoldable pub require_current_state :
      Result (List LifecycleEvent) RegistryError → Result LifecycleState RegistryError
  require_current_state read = do
    events ← read
    state ← current_state c events
    ok_or no_state state
