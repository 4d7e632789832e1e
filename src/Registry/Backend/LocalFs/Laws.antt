-- ===== src/Registry/Backend/LocalFs/Laws.antt =====
-- The directory tree keeps the promises of a storage.
use regulatory_rule_engine.Prelude.{
  ◌≡◌, ◌≢◌, refl, ap, inl, inr, none, Option-cases, String, [], ◌∷◌, ◌++◌, Result, Result-cases, ok,
  err, arith, List_eq, ℕ_eq, String_eq, Pair_eq,
}
use regulatory_rule_engine.Ir.{Hash}
use regulatory_rule_engine.Crypto.{Bytes}
use regulatory_rule_engine.Artifact.Consistency.{ConsistencyBlock}
use regulatory_rule_engine.Registry.Error.{RegistryError}
use regulatory_rule_engine.Registry.Event.{LifecycleEvent}
use regulatory_rule_engine.Registry.Hex.{hex32}
use regulatory_rule_engine.Registry.Backend.{RevocationRecord, TagPointer}
use regulatory_rule_engine.Registry.Backend.Laws.{BackendLaws}
use regulatory_rule_engine.Registry.Backend.LocalFs.{
  at, put, Tree, LocalFsCrates, attempt, EventPath, Place, event_file, manifest_view, schema_view,
  consistency_file, revocation_file, other_file, put_place, tag_path,
}
use regulatory_rule_engine.Registry.Backend.LocalFs.Logs.{
  Below, events_in, read_events-parsed, events_in-put, events_in-put_elsewhere,
}
use regulatory_rule_engine.Registry.Backend.LocalFs.Store.{local_fs}
use regulatory_rule_engine.Registry.Backend.LocalFs.Write.{
  put_artifact, event_path, append_event, put_pointer, put_consistency, put_revocation,
}

module _ (c : LocalFsCrates) where
  -- How a call of `append_event` ends: with an error and the tree as it was, or with the event's file
  -- written where there was none.
  data Appended (h : Hash) (e : LifecycleEvent) (t : Tree)
      : Result (Unit {0}) RegistryError × Tree → Type 0 where
    refused : {x : RegistryError} → Appended h e t (err x, t)
    written :
        {json : Bytes}
        → at (event_path c h e) t.event_files ≡ none
        → c.event.to_string_pretty e ≡ ok json
        → Appended h e t
            (ok tt, record t { event_files = put (event_path c h e) json t.event_files })

  append_event-Appended :
      (h : Hash) (e : LifecycleEvent) (t : Tree) → Appended h e t (append_event c h e t)
  unfolding append_event
  append_event-Appended h e t = elim (Result-cases (attempt c "create events dir" t)) [
    | inr (x, failed) ↦ rw (failed, append_event) (refused)
    | inl (u, made) ↦ elim (Option-cases (at (event_path c h e) t.event_files)) [
      | inr (bytes, there) ↦ rw (made, append_event, there) (refused)
      | inl absent ↦ elim (Result-cases (c.event.to_string_pretty e)) [
        | inr (x, failed) ↦ rw (made, append_event, absent, failed) (refused)
        | inl (json, printed) ↦ elim (Result-cases (attempt c "write event" t)) [
          | inr (x, failed) ↦ rw (made, append_event, absent, printed, failed) (refused)
          | inl (v, wrote) ↦
              rw (made, append_event, absent, printed, wrote) (written absent printed)
        ]
      ]
    ]
  ]

  -- What the tree's laws rest on: `serde_json` reads back the events that it wrote.
  abbrev pub JsonReads : Type 0
  JsonReads =
      (e : LifecycleEvent) (json : Bytes)
      → c.event.to_string_pretty e ≡ ok json
      → c.event.from_slice json ≡ ok e

  appended_log :
      (h : Hash) (e : LifecycleEvent) (t : Tree) {r : Result (Unit {0}) RegistryError × Tree}
      → JsonReads
      → Appended h e t r
      → r.0 ≡ ok tt
      → Below e (events_in c t.event_files h)
      → events_in c r.1.event_files h ≡ events_in c t.event_files h ++ e ∷ []
  appended_log h e t reads refused done below = cc
  appended_log h e t reads (written {json} absent printed) done below =
      events_in-put c h e json t.event_files absent (reads e json printed) below

  appended_elsewhere :
      (h g : Hash) (e : LifecycleEvent) (t : Tree) {r : Result (Unit {0}) RegistryError × Tree}
      → Appended h e t r
      → g ≢ h
      → events_in c r.1.event_files g ≡ events_in c t.event_files g
  appended_elsewhere h g e t refused other = refl
  appended_elsewhere h g e t (written {json} absent printed) other =
      events_in-put_elsewhere c h g e json t.event_files absent other

  appended_failed :
      (h : Hash) (e : LifecycleEvent) (t : Tree) {r : Result (Unit {0}) RegistryError × Tree}
      {x : RegistryError}
      → Appended h e t r
      → r.0 ≡ err x
      → r.1 ≡ t
  appended_failed h e t refused failed = refl
  appended_failed h e t (written absent printed) failed = cc

  put_artifact_events :
      (h : Hash) (kew : Bytes) (manifest_json schema_json : String) (t : Tree)
      → (put_artifact c h kew manifest_json schema_json t).1.event_files ≡ t.event_files
  unfolding put_artifact
  put_artifact_events h kew manifest_json schema_json t = ground arith

  -- The path of a tag does not lead to the file of an event.
  abbrev pub IsApart : (env tag : String) → Type 0
  IsApart env tag = (path : EventPath) → c.place_of (tag_path c env tag) ≢ event_file path

  put_place_events :
      (p : Place) (bytes : Bytes) (t : Tree)
      → ((path : EventPath) → p ≢ event_file path)
      → (put_place p bytes t).event_files ≡ t.event_files
  unfolding put_place
  put_place_events (event_file path) bytes t apart = absurd (apart path refl)
  put_place_events (manifest_view h) bytes t apart = refl
  put_place_events (schema_view h) bytes t apart = refl
  put_place_events (consistency_file h) bytes t apart = refl
  put_place_events (revocation_file h) bytes t apart = refl
  put_place_events (other_file path) bytes t apart = refl

  put_pointer_events :
      (env tag : String) (h : Hash) (event_ref : String) (t : Tree)
      → IsApart env tag
      → (put_pointer c env tag h event_ref t).1.event_files ≡ t.event_files
  unfolding put_pointer
  put_pointer_events env tag h event_ref t apart =
      let pointer : TagPointer = record {
        env = env;
        tag = tag;
        target_hash_hex = hex32 h;
        event_ref = event_ref;
      } in
      elim (Result-cases (attempt c "create tags dir" t)) [
        | inr (x, failed) ↦ rw failed refl
        | inl (u, made) ↦ elim (Result-cases (c.pointer.to_string_pretty pointer)) [
          | inr (x, failed) ↦ rw (made, failed) refl
          | inl (json, printed) ↦ elim (Result-cases (attempt c "write tag pointer" t)) [
            | inr (x, failed) ↦ rw (made, printed, failed) refl
            | inl (v, wrote) ↦
                rw (made, printed, wrote)
                  (put_place_events (c.place_of (tag_path c env tag)) json t apart)
          ]
        ]
      ]

  put_consistency_events :
      (h : Hash) (block : ConsistencyBlock) (t : Tree)
      → (put_consistency c h block t).1.event_files ≡ t.event_files
  unfolding put_consistency
  put_consistency_events h block t = ground arith

  put_revocation_events :
      (h : Hash) (entry : RevocationRecord) (t : Tree)
      → (put_revocation c h entry t).1.event_files ≡ t.event_files
  unfolding put_revocation
  put_revocation_events h entry t = ground arith

  -- If `serde_json` reads back the events that it wrote, the directory tree keeps what the registry
  -- relies on (`BackendLaws`): a log is what its files parse to, sorted by number; `append_event` puts
  -- an event with a number above all others at the end of its log and touches no other log; and a
  -- failed append, like every other write, changes no log, where a pointer is written for an
  -- environment and a tag whose path does not lead to the file of an event.
  pub local_fs-BackendLaws :
      JsonReads → BackendLaws (local_fs c) (λ t. events_in c t.event_files) IsApart
  unfolding local_fs
  local_fs-BackendLaws reads = record {
    read_events-log_of = read_events-parsed c;
    append_event-log_of =
        λ h e t done below. appended_log h e t reads (append_event-Appended h e t) done below;
    append_event_elsewhere =
        λ h g e t other. appended_elsewhere h g e t (append_event-Appended h e t) other;
    append_event_failed = λ h e t failed.
        ap (λ (u : Tree). events_in c u.event_files)
          (appended_failed h e t (append_event-Appended h e t) failed);
    put_artifact-log_of = λ h kew m v t. ap (events_in c) (put_artifact_events h kew m v t);
    put_pointer-log_of =
        λ env tag h r t apart. ap (events_in c) (put_pointer_events env tag h r t apart);
    put_consistency-log_of = λ h block t. ap (events_in c) (put_consistency_events h block t);
    put_revocation-log_of = λ h entry t. ap (events_in c) (put_revocation_events h entry t);
  }
