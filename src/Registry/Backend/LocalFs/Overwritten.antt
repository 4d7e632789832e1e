-- ===== src/Registry/Backend/LocalFs/Overwritten.antt =====
-- A tag whose path leads to the file of an event (`tag_path` and `put_pointer` of
-- crates/ke-cli/src/registry/backend.rs).
use Prim.Native.Nat.{Ordering}
use Prim.Native.String.{compare}
use regulatory_rule_engine.Prelude.{
  ◌≡◌, refl, inl, inr, none, String, [], ◌∷◌, Result-cases, ok, err, List_eq, ℕ_eq, String_eq,
  Pair_eq, beq_refl,
}
use regulatory_rule_engine.Ir.{Hash}
use regulatory_rule_engine.Crypto.{Bytes}
use regulatory_rule_engine.Registry.Error.{RegistryError, event_json_decode}
use regulatory_rule_engine.Registry.Hex.{hex32}
use regulatory_rule_engine.Registry.Backend.LocalFs.{
  Files, EventPath, event_file, Tree, LocalFsCrates, insert_named, sort_named, listing, attempt,
  put, without, put_place, tag_path,
}
use regulatory_rule_engine.Registry.Backend.LocalFs.Read.{read_files, read_events}
use regulatory_rule_engine.Registry.Backend.LocalFs.Write.{put_pointer}

module _ (c : LocalFsCrates)
    (works : (context : String) (t : Tree) → c.fails context t ≡ none) where
  attempt_works : (context : String) (t : Tree) → attempt c context t ≡ ok tt
  unfolding attempt
  attempt_works context t = rw (works context t) refl

  read_bad_first :
      (t : Tree) (f : EventPath × Bytes) (fs : Files EventPath) {x : String}
      → c.event.from_slice f.1 ≡ err x
      → (e : RegistryError) × (read_files c t (f ∷ fs) ≡ err e)
  unfolding read_files
  read_bad_first t f fs {x} bad = (event_json_decode x, rw (attempt_works "read event" t, bad) refl)

  read_bad_later :
      (t : Tree) (g : EventPath × Bytes) (fs : Files EventPath)
      → (e : RegistryError) × (read_files c t fs ≡ err e)
      → (e : RegistryError) × (read_files c t (g ∷ fs) ≡ err e)
  unfolding read_files
  read_bad_later t g fs (e, later) = elim (Result-cases (c.event.from_slice g.1)) [
    | inr (x, bad) ↦ (event_json_decode x, rw (attempt_works "read event" t, bad) refl)
    | inl (event, parsed) ↦ (e, rw (attempt_works "read event" t, parsed, later) refl)
  ]

  -- Among the sorted files too, one that does not parse makes reading fail.
  read_bad_named :
      (t : Tree) (f : EventPath × Bytes) (fs : Files EventPath) {x : String}
      → c.event.from_slice f.1 ≡ err x
      → (e : RegistryError) × (read_files c t (insert_named f fs) ≡ err e)
  unfolding insert_named
  read_bad_named t f [] bad = read_bad_first t f [] bad
  read_bad_named t f (g ∷ gs) bad =
      elim (compare f.0.1 g.0.1)
        as (λ order.
          (e : RegistryError) × (read_files c t
              (elim order [ Ordering.gt ↦ g ∷ insert_named f gs | _ ↦ f ∷ g ∷ gs ])
            ≡ err e)) [
              | Ordering.gt ↦ read_bad_later t g (insert_named f gs) (read_bad_named t f gs bad)
              | _ ↦ read_bad_first t f (g ∷ gs) bad
            ]

  read_overwritten :
      (t : Tree) (path : EventPath) {json : Bytes} {x : String}
      → c.event.from_slice json ≡ err x
      → (e : RegistryError) × (read_events c path.0
            (record t { event_files = put path json t.event_files })
          ≡ err e)
  unfolding read_events put listing sort_named
  read_overwritten t path {json} bad =
      let u = record t { event_files = put path json t.event_files } in
      let rest = sort_named (listing path.0 (without path t.event_files)) in
      let (e, unread) = read_bad_named u (path, json) rest bad in
      (
        e,
        rw
            (
              attempt_works "read events dir" u,
              attempt_works "read event entry" u,
              beq_refl path.0,
              unread,
            )
            refl,
      )

  -- On a file store where no call on the file system fails: if the path of an environment and a tag
  -- leads to the file of an event, which may be one of any artifact, `put_pointer` succeeds with a
  -- pointer that can be printed; and if what it printed does not parse as an event, the log in whose
  -- directory that file is can no longer be read.
  pub put_pointer-overwrites :
      (env tag : String) (h : Hash) (event_ref : String) (t : Tree) (path : EventPath)
      {json : Bytes} {x : String}
      → c.place_of (tag_path c env tag) ≡ event_file path
      → c.pointer.to_string_pretty
          (record { env = env; tag = tag; target_hash_hex = hex32 h; event_ref = event_ref })
        ≡ ok json
      → c.event.from_slice json ≡ err x
      → let after = put_pointer c env tag h event_ref t in
        (after.0 ≡ ok tt) × ((e : RegistryError) × (read_events c path.0 after.1 ≡ err e))
  unfolding put_pointer put_place
  put_pointer-overwrites env tag h event_ref t path leads printed bad =
      let (e, unread) = read_overwritten t path bad in
      let made = attempt_works "create tags dir" t in
      let wrote = attempt_works "write tag pointer" t in
      (rw (made, printed, wrote) refl, (e, rw (made, printed, wrote, leads) unread))
