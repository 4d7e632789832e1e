-- ===== src/Registry/Commands/Compile/Again.antt =====
-- Compiling an artifact again whose log has begun, on the file store
-- (crates/ke-cli/src/commands/compile.rs, crates/ke-cli/src/registry/backend.rs).
use regulatory_rule_engine.Prelude.{
  ℕ, ◌≡◌, refl, sym, ap, ◌∙◌, String, Bool, none, some, ok, err, ok-injective, >>=-eq-ok, inl, inr,
  Result-cases, List_eq, ℕ_eq, String_eq, Pair_eq,
}
use regulatory_rule_engine.Ir.{Hash}
use regulatory_rule_engine.Crypto.{Bytes, VerifyingKey}
use regulatory_rule_engine.Artifact.Tsa.{TimestampToken, stamp}
use regulatory_rule_engine.Artifact.Envelope.{Artifact}
use regulatory_rule_engine.Registry.State.{draft, event_kind}
use regulatory_rule_engine.Registry.Error.{event_exists}
use regulatory_rule_engine.Registry.Event.{LifecycleEvent, EventCrates, payload_prefix, sign_event}
use regulatory_rule_engine.Registry.Log.{build_draft_event}
use regulatory_rule_engine.Registry.Backend.LocalFs.{
  event_file_name, Tree, LocalFsCrates, at, put, attempt,
}
use regulatory_rule_engine.Registry.Backend.LocalFs.Write.{put_artifact, append_event, event_path}
use regulatory_rule_engine.Registry.Backend.LocalFs.Store.{local_fs}
use regulatory_rule_engine.Registry.Commands.{
  CommandError, registry_error, CommandCrates, registry_root_key_id,
}
use regulatory_rule_engine.Registry.Commands.Compile.{store_and_record}

module _ (f : LocalFsCrates) where
  -- What `put_artifact` makes of a tree.
  abbrev pub with_artifact : Hash → Bytes → String → String → Tree → Tree
  with_artifact h kew manifest_json schema_json t = record t {
    kews = put h kew t.kews;
    manifest_views = put h (f.bytes_of manifest_json) t.manifest_views;
    schema_views = put h (f.bytes_of schema_json) t.schema_views;
  }

module _ (f : LocalFsCrates)
    (works : (context : String) (t : Tree) → f.fails context t ≡ none) where
  attempt_works : (context : String) (t : Tree) → attempt f context t ≡ ok tt
  unfolding attempt
  attempt_works context t = rw (works context t) refl

  put_artifact_lem :
      (h : Hash) (kew : Bytes) (manifest_json schema_json : String) (t : Tree)
      → put_artifact f h kew manifest_json schema_json t
        ≡ (ok tt, with_artifact f h kew manifest_json schema_json t)
  unfolding put_artifact
  put_artifact_lem h kew manifest_json schema_json t = simp (attempt_works)

  append_event_refused :
      (h : Hash) (e : LifecycleEvent) (t : Tree) {json : Bytes}
      → at (event_path f h e) t.event_files ≡ some json
      → append_event f h e t ≡ (err (event_exists e.seq), t)
  unfolding append_event
  append_event_refused h e t begun = rw (attempt_works, begun) refl

build_draft_event-payload :
    (c : EventCrates) (h : Hash) (key_id : String) (timestamp : TimestampToken) {e : LifecycleEvent}
    → build_draft_event c h key_id timestamp ≡ ok e
    → (e.seq ≡ 0) × (e.event_kind ≡ event_kind draft)
unfolding build_draft_event sign_event
build_draft_event-payload c h key_id timestamp built =
    let signed = >>=-eq-ok (payload_prefix c _) _ built in
    let same = ok-injective signed.2 in
    (ap (λ x. x.seq) (sym same), ap (λ x. x.event_kind) (sym same))

module _ (f : LocalFsCrates) (works : (context : String) (t : Tree) → f.fails context t ≡ none)
    (c : CommandCrates) (compiler_key : VerifyingKey) where
  -- On a file store where no call on the file system fails, an artifact that has JSON views and
  -- whose log has the file of a draft event is refused, after the artifact that is stored, with its views, was
  -- replaced by the one that was compiled; nothing else has changed.
  pub store_and_record-again :
      (artifact : Artifact) (kew : Bytes) (structural_clean_flag : Bool) (now_unix : ℕ) (t : Tree)
      {manifest_json schema_json : String} {begun : Bytes}
      → c.manifest_json artifact.manifest ≡ ok manifest_json
      → c.payload_json artifact.payload ≡ ok schema_json
      → at
          (artifact.manifest.artifact_hash, event_file_name f.pad_four 0 (event_kind draft))
          t.event_files
        ≡ some begun
      → (e : CommandError) × (store_and_record
            (local_fs f)
            c
            compiler_key
            artifact
            kew
            structural_clean_flag
            now_unix
            t
          ≡ (
            err e,
            with_artifact f artifact.manifest.artifact_hash kew manifest_json schema_json t,
          ))
  unfolding store_and_record local_fs event_path
  store_and_record-again artifact kew flag now_unix t {manifest_json} {schema_json} {begun} views
        payload found =
      let h = artifact.manifest.artifact_hash in
      let u = with_artifact f h kew manifest_json schema_json t in
      let stored = put_artifact_lem f works h kew manifest_json schema_json t in
      elim (Result-cases
        (build_draft_event c.events h registry_root_key_id (stamp c.mock_tsa_sign h now_unix))) [
          | inr (e, failed) ↦ (registry_error e, rw (views, payload, stored, failed) refl)
          | inl (first, built) ↦
              let same =
                build_draft_event-payload c.events h registry_root_key_id
                  (stamp c.mock_tsa_sign h now_unix) built in
              let refused = append_event_refused f works h first u {json = begun} (
                ap (λ k. at k t.event_files)
                  (ap (λ n. (h, event_file_name f.pad_four n first.event_kind)) same.0
                    ∙ ap (λ k. (h, event_file_name f.pad_four 0 k)) same.1)
                ∙ found) in
              (
                registry_error (event_exists first.seq),
                rw (views, payload, stored, built, refused) refl,
              )
        ]
