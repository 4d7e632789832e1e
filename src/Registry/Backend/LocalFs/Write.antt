-- ===== src/Registry/Backend/LocalFs/Write.antt =====
-- Writing to the tree (`LocalFsBackend` of crates/ke-cli/src/registry/backend.rs).
use regulatory_rule_engine.Prelude.{String, Option, map_err, List_eq, ℕ_eq, String_eq, Pair_eq}
use regulatory_rule_engine.Ir.{Hash}
use regulatory_rule_engine.Crypto.{Bytes}
use regulatory_rule_engine.Artifact.Consistency.{ConsistencyBlock}
use regulatory_rule_engine.Registry.Error.{
  RegistryError, event_exists, sidecar_exists, event_json_encode,
}
use regulatory_rule_engine.Registry.Event.{LifecycleEvent}
use regulatory_rule_engine.Registry.Action.{Action, lift, modify, bail_if, ◌>>=◌, ◌>>◌}
use regulatory_rule_engine.Registry.Hex.{hex32}
use regulatory_rule_engine.Registry.Backend.{RevocationRecord}
use regulatory_rule_engine.Registry.Backend.LocalFs.{
  at, put, put_place, tag_path, event_file_name, exists, EventPath, Tree, LocalFsCrates, attempt,
}

module _ (c : LocalFsCrates) where
  attempted : String → Action Tree RegistryError (Unit {0})
  unfolding attempt
  attempted context t = (attempt c context t, t)

  write : String → (Tree → Tree) → Action Tree RegistryError (Unit {0})
  unfolding attempted
  write context update = do attempted context; modify update

  unfoldable pub put_artifact :
      Hash → Bytes → String → String → Action Tree RegistryError (Unit {0})
  unfolding write attempted put
  put_artifact h kew manifest_json schema_json = do
    attempted "create artifact dir"
    write "write artifact.kew" λ t. record t { kews = put h kew t.kews }
    write "write manifest.json"
        λ t. record t { manifest_views = put h (c.bytes_of manifest_json) t.manifest_views }
    write "write schema.json"
        λ t. record t { schema_views = put h (c.bytes_of schema_json) t.schema_views }

  unfoldable pub event_path : Hash → LifecycleEvent → EventPath
  unfolding event_file_name
  event_path h e = (h, event_file_name c.pad_four e.seq e.event_kind)

  -- `if path.exists() { return Err(e) }`
  refuse_existing : Option Bytes → RegistryError → Action Tree RegistryError (Unit {0})
  refuse_existing found e = bail_if (exists found) e

  unfoldable pub append_event : Hash → LifecycleEvent → Action Tree RegistryError (Unit {0})
  unfolding write attempted put at event_path refuse_existing
  append_event h e = do
    attempted "create events dir"
    (λ t. refuse_existing (at (event_path h e) t.event_files) (event_exists e.seq) t)
    json ← lift (map_err event_json_encode (c.event.to_string_pretty e))
    write "write event" λ t. record t { event_files = put (event_path h e) json t.event_files }

  unfoldable pub put_pointer :
      String → String → Hash → String → Action Tree RegistryError (Unit {0})
  unfolding write attempted put_place tag_path
  put_pointer env tag h event_ref = do
    attempted "create tags dir"
    json ← lift (
        map_err event_json_encode (
          c.pointer.to_string_pretty
            (record { env = env; tag = tag; target_hash_hex = hex32 h; event_ref = event_ref })))
    write "write tag pointer" (put_place (c.place_of (tag_path c env tag)) json)

  unfoldable pub put_consistency : Hash → ConsistencyBlock → Action Tree RegistryError (Unit {0})
  unfolding write attempted put at refuse_existing
  put_consistency h block = do
    (λ t. refuse_existing (at h t.consistency_files) (sidecar_exists "consistency") t)
    attempted "create consistency dir"
    json ← lift (map_err event_json_encode (c.consistency.to_string_pretty block))
    write "write consistency sidecar"
        λ t. record t { consistency_files = put h json t.consistency_files }

  unfoldable pub put_revocation : Hash → RevocationRecord → Action Tree RegistryError (Unit {0})
  unfolding write attempted put at refuse_existing
  put_revocation h entry = do
    (λ t. refuse_existing (at h t.revocation_files) (sidecar_exists "revocation") t)
    attempted "create revocations dir"
    json ← lift (map_err event_json_encode (c.revocation.to_string_pretty entry))
    write "write revocation sidecar"
        λ t. record t { revocation_files = put h json t.revocation_files }
