-- ===== src/Registry/Backend/Laws.antt =====
-- What a storage promises about the event logs in it.
use regulatory_rule_engine.Prelude.{◌≡◌, ◌≢◌, ◌<◌, All, String, List, [], ◌∷◌, ◌++◌, ok, err}
use regulatory_rule_engine.Ir.{Hash}
use regulatory_rule_engine.Crypto.{Bytes}
use regulatory_rule_engine.Artifact.Consistency.{ConsistencyBlock}
use regulatory_rule_engine.Registry.Error.{RegistryError}
use regulatory_rule_engine.Registry.Event.{LifecycleEvent}
use regulatory_rule_engine.Registry.Backend.{RegistryBackend, RevocationRecord}

-- The log of each artifact is what a successful read gives. Appending an event with a number above
-- all of a log puts it at the end of that log and leaves the other logs alone; when it fails, and in
-- all other writes, every log stays as it was. For a pointer, this is promised only where the storage
-- keeps the environment and the tag apart from the logs (`IsApart`).
pub record BackendLaws {S : Type 0} (b : RegistryBackend S)
    (log_of : S → Hash → List LifecycleEvent) (IsApart : (env tag : String) → Type 0) : Type 0 where
  pub read_events-log_of :
      (h : Hash) (s : S) (es : List LifecycleEvent) → b.read_events h s ≡ ok es → log_of s h ≡ es
  pub append_event-log_of :
      (h : Hash) (e : LifecycleEvent) (s : S)
      → (b.append_event h e s).0 ≡ ok tt
      → All (λ (x : LifecycleEvent). x.seq < e.seq) (log_of s h)
      → log_of (b.append_event h e s).1 h ≡ log_of s h ++ e ∷ []
  pub append_event_elsewhere :
      (h g : Hash) (e : LifecycleEvent) (s : S)
      → g ≢ h
      → log_of (b.append_event h e s).1 g ≡ log_of s g
  pub append_event_failed :
      (h : Hash) (e : LifecycleEvent) (s : S) {x : RegistryError}
      → (b.append_event h e s).0 ≡ err x
      → log_of (b.append_event h e s).1 ≡ log_of s
  pub put_artifact-log_of :
      (h : Hash) (kew : Bytes) (manifest_json schema_json : String) (s : S)
      → log_of (b.put_artifact h kew manifest_json schema_json s).1 ≡ log_of s
  pub put_pointer-log_of :
      (env tag : String) (h : Hash) (event_ref : String) (s : S)
      → IsApart env tag
      → log_of (b.put_pointer env tag h event_ref s).1 ≡ log_of s
  pub put_consistency-log_of :
      (h : Hash) (block : ConsistencyBlock) (s : S)
      → log_of (b.put_consistency h block s).1 ≡ log_of s
  pub put_revocation-log_of :
      (h : Hash) (entry : RevocationRecord) (s : S)
      → log_of (b.put_revocation h entry s).1 ≡ log_of s
