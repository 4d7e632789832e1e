-- ===== src/Registry/Backend.antt =====
-- The storage of a registry: its objects, and the operations that every storage has
-- (crates/ke-cli/src/registry/backend.rs).
pub mod Laws
pub mod LocalFs
use regulatory_rule_engine.Prelude.{
  ℕ, ◌≡◌, ◌<◌, All, String, Option, List, [], ◌∷◌, ◌++◌, Result, ok, err,
}
use regulatory_rule_engine.Ir.{Hash}
use regulatory_rule_engine.Crypto.{Bytes}
use regulatory_rule_engine.Manifest.{Manifest, RevocationPolicy}
use regulatory_rule_engine.Revocation.{RevocationReasonClass}
use regulatory_rule_engine.Artifact.Consistency.{ConsistencyBlock}
use regulatory_rule_engine.Registry.Error.{RegistryError}
use regulatory_rule_engine.Registry.Event.{LifecycleEvent}
use regulatory_rule_engine.Registry.Action.{Action}
use regulatory_rule_engine.Registry.Hex.{hex_to_hash}

pub record RevocationRecord : Type 0 where
  pub policy : RevocationPolicy
  pub reason : Option String
  pub event_ref : String
  pub severity : String
  pub reason_class : Option RevocationReasonClass

pub record TagPointer : Type 0 where
  pub env : String
  pub tag : String
  pub target_hash_hex : String
  pub event_ref : String

unfoldable pub target_hash : TagPointer → Result Hash RegistryError
target_hash pointer = hex_to_hash pointer.target_hash_hex

-- The trait. What writes is an action on the storage; what reads is a function of it.
pub record RegistryBackend (S : Type 0) : Type 0 where
  pub put_artifact :
      (hash : Hash) (kew : Bytes) (manifest_json schema_json : String)
      → Action S RegistryError (Unit {0})
  pub append_event : (hash : Hash) (event : LifecycleEvent) → Action S RegistryError (Unit {0})
  pub read_artifact_kew : (hash : Hash) → S → Result Bytes RegistryError
  pub read_events : (hash : Hash) → S → Result (List LifecycleEvent) RegistryError
  pub put_pointer :
      (env tag : String) (target_hash : Hash) (event_ref : String)
      → Action S RegistryError (Unit {0})
  pub read_pointer : (env tag : String) → S → Result (Option TagPointer) RegistryError
  pub list_manifests : S → Result (List (Hash × Manifest)) RegistryError
  pub list_addresses : S → Result (List Hash) RegistryError
  pub put_consistency : (hash : Hash) (block : ConsistencyBlock) → Action S RegistryError (Unit {0})
  pub read_consistency : (hash : Hash) → S → Result (Option ConsistencyBlock) RegistryError
  pub put_revocation : (hash : Hash) (entry : RevocationRecord) → Action S RegistryError (Unit {0})
  pub read_revocation : (hash : Hash) → S → Result (Option RevocationRecord) RegistryError
