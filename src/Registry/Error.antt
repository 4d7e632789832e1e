-- ===== src/Registry/Error.antt =====
-- The errors of the registry (crates/ke-cli/src/registry/mod.rs). The messages are left out.
use regulatory_rule_engine.Prelude.{ℕ, String, List}
use regulatory_rule_engine.Registry.State.{LifecycleState}

pub data RegistryError : Type 0 where
  seq_gap : (expected found : ℕ) → RegistryError
  chain_broken : (seq : ℕ) → RegistryError
  signature_invalid : (seq : ℕ) → RegistryError
  chain_genesis_invalid : (seq : ℕ) → RegistryError
  event_encode : String → RegistryError
  event_json_encode : String → RegistryError
  event_json_decode : String → RegistryError
  artifact_decode : String → RegistryError
  io : (context source : String) → RegistryError
  bad_hash_hex : String → RegistryError
  event_exists : (seq : ℕ) → RegistryError
  transition_rejected : (from to : LifecycleState) → RegistryError
  not_found : (selector : String) → RegistryError
  ambiguous : (selector : String) (count : ℕ) → RegistryError
  resolved_hash_mismatch : (selector : String) → RegistryError
  rollback_ineligible : LifecycleState → RegistryError
  attestation_set_rejected : List String → RegistryError
  policy_load : String → RegistryError
  sidecar_exists : (kind : String) → RegistryError
  no_state : RegistryError
