-- ===== src/Registry/State.antt =====
-- Lifecycle states and the authority gate (crates/ke-cli/src/registry/mod.rs).
pub mod Reach
use regulatory_rule_engine.Prelude.{String, Bool, true, false, ◌&&◌}

pub data LifecycleState : Type 0 where
  draft structurally_verified ml_checked expert_attested published deprecated revoked :
      LifecycleState

unfoldable pub event_kind : LifecycleState → String
event_kind draft = "draft"
event_kind structurally_verified = "structurally_verified"
event_kind ml_checked = "ml_checked"
event_kind expert_attested = "expert_attested"
event_kind published = "published"
event_kind deprecated = "deprecated"
event_kind revoked = "revoked"

unfoldable pub is_rollback_eligible : LifecycleState → Bool
is_rollback_eligible published = true
is_rollback_eligible _ = false

pub record Preconditions : Type 0 where
  pub structural_clean : Bool
  pub compiler_signature_valid : Bool
  pub consistency_block_present : Bool
  pub attestation_set_valid : Bool
  pub prior_is_expert_attested : Bool

unfoldable pub can_transition : LifecycleState → LifecycleState → Preconditions → Bool
can_transition draft structurally_verified pre =
    pre.structural_clean && pre.compiler_signature_valid
can_transition structurally_verified ml_checked pre = pre.consistency_block_present
can_transition ml_checked expert_attested pre = pre.attestation_set_valid
can_transition expert_attested published pre = pre.prior_is_expert_attested
can_transition published deprecated pre = true
can_transition published revoked pre = true
can_transition deprecated revoked pre = true
can_transition _ _ _ = false
