-- ===== src/Registry/Commands/Deprecate.antt =====
-- `ke deprecate` (crates/ke-cli/src/commands/deprecate.rs).
use regulatory_rule_engine.Prelude.{ℕ, not, List_eq, ℕ_eq}
use regulatory_rule_engine.Ir.{Hash}
use regulatory_rule_engine.Registry.State.{LifecycleState, published, deprecated, can_transition}
use regulatory_rule_engine.Registry.Action.{Action, bail_if, ◌>>=◌, ◌>>◌}
use regulatory_rule_engine.Registry.Backend.{RegistryBackend}
use regulatory_rule_engine.Registry.Commands.{
  CommandError, wrong_state, precondition_failed, no_evidence, same_state, CommandCrates, state_now,
  append_transition,
}

module _ {S : Type 0} (b : RegistryBackend S) (c : CommandCrates) where
  unfoldable pub deprecate :
      (artifact_hash : Hash) (now_unix : ℕ) → Action S CommandError LifecycleState
  unfolding state_now append_transition same_state can_transition
  deprecate artifact_hash now_unix = do
    prior_state ← state_now b c artifact_hash
    bail_if (not (same_state prior_state published)) (wrong_state prior_state)
    bail_if (not (can_transition published deprecated no_evidence)) precondition_failed
    append_transition b c artifact_hash deprecated now_unix
    state_now b c artifact_hash
