-- ===== src/Registry/Commands/Rollback.antt =====
-- `ke rollback` (crates/ke-cli/src/commands/rollback.rs).
use regulatory_rule_engine.Prelude.{ℕ, String, not, List_eq, ℕ_eq}
use Prim.Native.String.{◌++◌ as str_append}
use regulatory_rule_engine.Ir.{Hash}
use regulatory_rule_engine.Registry.State.{LifecycleState, is_rollback_eligible}
use regulatory_rule_engine.Registry.Error.{rollback_ineligible}
use regulatory_rule_engine.Registry.Action.{Action, pure, bail_if, raised_by, ◌>>=◌, ◌>>◌}
use regulatory_rule_engine.Registry.Backend.{RegistryBackend}
use regulatory_rule_engine.Registry.Commands.{
  CommandError, registry_error, CommandCrates, state_now, append_tag_moved,
}

pub record RollbackOutcome : Type 0 where
  pub target_state : LifecycleState
  pub tag_ref : String

module _ {S : Type 0} (b : RegistryBackend S) (c : CommandCrates) where
  unfoldable pub rollback :
      (env tag : String) (to_hash : Hash) (now_unix : ℕ) → Action S CommandError RollbackOutcome
  unfolding state_now append_tag_moved is_rollback_eligible
  rollback env tag to_hash now_unix = do
    state ← state_now b c to_hash
    bail_if (not (is_rollback_eligible state)) (registry_error (rollback_ineligible state))
    event ← append_tag_moved b c to_hash now_unix
    raised_by registry_error
        (b.put_pointer env tag to_hash (str_append "tag_moved@seq" (c.digits_of event.seq)))
    target_state ← state_now b c to_hash
    pure (record { target_state = target_state; tag_ref = str_append env (str_append "/" tag) })
