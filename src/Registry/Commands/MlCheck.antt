-- ===== src/Registry/Commands/MlCheck.antt =====
-- `ke ml-check` (crates/ke-cli/src/commands/ml_check.rs).
use regulatory_rule_engine.Prelude.{
  ℕ, String, Bool, true, false, not, Option, none, some, Result, map_err, List_eq, ℕ_eq,
}
use regulatory_rule_engine.Manifest.{advisory}
use regulatory_rule_engine.Artifact.Consistency.{
  ConsistencyBlock, ConsistencyError, new_builder, with_rationale, build,
}
use regulatory_rule_engine.Ir.{Hash}
use regulatory_rule_engine.Registry.State.{
  LifecycleState, structurally_verified, ml_checked, can_transition,
}
use regulatory_rule_engine.Registry.Action.{Action, reads, lift, bail_if, raised_by, ◌>>=◌, ◌>>◌}
use regulatory_rule_engine.Registry.Backend.{RegistryBackend}
use regulatory_rule_engine.Registry.Commands.{
  CommandError, registry_error, wrong_state, precondition_failed, block_refused, no_evidence,
  same_state, CommandCrates, state_now, append_transition,
}

abbrev pub dev_standin_env : String
dev_standin_env = "local-dev-standin"

abbrev pub standin_rationale : String
standin_rationale =
    "DEV STAND-IN: non-authoritative local ml-check; real T2/T3 is platform-owned (ADR 0011)"

unfoldable pub standin_block : String → Result ConsistencyBlock ConsistencyError
unfolding new_builder with_rationale build
standin_block timestamp = build (
    with_rationale standin_rationale
      (new_builder "dev_standin_pass" advisory "dev-standin" "0.0.0" timestamp dev_standin_env))

abbrev pub is_some : Option ConsistencyBlock → Bool
is_some none = false
is_some (some block) = true

module _ {S : Type 0} (b : RegistryBackend S) (c : CommandCrates) where
  unfoldable pub ml_check :
      (artifact_hash : Hash) (now_unix : ℕ) → Action S CommandError LifecycleState
  unfolding state_now append_transition same_state can_transition standin_block
  ml_check artifact_hash now_unix = do
    prior_state ← state_now b c artifact_hash
    bail_if (not (same_state prior_state structurally_verified)) (wrong_state prior_state)
    block ← lift (map_err block_refused (standin_block (c.digits_of now_unix)))
    raised_by registry_error (b.put_consistency artifact_hash block)
    present ← reads λ s. map_err registry_error (b.read_consistency artifact_hash s)
    bail_if
        (not (
          can_transition structurally_verified ml_checked
            (record no_evidence { consistency_block_present = is_some present })))
        precondition_failed
    append_transition b c artifact_hash ml_checked now_unix
    state_now b c artifact_hash
