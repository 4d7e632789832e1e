-- ===== src/Registry/Commands/Revoke.antt =====
-- `ke revoke` (crates/ke-cli/src/commands/revoke.rs).
use regulatory_rule_engine.Prelude.{
  ℕ, ltb, String, not, ◌||◌, Option, none, some, Result, ok, err, if◌then◌else◌, List_eq, ℕ_eq,
}
use Prim.Native.String.{◌++◌ as str_append}
use regulatory_rule_engine.Manifest.{RevocationPolicy, hard_stop, finish_pinned, audit_only}
use regulatory_rule_engine.Revocation.{
  RevocationReasonClass, revocation_floor, strictness_rank, revocation_decision,
}
use regulatory_rule_engine.Ir.{Hash}
use regulatory_rule_engine.Registry.State.{
  LifecycleState, published, deprecated, revoked, can_transition,
}
use regulatory_rule_engine.Registry.Action.{Action, pure, lift, bail_if, raised_by, ◌>>=◌, ◌>>◌}
use regulatory_rule_engine.Registry.Backend.{RegistryBackend}
use regulatory_rule_engine.Registry.Commands.{
  CommandError, registry_error, wrong_state, precondition_failed, below_floor, no_policy,
  no_evidence, same_state, CommandCrates, state_now, append_transition,
}

unfoldable pub recorded_policy :
    Option RevocationPolicy → Option RevocationReasonClass → Result RevocationPolicy CommandError
recorded_policy (some p) none = ok p
recorded_policy none (some reason) = ok (revocation_decision reason none)
recorded_policy (some p) (some reason) =
    if ltb (strictness_rank p) (strictness_rank (revocation_floor reason))
    then err (below_floor p reason (revocation_floor reason))
    else ok (revocation_decision reason (some p))
recorded_policy none none = err no_policy

unfoldable pub severity_for : RevocationPolicy → String
severity_for audit_only = "high"
severity_for hard_stop = "normal"
severity_for finish_pinned = "normal"

pub record RevokeArgs : Type 0 where
  pub artifact_hash : Hash
  pub policy : Option RevocationPolicy
  pub reason_class : Option RevocationReasonClass
  pub reason : Option String
  pub now_unix : ℕ

pub record RevokeOutcome : Type 0 where
  pub final_state : LifecycleState
  pub recorded : RevocationPolicy
  pub severity : String

module _ {S : Type 0} (b : RegistryBackend S) (c : CommandCrates) where
  unfoldable pub revoke : RevokeArgs → Action S CommandError RevokeOutcome
  unfolding recorded_policy severity_for state_now append_transition same_state can_transition
  revoke args = do
    policy ← lift (recorded_policy args.policy args.reason_class)
    prior_state ← state_now b c args.artifact_hash
    bail_if (not (same_state prior_state published || same_state prior_state deprecated))
        (wrong_state prior_state)
    bail_if (not (can_transition prior_state revoked no_evidence)) precondition_failed
    event ← append_transition b c args.artifact_hash revoked args.now_unix
    raised_by registry_error (
        b.put_revocation args.artifact_hash (record {
          policy = policy;
          reason = args.reason;
          event_ref = str_append "revoked@seq" (c.digits_of event.seq);
          severity = severity_for policy;
          reason_class = args.reason_class;
        }))
    final_state ← state_now b c args.artifact_hash
    pure (record { final_state = final_state; recorded = policy; severity = severity_for policy })
