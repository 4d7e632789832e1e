-- ===== src/Registry/Commands/Recorded.antt =====
-- The policy that a revocation records, and what `ke revoke` does to the logs.
use mathlib.Core.Path.{subst}
use Prim.Native.String.{◌++◌ as str_append}
use regulatory_rule_engine.Prelude.{
  String, ◌≤◌, ltb, ◌≡◌, refl, sym, ap, ◌∙◌, ◌↔◌, ◌⊎◌, inl, inr, not, ◌||◌, false, Bool-cases,
  Option, none, some, ok, map_err, arith, ok-injective,
}
use regulatory_rule_engine.Manifest.{RevocationPolicy}
use regulatory_rule_engine.Revocation.{
  RevocationReasonClass, revocation_floor, strictness_rank, revocation_decision,
}
use regulatory_rule_engine.Registry.State.{
  LifecycleState, published, deprecated, revoked, can_transition,
}
use regulatory_rule_engine.Registry.Event.{EventCratesLaws}
use regulatory_rule_engine.Registry.Log.{require_current_state}
use regulatory_rule_engine.Registry.Action.{with_error}
use regulatory_rule_engine.Registry.Action.Post.{
  Post, succeeded, post_value, post_bail, post_step, post_weaken,
}
use regulatory_rule_engine.Registry.Backend.{RegistryBackend, RevocationRecord}
use regulatory_rule_engine.Registry.Backend.Laws.{BackendLaws}
use regulatory_rule_engine.Registry.Commands.{
  registry_error, CommandCrates, same_state, state_now, append_transition, no_evidence,
}
use regulatory_rule_engine.Registry.Commands.Step.{
  Logs, Moved, Step, stays, moves, HasRoom, read_state, append_transition-Step, write_after,
  final_state,
}
use regulatory_rule_engine.Registry.Commands.Revoke.{
  recorded_policy, severity_for, RevokeArgs, RevokeOutcome, revoke,
}

-- The policy to record: the configured one alone, the floor of the reason alone, or, given both, the
-- configured one where it is no laxer than the floor.
pub data Recorded
    : Option RevocationPolicy → Option RevocationReasonClass → RevocationPolicy → Type 0 where
  configured_only : {p : RevocationPolicy} → Recorded (some p) none p
  floor_only : {r : RevocationReasonClass} → Recorded none (some r) (revocation_floor r)
  no_laxer :
      {p : RevocationPolicy} {r : RevocationReasonClass}
      → strictness_rank (revocation_floor r) ≤ strictness_rank p
      → Recorded (some p) (some r) p

decided :
    (p : RevocationPolicy) (r : RevocationReasonClass)
    → ltb (strictness_rank p) (strictness_rank (revocation_floor r)) ≡ false
    → (strictness_rank (revocation_floor r) ≤ strictness_rank p)
      × (revocation_decision r (some p) ≡ p)
unfolding strictness_rank revocation_floor revocation_decision
decided p r h = (ground (arith, h), ground (arith, h))

floor_decided : (r : RevocationReasonClass) → revocation_decision r none ≡ revocation_floor r
unfolding revocation_decision
floor_decided r = refl

recorded_policy-Recorded :
    (p : Option RevocationPolicy) (r : Option RevocationReasonClass) (q : RevocationPolicy)
    → recorded_policy p r ≡ ok q
    → Recorded p r q
unfolding recorded_policy
recorded_policy-Recorded none none q h = cc
recorded_policy-Recorded (some p) none q h =
    subst (Recorded (some p) none) (ok-injective h) configured_only
recorded_policy-Recorded none (some r) q h =
    subst (Recorded none (some r)) (sym (floor_decided r) ∙ ok-injective h) floor_only
recorded_policy-Recorded (some p) (some r) q h =
    elim (Bool-cases (ltb (strictness_rank p) (strictness_rank (revocation_floor r)))) [
      | inl laxer ↦ cc (rw laxer at h)
      | inr enough ↦
          let (above, same) = decided p r enough in
          subst (Recorded (some p) (some r)) (sym same ∙ ok-injective (rw enough at h))
            (no_laxer above)
    ]

Recorded-recorded_policy :
    (p : Option RevocationPolicy) (r : Option RevocationReasonClass) (q : RevocationPolicy)
    → Recorded p r q
    → recorded_policy p r ≡ ok q
unfolding recorded_policy
Recorded-recorded_policy _ _ q configured_only = refl
Recorded-recorded_policy _ _ q (floor_only {r}) = ap ok (floor_decided r)
Recorded-recorded_policy _ _ q (no_laxer {r = r} above) =
    let enough : ltb (strictness_rank q) (strictness_rank (revocation_floor r)) ≡ false =
      ground (arith, above) in
    rw enough (ap ok (decided q r enough).1)

-- `recorded_policy` answers with a policy exactly when one is given or follows from the reason, and
-- no configured one is laxer than the floor of the reason; what it answers is the configured policy,
-- and the floor where none is configured.
pub recorded_policy_iff :
    (p : Option RevocationPolicy) (r : Option RevocationReasonClass) (q : RevocationPolicy)
    → (recorded_policy p r ≡ ok q) ↔ Recorded p r q
recorded_policy_iff p r q = (recorded_policy-Recorded p r q, Recorded-recorded_policy p r q)

revocable_lem :
    (s : LifecycleState)
    → not (same_state s published || same_state s deprecated) ≡ false
    → (s ≡ published) ⊎ (s ≡ deprecated)
unfolding same_state
revocable_lem s h = ground arith

-- What `ke revoke` does to the logs: it has decided on a policy, and it has moved the log from a
-- revocable state, or left all logs alone.
module _ {S : Type 0} (b : RegistryBackend S) {log_of : S → Logs}
    {IsApart : (env tag : String) → Type 0} (backend_laws : BackendLaws b log_of IsApart)
    (c : CommandCrates) (events_laws : EventCratesLaws c.events) where
  open backend_laws use {put_revocation-log_of}

  pub record Revoked (args : RevokeArgs) (before after : Logs) : Type 0 where
    pub prior : LifecycleState
    pub revocable : (prior ≡ published) ⊎ (prior ≡ deprecated)
    pub policy : RevocationPolicy
    pub recorded : Recorded args.policy args.reason_class policy
    pub moved : Moved c.events Unit args.artifact_hash prior revoked before after

  pub data RevokeStep (args : RevokeArgs) (before after : Logs) : Type 0 where
    not_revoked : after ≡ before → RevokeStep args before after
    is_revoked : Revoked args before after → RevokeStep args before after

  revoked_by :
      (args : RevokeArgs) {before after : Logs} {prior : LifecycleState} {policy : RevocationPolicy}
      → (prior ≡ published) ⊎ (prior ≡ deprecated)
      → Recorded args.policy args.reason_class policy
      → Moved c.events Unit args.artifact_hash prior revoked before after
      → Revoked args before after
  revoked_by args {prior = prior} {policy = policy} end chosen moved = record {
    prior = prior;
    revocable = end;
    policy = policy;
    recorded = chosen;
    moved = moved;
  }

  revoke_done :
      (args : RevokeArgs) {before after : Logs} {prior : LifecycleState} {policy : RevocationPolicy}
      → (prior ≡ published) ⊎ (prior ≡ deprecated)
      → Recorded args.policy args.reason_class policy
      → Step c.events Unit args.artifact_hash prior revoked before after
      → RevokeStep args before after
  revoke_done args end chosen (stays same) = not_revoked same
  revoke_done args end chosen (moves moved) = is_revoked (revoked_by args end chosen moved)

  -- With a storage that keeps its promises (`BackendLaws`), crates that behave as documented
  -- (`EventCratesLaws`), and a log of the artifact that is shorter than 2^32: however `ke revoke`
  -- ends, either every log is as it was, or a policy follows from the arguments as `Recorded` says, the
  -- log of the artifact has one new event at its end that took it from `published` or `deprecated` to
  -- `revoked`, and the other logs are as they were. If it ends in a success, the second is the case,
  -- and it reports the state `revoked`, that policy and the policy's severity.
  pub revoke-Step :
      (args : RevokeArgs) (s : S)
      → HasRoom (log_of s) args.artifact_hash
      → Post
          (λ (o : RevokeOutcome) t.
            (r : Revoked args (log_of s) (log_of t)) × (o.final_state ≡ revoked)
            × (o.recorded ≡ r.policy)
            × (o.severity ≡ severity_for r.policy))
          (λ t. RevokeStep args (log_of s) (log_of t))
          (revoke b c args s)
  unfolding revoke state_now revoked_by
  revoke-Step args s room =
      let h = args.artifact_hash in
      post_value _ (recorded_policy args.policy args.reason_class) (not_revoked refl)
        λ policy decision.
          post_value _ (map_err registry_error (require_current_state c.events (b.read_events h s)))
            (not_revoked refl)
            λ prior known.
              post_bail _ _ (not (same_state prior published || same_state prior deprecated))
                (not_revoked refl)
                λ allowed.
                  post_bail _ _ (not (can_transition prior revoked no_evidence)) (not_revoked refl)
                    λ permitted.
                      let was = read_state b backend_laws c events_laws h s known in
                      let end = revocable_lem prior allowed in
                      let chosen =
                        recorded_policy-Recorded args.policy args.reason_class policy decision in
                      post_step _ (append_transition b c h revoked args.now_unix s)
                        (post_weaken (λ e t m. m) (λ t step. revoke_done args end chosen step)
                          (append_transition-Step b backend_laws c events_laws Unit h s prior
                            revoked args.now_unix refl tt was room))
                        λ e t moved.
                          let entry : RevocationRecord = record {
                            policy = policy;
                            reason = args.reason;
                            event_ref = str_append "revoked@seq" (c.digits_of e.seq);
                            severity = severity_for policy;
                            reason_class = args.reason_class;
                          } in
                          post_step _ (with_error registry_error (b.put_revocation h entry t))
                            (post_weaken (λ u t' m. m) (λ t' step. revoke_done args end chosen step)
                              (write_after b backend_laws c events_laws (b.put_revocation h entry t)
                                (put_revocation-log_of h entry t) moved))
                            λ u t' moved'.
                              post_value _
                                (map_err registry_error
                                  (require_current_state c.events (b.read_events h t')))
                                (is_revoked (revoked_by args end chosen moved'))
                                λ st seen. succeeded (
                                  revoked_by args end chosen moved',
                                  final_state b backend_laws c events_laws t' moved' seen,
                                  refl,
                                  refl,
                                )
