-- ===== src/Registry/Commands/Moves.antt =====
-- What each command does to the logs, however it ends.
use mathlib.Core.Path.{subst}
use Prim.Native.String.{◌++◌ as str_append}
use regulatory_rule_engine.Prelude.{
  ℕ, ◌≡◌, refl, ap, ◌∙◌, not, ◌||◌, ◌⊎◌, false, Option, none, some, String, ok, map_err,
  map_err-eq-ok, arith, List_eq, ℕ_eq,
}
use regulatory_rule_engine.Ir.{Hash}
use regulatory_rule_engine.Registry.State.{
  LifecycleState, structurally_verified, ml_checked, published, deprecated, can_transition,
  is_rollback_eligible,
}
use regulatory_rule_engine.Registry.Event.{EventCratesLaws}
use regulatory_rule_engine.Registry.Log.{require_current_state, current_state}
use regulatory_rule_engine.Registry.Action.{with_error}
use regulatory_rule_engine.Registry.Action.Post.{
  Post, succeeded, post_value, post_bail, post_step, post_last,
}
use regulatory_rule_engine.Registry.Backend.{RegistryBackend}
use regulatory_rule_engine.Registry.Backend.Laws.{BackendLaws}
use regulatory_rule_engine.Registry.Commands.{
  registry_error, no_evidence, same_state, CommandCrates, state_now, append_transition,
  append_tag_moved, block_refused,
}
use regulatory_rule_engine.Registry.Commands.Step.{
  Logs, Moved, Step, stays, moves, HasRoom, read_state, append_transition-Step,
  append_tag_moved-Step, write_before, write_after, final_state,
}
use regulatory_rule_engine.Registry.Commands.Deprecate.{deprecate}
use regulatory_rule_engine.Registry.Commands.Rollback.{RollbackOutcome, rollback}
use regulatory_rule_engine.Registry.Commands.MlCheck.{is_some, standin_block, ml_check}
use regulatory_rule_engine.Artifact.Consistency.{ConsistencyBlock}

pub same_state_lem : (s t : LifecycleState) → not (same_state s t) ≡ false → s ≡ t
unfolding same_state
same_state_lem s t h = ground arith

eligible_lem : (s : LifecycleState) → not (is_rollback_eligible s) ≡ false → s ≡ published
unfolding is_rollback_eligible
eligible_lem s h = ground arith

revocable_lem :
    (s : LifecycleState)
    → not (same_state s published || same_state s deprecated) ≡ false
    → (s ≡ published) ⊎ (s ≡ deprecated)
unfolding same_state
revocable_lem s h = ground arith

present_lem :
    (found : Option ConsistencyBlock)
    → not (
        can_transition structurally_verified ml_checked
          (record no_evidence { consistency_block_present = is_some found }))
      ≡ false
    → (block : ConsistencyBlock) × (found ≡ some block)
unfolding can_transition
present_lem none h = cc
present_lem (some block) h = (block, refl)

module _ {S : Type 0} (b : RegistryBackend S) {log_of : S → Logs}
    {IsApart : (env tag : String) → Type 0} (backend_laws : BackendLaws b log_of IsApart)
    (c : CommandCrates) (events_laws : EventCratesLaws c.events) where
  open backend_laws use {
    put_artifact-log_of, put_pointer-log_of, put_consistency-log_of, put_revocation-log_of,
  }

  pub state_was :
      (h : Hash) (s : S) (prior expected : LifecycleState)
      → map_err registry_error (require_current_state c.events (b.read_events h s)) ≡ ok prior
      → prior ≡ expected
      → current_state c.events (log_of s h) ≡ ok (some expected)
  state_was h s prior expected known same =
      subst (λ x. current_state c.events (log_of s h) ≡ ok (some x)) same
        (read_state b backend_laws c events_laws h s known)

  -- With a storage that keeps its promises (`BackendLaws`), crates that behave as documented
  -- (`EventCratesLaws`), and a log of the artifact that is shorter than 2^32: however `ke deprecate`
  -- ends, either every log is as it was, or the log of the artifact has one new event at its end that
  -- took it from `published` to `deprecated`, and the other logs are as they were. If it ends in a
  -- success, the second is the case, and the state that it reports is `deprecated`.
  pub deprecate-Step :
      (h : Hash) (now_unix : ℕ) (s : S)
      → HasRoom (log_of s) h
      → Post
          (λ st t.
            Moved c.events Unit h published deprecated (log_of s) (log_of t) × (st ≡ deprecated))
          (λ t. Step c.events Unit h published deprecated (log_of s) (log_of t))
          (deprecate b c h now_unix s)
  unfolding deprecate state_now can_transition
  deprecate-Step h now_unix s room =
      post_value _ (map_err registry_error (require_current_state c.events (b.read_events h s)))
        (stays refl)
        λ prior known. post_bail _ _ (not (same_state prior published)) (stays refl) λ is_published.
          let was =
            state_was h s prior published known (same_state_lem prior published is_published) in
          post_step _ (append_transition b c h deprecated now_unix s)
            (append_transition-Step b backend_laws c events_laws Unit h s published deprecated
              now_unix refl tt was room)
            λ e t moved.
              post_last
                (map_err registry_error (require_current_state c.events (b.read_events h t)))
                (moves moved)
                λ st seen. (moved, final_state b backend_laws c events_laws t moved seen)

  -- With a storage that keeps its promises (`BackendLaws`), crates that behave as documented
  -- (`EventCratesLaws`), a log of the artifact that is shorter than 2^32, and an environment and a tag
  -- that the storage keeps apart from the logs: however `ke rollback` ends, either every log is as it was, or the log of the target, which was in the state `published`,
  -- has one new event at its end and still is, and the other logs are as they were. If it ends in a
  -- success, the second is the case, and the state that it reports is `published`.
  pub rollback-Step :
      (env tag : String) (h : Hash) (now_unix : ℕ) (s : S)
      → HasRoom (log_of s) h
      → IsApart env tag
      → Post
          (λ (o : RollbackOutcome) t.
            Moved c.events Unit h published published (log_of s) (log_of t)
            × (o.target_state ≡ published))
          (λ t. Step c.events Unit h published published (log_of s) (log_of t))
          (rollback b c env tag h now_unix s)
  unfolding rollback state_now
  rollback-Step env tag h now_unix s room apart =
      post_value _ (map_err registry_error (require_current_state c.events (b.read_events h s)))
        (stays refl)
        λ state known. post_bail _ _ (not (is_rollback_eligible state)) (stays refl) λ eligible.
          let was = state_was h s state published known (eligible_lem state eligible) in
          post_step _ (append_tag_moved b c h now_unix s)
            (append_tag_moved-Step b backend_laws c events_laws Unit h s published now_unix tt was
              room)
            λ e t moved.
              let event_ref = str_append "tag_moved@seq" (c.digits_of e.seq) in
              post_step _ (with_error registry_error (b.put_pointer env tag h event_ref t))
                (write_after b backend_laws c events_laws (b.put_pointer env tag h event_ref t)
                  (put_pointer-log_of env tag h event_ref t apart) moved)
                λ u t' moved'.
                  post_value _
                    (map_err registry_error (require_current_state c.events (b.read_events h t')))
                    (moves moved')
                    λ st seen.
                      succeeded (moved', final_state b backend_laws c events_laws t' moved' seen)

  -- With a storage that keeps its promises (`BackendLaws`), crates that behave as documented
  -- (`EventCratesLaws`), and a log of the artifact that is shorter than 2^32: however `ke ml-check`
  -- ends, either every log is as it was, or the log of the artifact has one new event at its end that
  -- took it from `structurally_verified` to `ml_checked`, a consistency block was read back from the
  -- storage before that, and the other logs are as they were. If it ends in a success, the second is
  -- the case, and the state that it reports is `ml_checked`.
  pub ml_check-Step :
      (h : Hash) (now_unix : ℕ) (s : S)
      → HasRoom (log_of s) h
      → let Block : Type 0 =
          (t : S) × (block : ConsistencyBlock) × (b.read_consistency h t ≡ ok (some block)) in
        Post
          (λ st t.
            Moved c.events Block h structurally_verified ml_checked (log_of s) (log_of t)
            × (st ≡ ml_checked))
          (λ t. Step c.events Block h structurally_verified ml_checked (log_of s) (log_of t))
          (ml_check b c h now_unix s)
  unfolding ml_check state_now
  ml_check-Step h now_unix s room =
      let Block : Type 0 =
        (t : S) × (block : ConsistencyBlock) × (b.read_consistency h t ≡ ok (some block)) in
      post_value _ (map_err registry_error (require_current_state c.events (b.read_events h s)))
        (stays refl)
        λ prior known.
          post_bail _ _ (not (same_state prior structurally_verified)) (stays refl) λ expected.
            let was =
              state_was h s prior structurally_verified known
                (same_state_lem prior structurally_verified expected) in
            post_value _ (map_err block_refused (standin_block (c.digits_of now_unix))) (stays refl)
              λ block built.
                post_step _ (with_error registry_error (b.put_consistency h block s))
                  (write_before b backend_laws c events_laws Block h structurally_verified
                    ml_checked (b.put_consistency h block s) (put_consistency-log_of h block s))
                  λ u t same.
                    post_value _ (map_err registry_error (b.read_consistency h t)) (stays same)
                      λ found read. post_bail _ _ _ (stays same) λ allowed.
                        let (present, is) = present_lem found allowed in
                        let evidence : Block =
                          (t, present, map_err-eq-ok registry_error _ read ∙ ap ok is) in
                        post_step _ (append_transition b c h ml_checked now_unix t)
                          (append_transition-Step b backend_laws c events_laws Block h t
                            structurally_verified ml_checked now_unix same evidence was room)
                          λ e t' moved.
                            post_last
                              (map_err registry_error
                                (require_current_state c.events (b.read_events h t')))
                              (moves moved)
                              λ st seen.
                                (moved, final_state b backend_laws c events_laws t' moved seen)
