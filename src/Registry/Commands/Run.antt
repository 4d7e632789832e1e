-- ===== src/Registry/Commands/Run.antt =====
-- Sequences of commands, each started whatever the one before it ended in.
use mathlib.Core.Path.{subst}
use mathlib.Core.List.{append-nil, append_assoc}
use regulatory_rule_engine.Prelude.{
  All, ℕ, suc, ◌+◌, ◌^◌, ◌≤◌, ◌≡◌, refl, sym, ap, ◌∙◌, ◌⊎◌, inl, inr, Bool-cases, ◌==◌, List_eq,
  ℕ_eq, eq_of_beq, ne_of_beq, true, Option, some, String, List, [], ◌∷◌, ◌++◌, length,
  length-append, ok, ok-injective, arith,
}
use regulatory_rule_engine.Ir.{Hash}
use regulatory_rule_engine.Manifest.{AttestationType}
use regulatory_rule_engine.Registry.State.{
  LifecycleState, published, deprecated, revoked, Preconditions, can_transition,
}
use regulatory_rule_engine.Registry.State.Reach.{Request, Permitted}
use regulatory_rule_engine.Registry.Event.{LifecycleEvent, EventCrates, EventCratesLaws}
use regulatory_rule_engine.Registry.Log.{current_state}
use regulatory_rule_engine.Registry.Action.Post.{post_state}
use regulatory_rule_engine.Registry.Backend.{RegistryBackend}
use regulatory_rule_engine.Registry.Backend.Laws.{BackendLaws}
use regulatory_rule_engine.Registry.Commands.{CommandCrates, no_evidence}
use regulatory_rule_engine.Registry.Commands.Step.{Logs, Moved, Step, stays, moves, HasRoom}
use regulatory_rule_engine.Registry.Commands.MlCheck.{ml_check}
use regulatory_rule_engine.Registry.Commands.Attest.{attest}
use regulatory_rule_engine.Registry.Commands.Publish.{PublishArgs, publish}
use regulatory_rule_engine.Registry.Commands.Deprecate.{deprecate}
use regulatory_rule_engine.Registry.Commands.Rollback.{rollback}
use regulatory_rule_engine.Registry.Commands.Revoke.{RevokeArgs, revoke}
use regulatory_rule_engine.Registry.Commands.Moves.{deprecate-Step, rollback-Step, ml_check-Step}
use regulatory_rule_engine.Registry.Commands.Attested.{publish-Step, attest-Step}
use regulatory_rule_engine.Registry.Commands.Recorded.{
  RevokeStep, not_revoked, is_revoked, revoke-Step,
}

-- A command line, parsed.
pub data Command : Type 0 where
  ml_check_of : (artifact_hash : Hash) (now_unix : ℕ) → Command
  attest_of : (artifact_hash : Hash) (types : List AttestationType) (now_unix : ℕ) → Command
  publish_of : PublishArgs → Command
  deprecate_of : (artifact_hash : Hash) (now_unix : ℕ) → Command
  rollback_of : (env tag : String) (to_hash : Hash) (now_unix : ℕ) → Command
  revoke_of : RevokeArgs → Command

module _ {S : Type 0} (b : RegistryBackend S) (c : CommandCrates) where
  -- The storage that a command leaves.
  unfoldable pub run_one : Command → S → S
  run_one (ml_check_of h now) s = (ml_check b c h now s).1
  run_one (attest_of h types now) s = (attest b c h types now s).1
  run_one (publish_of args) s = (publish b c args s).1
  run_one (deprecate_of h now) s = (deprecate b c h now s).1
  run_one (rollback_of env tag h now) s = (rollback b c env tag h now s).1
  run_one (revoke_of args) s = (revoke b c args s).1

  unfoldable pub run : List Command → S → S
  unfolding run_one
  run [] s = s
  run (k ∷ ks) s = run ks (run_one k s)

some_injective : {A : Type 0} {x y : A} → ◌≡◌ {A = Option A} (some x) (some y) → x ≡ y
some_injective h = cc

module _ (c : EventCrates) where
  -- No log changed, or one did, along an edge of the lifecycle or without a change of state.
  data Change (before after : Logs) : Type 1 where
    nothing : after ≡ before → Change before after
    one :
        {Evidence : Type 0} {h : Hash} {from to : LifecycleState}
        → Moved c Evidence h from to before after
        → ((pre : Preconditions) × (can_transition from to pre ≡ true)) ⊎ (from ≡ to)
        → Change before after

  of_step :
      {Evidence : Type 0} {h : Hash} {from to : LifecycleState} {before after : Logs}
      → ((pre : Preconditions) × (can_transition from to pre ≡ true)) ⊎ (from ≡ to)
      → Step c Evidence h from to before after
      → Change before after
  of_step edge (stays same) = nothing same
  of_step edge (moves moved) = one moved edge

  Change-room :
      {before after : Logs} (g : Hash) (n : ℕ)
      → Change before after
      → length (before g) + suc n ≤ 2 ^ 32
      → length (after g) + n ≤ 2 ^ 32
  Change-room g n (nothing same) room = rw same (omega (arith, room))
  Change-room {before} {after} g n (one {h = h} moved edge) room = elim (Bool-cases (g == h)) [
    | inl same ↦
        let at : after g ≡ before g ++ moved.event ∷ [] =
          subst (λ k. after k ≡ before k ++ moved.event ∷ []) (sym (eq_of_beq g h same))
            moved.appended in
        rw at (omega (arith, room, length-append (before g) (moved.event ∷ [])))
    | inr other ↦ rw (moved.elsewhere g (ne_of_beq g h other)) (omega (arith, room))
  ]

  -- Where the state of an artifact has got to: its log has grown at its end, and a sequence of permitted
  -- transitions leads from the state that it had to the state that it has.
  pub record Progress (h : Hash) (from : LifecycleState) (limit : ℕ) (before after : Logs)
      : Type 0 where
    pub to : LifecycleState
    pub now : current_state c (after h) ≡ ok (some to)
    pub requests : List Request
    pub permitted : Permitted from requests to
    pub appended : List LifecycleEvent
    pub grown : after h ≡ before h ++ appended
    pub few : length appended ≤ limit

  unmoved :
      {before after : Logs} (h : Hash) (a : LifecycleState) (n : ℕ)
      → current_state c (before h) ≡ ok (some a)
      → after h ≡ before h
      → Progress h a n before after
  unmoved {before} h a n was same = record {
    to = a;
    now = rw same was;
    requests = [];
    permitted = refl;
    appended = [];
    grown = same ∙ sym (append-nil (before h));
    few = omega arith;
  }

  edge-Permitted :
      (from to : LifecycleState)
      → ((pre : Preconditions) × (can_transition from to pre ≡ true)) ⊎ (from ≡ to)
      → (rs : List Request) × Permitted from rs to
  edge-Permitted from to (inl (pre, allowed)) =
      (record { pre = pre; target = to } ∷ [], (allowed, refl))
  edge-Permitted from to (inr same) = ([], same)

  Change-Progress :
      {before after : Logs} (h : Hash) (a : LifecycleState)
      → current_state c (before h) ≡ ok (some a)
      → Change before after
      → Progress h a 1 before after
  Change-Progress h a was (nothing same) = unmoved h a 1 was (ap (λ logs. logs h) same)
  Change-Progress {before} {after} h a was (one {h = g} {from} {to} moved edge) =
      elim (Bool-cases (h == g)) [
        | inr other ↦ unmoved h a 1 was (moved.elsewhere h (ne_of_beq h g other))
        | inl beq ↦
            let same = sym (eq_of_beq h g beq) in
            let (rs, permitted) = edge-Permitted from to edge in
            let from_a : from ≡ a =
              some_injective
                (ok-injective (sym moved.was ∙ ap (λ k. current_state c (before k)) same ∙ was)) in
            record {
              to = to;
              now = subst (λ k. current_state c (after k) ≡ ok (some to)) same moved.becomes;
              requests = rs;
              permitted = subst (λ x. Permitted x rs to) from_a permitted;
              appended = moved.event ∷ [];
              grown = subst (λ k. after k ≡ before k ++ moved.event ∷ []) same moved.appended;
              few = omega arith;
            }
      ]

  Permitted-append :
      (a b d : LifecycleState) (rs qs : List Request)
      → Permitted a rs b
      → Permitted b qs d
      → Permitted a (rs ++ qs) d
  Permitted-append a b d [] qs p q = subst (λ x. Permitted x qs d) (sym p) q
  Permitted-append a b d (r ∷ rs) qs (allowed, p) q =
      (allowed, Permitted-append r.target b d rs qs p q)

  then-Progress :
      {h : Hash} {a : LifecycleState} {n : ℕ} {before between after : Logs}
      (p : Progress h a 1 before between)
      → Progress h p.to n between after
      → Progress h a (suc n) before after
  then-Progress {h} {a} {before = before} p q = record {
    to = q.to;
    now = q.now;
    requests = p.requests ++ q.requests;
    permitted = Permitted-append a p.to q.to p.requests q.requests p.permitted q.permitted;
    appended = p.appended ++ q.appended;
    grown =
        q.grown ∙ ap (λ l. l ++ q.appended) p.grown ∙ append_assoc (before h) p.appended q.appended;
    few = omega (arith, length-append p.appended q.appended, p.few, q.few);
  }

revocable_edge :
    (prior : LifecycleState)
    → (prior ≡ published) ⊎ (prior ≡ deprecated)
    → can_transition prior revoked no_evidence ≡ true
unfolding can_transition
revocable_edge prior h = ground arith

module _ {S : Type 0} (b : RegistryBackend S) {log_of : S → Logs}
    {IsApart : (env tag : String) → Type 0} (backend_laws : BackendLaws b log_of IsApart)
    (c : CommandCrates) (events_laws : EventCratesLaws c.events) where
  revoke-Change :
      (args : RevokeArgs) (before after : Logs)
      → RevokeStep b backend_laws c events_laws args before after
      → Change c.events before after
  revoke-Change args before after (not_revoked same) = nothing same
  revoke-Change args before after (is_revoked r) =
      one r.moved (inl (no_evidence, revocable_edge r.prior r.revocable))

  abbrev target : Command → Hash
  target (ml_check_of h now) = h
  target (attest_of h types now) = h
  target (publish_of args) = args.artifact_hash
  target (deprecate_of h now) = h
  target (rollback_of env tag h now) = h
  target (revoke_of args) = args.artifact_hash

  -- The environment and the tag of a command that moves a pointer are kept apart from the logs.
  abbrev pub PointsApart : Command → Type 0
  PointsApart (ml_check_of h now) = Unit
  PointsApart (attest_of h types now) = Unit
  PointsApart (publish_of args) = IsApart args.env args.tag
  PointsApart (deprecate_of h now) = Unit
  PointsApart (rollback_of env tag h now) = IsApart env tag
  PointsApart (revoke_of args) = Unit

  run_one-Change :
      (k : Command) (s : S)
      → HasRoom (log_of s) (target k)
      → PointsApart k
      → Change c.events (log_of s) (log_of (run_one b c k s))
  unfolding run_one can_transition
  run_one-Change (ml_check_of h now) s room apart =
      of_step c.events (inl (record no_evidence { consistency_block_present = true }, refl))
        (post_state (λ o t m. moves m.0) (ml_check-Step b backend_laws c events_laws h now s room))
  run_one-Change (attest_of h types now) s room apart =
      of_step c.events (inl (record no_evidence { attestation_set_valid = true }, refl)) (
        post_state (λ o t m. moves m.0)
          (attest-Step b backend_laws c events_laws h types now s room))
  run_one-Change (publish_of args) s room apart =
      of_step c.events (inl (record no_evidence { prior_is_expert_attested = true }, refl)) (
        post_state (λ o t m. moves m.0)
          (publish-Step b backend_laws c events_laws args s room apart))
  run_one-Change (deprecate_of h now) s room apart =
      of_step c.events (inl (no_evidence, refl))
        (post_state (λ o t m. moves m.0) (deprecate-Step b backend_laws c events_laws h now s room))
  run_one-Change (rollback_of env tag h now) s room apart = of_step c.events (inr refl) (
      post_state (λ o t m. moves m.0)
        (rollback-Step b backend_laws c events_laws env tag h now s room apart))
  run_one-Change (revoke_of args) s room apart =
      revoke-Change args (log_of s) _ (
        post_state (λ o t m. is_revoked m.0) (revoke-Step b backend_laws c events_laws args s room))

  -- With a storage that keeps its promises (`BackendLaws`), crates that behave as documented
  -- (`EventCratesLaws`), logs that stay within 2^32 events, and environments and tags that the storage
  -- keeps apart from the logs: after any sequence of the commands
  -- `ml-check`, `attest`, `publish`, `deprecate`, `rollback` and `revoke`, whichever of them fail, the
  -- log of an artifact that had a state is still valid and has only grown at its end, by at most one
  -- event for each command, and a sequence of permitted transitions leads from the state that the
  -- artifact had to the state that it has.
  pub run-Progress :
      (ks : List Command) (s : S)
      → ((g : Hash) → length (log_of s g) + length ks ≤ 2 ^ 32)
      → All PointsApart ks
      → (h : Hash) (a : LifecycleState) → current_state c.events (log_of s h) ≡ ok (some a)
      → Progress c.events h a (length ks) (log_of s) (log_of (run b c ks s))
  unfolding run
  run-Progress [] s room apart h a was = unmoved c.events h a 0 was refl
  run-Progress (k ∷ ks) s room apart h a was =
      let here : HasRoom (log_of s) (target k) = omega (arith, room (target k)) in
      let change = run_one-Change k s here apart.0 in
      let first = Change-Progress c.events h a was change in
      then-Progress c.events first (
        run-Progress ks (run_one b c k s) (λ g. Change-room c.events g (length ks) change (room g))
          apart.1 h first.to first.now)
