-- ===== src/Registry/Log/Numbers.antt =====
-- The numbers of the events of a log that is shorter than 2^32.
use mathlib.Core.Path.{subst}
use regulatory_rule_engine.Prelude.{
  ℕ, suc, ◌+◌, ◌^◌, ◌<◌, ◌≤◌, ◌≡◌, ap, Option, some, List, [], ◌∷◌, All, length, last, ok, arith,
}
use regulatory_rule_engine.Registry.State.{LifecycleState}
use regulatory_rule_engine.Registry.Event.{LifecycleEvent, EventCrates}
use regulatory_rule_engine.Registry.Log.{u32, current_state}
use regulatory_rule_engine.Registry.Log.Valid.{FollowAll, current_state_iff}

module _ (c : EventCrates) where
  -- The numbers are below an index, and the last one is just below it.
  record Numbered (n : ℕ) (es : List LifecycleEvent) : Type 0 where
    below : All (λ (x : LifecycleEvent). x.seq < n) es
    final : (e : LifecycleEvent) → last es ≡ some e → suc e.seq ≡ n

  FollowAll-Numbered :
      (i : ℕ) (e : LifecycleEvent) (es : List LifecycleEvent)
      → e.seq ≡ i
      → i + length (e ∷ es) ≤ 2 ^ 32
      → FollowAll c e es
      → Numbered (i + length (e ∷ es)) (e ∷ es)
  FollowAll-Numbered i e [] s room follow = record {
    below = (omega (arith, s), tt);
    final =
        λ x h. let same : e ≡ x = cc in omega (arith, s, ap (λ (v : LifecycleEvent). v.seq) same);
  }
  FollowAll-Numbered i e (f ∷ es) s room (g, follow) =
      let next : f.seq ≡ suc i = omega (arith, g.next_seq, s, room) in
      let more : suc i + length (f ∷ es) ≡ i + length (e ∷ f ∷ es) = omega arith in
      let rest = FollowAll-Numbered (suc i) f es next (omega (arith, room)) follow in
      subst (λ n. Numbered n (e ∷ f ∷ es)) more
        (record { below = (omega (arith, s), rest.below); final = λ x h. rest.final x h })

  -- In a log shorter than 2^32, all numbers are below the one that the next event gets.
  pub below_next :
      (es : List LifecycleEvent) (prior : LifecycleEvent) {s : Option LifecycleState}
      → current_state c es ≡ ok s
      → last es ≡ some prior
      → length es < 2 ^ 32
      → All (λ (x : LifecycleEvent). x.seq < u32 (prior.seq + 1)) es
  below_next [] prior h l room = tt
  below_next (e ∷ es) prior {s} h l room =
      let (first, follow) = ((current_state_iff c (e ∷ es) s).0 h).0 in
      let numbered = FollowAll-Numbered 0 e es first.seq_zero (omega (arith, room)) follow in
      let next : 0 + length (e ∷ es) ≡ u32 (prior.seq + 1) =
        omega (arith, numbered.final prior l, room) in
      subst (λ n. All (λ (x : LifecycleEvent). x.seq < n) (e ∷ es)) next numbered.below
