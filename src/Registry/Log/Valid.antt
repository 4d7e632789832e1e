-- ===== src/Registry/Log/Valid.antt =====
-- Which logs `current_state` accepts, described by each event and the one before it.
use regulatory_rule_engine.Prelude.{
  ℕ, suc, ◌+◌, ◌≡◌, refl, sym, ap, ◌↔◌, Option, none, some, List, [], ◌∷◌, last, ok, ◌>>=◌,
  >>=-eq-ok, arith, List_eq, ℕ_eq, eq_of_beq, beq_refl, ok-injective, ◌∙◌,
}
use regulatory_rule_engine.Ir.{Hash}
use regulatory_rule_engine.Registry.State.{LifecycleState}
use regulatory_rule_engine.Registry.Event.{
  LifecycleEvent, EventCrates, chain_hash, verify_signature,
}
use regulatory_rule_engine.Registry.Log.{
  u32, check_link, check_event, walk, state_of, current_state,
}

check_link_first : (l prior : Option Hash) (seq : ℕ) → check_link 0 l prior seq ≡ ok tt → l ≡ none
unfolding check_link
check_link_first l prior seq h = ground arith

check_link_later :
    (i : ℕ) (l : Option Hash) (prior : Hash) (seq : ℕ)
    → check_link (suc i) l (some prior) seq ≡ ok tt
    → l ≡ some prior
unfolding check_link
check_link_later i none prior seq h = cc
check_link_later i (some l) prior seq h = ap some (eq_of_beq l prior (ground arith))

check_link_self : (i : ℕ) (h : Hash) (seq : ℕ) → check_link (suc i) (some h) (some h) seq ≡ ok tt
unfolding check_link
check_link_self i h seq = rw (beq_refl h)

module _ (c : EventCrates) where
  -- A first event: number 0, no link, a good signature, and bytes to hash.
  pub record IsGenesis (e : LifecycleEvent) : Type 0 where
    pub seq_zero : e.seq ≡ 0
    pub no_link : e.prev_event_hash ≡ none
    pub signed : verify_signature c e ≡ ok tt
    pub hash : Hash
    pub hashed : chain_hash c e ≡ ok hash

  -- An event that follows `prior`: the next number, the hash of `prior`, a good signature, and
  -- bytes to hash.
  pub record Follows (prior e : LifecycleEvent) : Type 0 where
    pub next_seq : e.seq ≡ u32 (prior.seq + 1)
    pub link : Hash
    pub link_hashed : chain_hash c prior ≡ ok link
    pub linked : e.prev_event_hash ≡ some link
    pub signed : verify_signature c e ≡ ok tt
    pub hash : Hash
    pub hashed : chain_hash c e ≡ ok hash

  abbrev pub FollowAll : LifecycleEvent → List LifecycleEvent → Type 0
  FollowAll prior [] = Unit
  FollowAll prior (e ∷ es) = Follows prior e × FollowAll e es

  abbrev pub IsLog : List LifecycleEvent → Type 0
  IsLog [] = Unit
  IsLog (e ∷ es) = IsGenesis e × FollowAll e es

  -- What one round of the loop has checked when it goes on.
  record Passed (i : ℕ) (prior : Option Hash) (e : LifecycleEvent) (h : Hash) : Type 0 where
    seq_ok : e.seq ≡ u32 i
    link_ok : check_link i e.prev_event_hash prior e.seq ≡ ok tt
    signed : verify_signature c e ≡ ok tt
    hashed : chain_hash c e ≡ ok h

  check_event_iff :
      (i : ℕ) (prior : Option Hash) (e : LifecycleEvent) (h : Hash)
      → (check_event c i prior e ≡ ok h) ↔ Passed i prior e h
  unfolding check_event
  check_event_iff i prior e h = (
    λ p. record {
      seq_ok = ground arith;
      link_ok = ground arith;
      signed = ground arith;
      hashed = ground arith;
    },
    λ p. ground (arith, p.seq_ok, p.link_ok, p.signed, p.hashed),
  )

  next_seq : (i m n : ℕ) → m ≡ u32 i → (n ≡ u32 (suc i)) ↔ (n ≡ u32 (m + 1))
  next_seq i m n h = (λ p. omega arith, λ p. omega arith)

  walk_iff :
      (i : ℕ) (prior : LifecycleEvent) (g : Hash) (es : List LifecycleEvent)
      → prior.seq ≡ u32 i
      → chain_hash c prior ≡ ok g
      → (walk c (suc i) (some g) es ≡ ok tt) ↔ FollowAll prior es
  unfolding walk
  walk_iff i prior g [] s q = (λ p. tt, λ p. refl)
  walk_iff i prior g (e ∷ es) s q = (
    λ p.
        let (h, p₁, p₂) = >>=-eq-ok (check_event c (suc i) (some g) e) _ p in
        let r = (check_event_iff (suc i) (some g) e h).0 p₁ in
        (
          record {
            next_seq = (next_seq i prior.seq e.seq s).0 r.seq_ok;
            link = g;
            link_hashed = q;
            linked = check_link_later i e.prev_event_hash g e.seq r.link_ok;
            signed = r.signed;
            hash = h;
            hashed = r.hashed;
          },
          (walk_iff (suc i) e h es r.seq_ok r.hashed).0 p₂,
        ),
    λ p. step p.0 (
        (walk_iff (suc i) e p.0.hash es ((next_seq i prior.seq e.seq s).1 p.0.next_seq)
            p.0.hashed).1
          p.1),
  )
    where
      step :
          (f : Follows prior e)
          → walk c (suc (suc i)) (some f.hash) es ≡ ok tt
          → (check_event c (suc i) (some g) e >>= λ h. walk c (suc (suc i)) (some h) es) ≡ ok tt
      step f w =
          let same : f.link ≡ g = ok-injective (sym f.link_hashed ∙ q) in
          let linked : e.prev_event_hash ≡ some g = f.linked ∙ ap some same in
          rw
            ((check_event_iff (suc i) (some g) e f.hash).1 (record {
              seq_ok = (next_seq i prior.seq e.seq s).1 f.next_seq;
              link_ok = rw linked (check_link_self i g e.seq);
              signed = f.signed;
              hashed = f.hashed;
            }))
            w

  walk_first_iff : (es : List LifecycleEvent) → (walk c 0 none es ≡ ok tt) ↔ IsLog es
  unfolding walk
  walk_first_iff [] = (λ p. tt, λ p. refl)
  walk_first_iff (e ∷ es) = (
    λ p.
        let (h, p₁, p₂) = >>=-eq-ok (check_event c 0 none e) _ p in
        let r = (check_event_iff 0 none e h).0 p₁ in
        (
          record {
            seq_zero = r.seq_ok;
            no_link = check_link_first e.prev_event_hash none e.seq r.link_ok;
            signed = r.signed;
            hash = h;
            hashed = r.hashed;
          },
          (walk_iff 0 e h es r.seq_ok r.hashed).0 p₂,
        ),
    λ p.
        rw
          ((check_event_iff 0 none e p.0.hash).1 (record {
            seq_ok = p.0.seq_zero;
            link_ok = rw p.0.no_link (unfold check_link in refl);
            signed = p.0.signed;
            hashed = p.0.hashed;
          }))
          ((walk_iff 0 e p.0.hash es p.0.seq_zero p.0.hashed).1 p.1),
  )

  -- `current_state` answers with a state exactly for the logs that start with a genesis event and
  -- in which every later event follows the one before it, and the state is the last event's.
  pub current_state_iff :
      (es : List LifecycleEvent) (s : Option LifecycleState)
      → (current_state c es ≡ ok s) ↔ (IsLog es × (s ≡ state_of c (last es)))
  unfolding current_state
  current_state_iff es s = (
    λ p.
        let (u, walked, same) = >>=-eq-ok (walk c 0 none es) _ p in
        ((walk_first_iff es).0 walked, sym (ok-injective same)),
    λ p. rw ((walk_first_iff es).1 p.0) (ap ok (sym p.1)),
  )
