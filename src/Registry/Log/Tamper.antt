-- ===== src/Registry/Log/Tamper.antt =====
-- The head of a log determines all of it.
use mathlib.Core.List.{reverse, reverse_aux, reverse-reverse}
use mathlib.Core.Path.{subst, ap₂}
use regulatory_rule_engine.Prelude.{
  ◌≡◌, refl, sym, ap, ◌∙◌, Option, none, some, List, [], ◌∷◌, last, Result, ok, err, ◌>>=◌,
  >>=-eq-ok, map_err, ok-injective, ◌⊎◌, inl, inr, ◌≢◌, Bool-cases, ◌==◌, List_eq, ℕ_eq, eq_of_beq,
  ne_of_beq,
}
use regulatory_rule_engine.Ir.{Hash}
use regulatory_rule_engine.Crypto.{Bytes, CodecError}
use regulatory_rule_engine.Registry.State.{LifecycleState}
use regulatory_rule_engine.Registry.Error.{event_encode}
use regulatory_rule_engine.Registry.Event.{LifecycleEvent, EventCrates, EventCratesLaws, chain_hash}
use regulatory_rule_engine.Registry.Log.{current_state}
use regulatory_rule_engine.Registry.Log.Valid.{
  IsGenesis, Follows, FollowAll, IsLog, current_state_iff,
}

module _ (c : EventCrates) where
  -- Two different byte strings with one digest.
  abbrev pub Collision : Type 0
  Collision = (a b : Bytes) × (a ≢ b) × (c.blake3 a ≡ c.blake3 b)

module _ (c : EventCrates) (laws : EventCratesLaws c) where
  open laws use {encode_payload, to_stdvec_lem, take_payload_lem}

  -- Postcard gives different events different bytes, since it reads a payload back.
  take_back :
      (e : LifecycleEvent) {b : Bytes}
      → c.to_stdvec e ≡ ok b
      → c.take_payload b ≡ ok (e.payload, e.signature)
  take_back e {b} h =
      let (p, encoded, made) = >>=-eq-ok (encode_payload e.payload) _ (sym (to_stdvec_lem e) ∙ h) in
      subst (λ x. c.take_payload x ≡ ok (e.payload, e.signature)) (ok-injective made)
        (take_payload_lem e.payload p e.signature encoded)

  to_stdvec-injective :
      (e f : LifecycleEvent) {b : Bytes} → c.to_stdvec e ≡ ok b → c.to_stdvec f ≡ ok b → e ≡ f
  to_stdvec-injective e f p q =
      let same = ok-injective (sym (take_back e p) ∙ take_back f q) in
      λ i. record { payload = (same i).0; signature = (same i).1 }

  chain_hash-to_stdvec :
      (e : LifecycleEvent) {h : Hash}
      → chain_hash c e ≡ ok h
      → (b : Bytes) × (c.to_stdvec e ≡ ok b) × (c.blake3 b ≡ h)
  unfolding chain_hash
  chain_hash-to_stdvec e p = by_bytes (c.to_stdvec e) refl p
    where
      by_bytes :
          (r : Result Bytes CodecError) {h : Hash}
          → c.to_stdvec e ≡ r
          → (map_err event_encode r >>= λ bytes. ok (c.blake3 bytes)) ≡ ok h
          → (b : Bytes) × (c.to_stdvec e ≡ ok b) × (c.blake3 b ≡ h)
      by_bytes (ok b) q p = (b, q, ok-injective p)
      by_bytes (err x) q p = cc

  chain_hash-injective :
      (e f : LifecycleEvent) {h : Hash}
      → chain_hash c e ≡ ok h
      → chain_hash c f ≡ ok h
      → (e ≡ f) ⊎ Collision c
  chain_hash-injective e f p q =
      let (a, pa, ha) = chain_hash-to_stdvec e p in
      let (b, pb, hb) = chain_hash-to_stdvec f q in
      elim (Bool-cases (a == b)) [
        | inl same ↦ inl (to_stdvec-injective e f pa (pb ∙ ap ok (sym (eq_of_beq a b same))))
        | inr differ ↦ inr (a, b, ne_of_beq a b differ, ha ∙ sym hb)
      ]

  -- A log read from its head back.
  abbrev Backward : List LifecycleEvent → Type 0
  Backward [] = Unit
  Backward (e ∷ []) = IsGenesis c e
  Backward (f ∷ e ∷ es) = Follows c e f × Backward (e ∷ es)

  FollowAll-Backward :
      (e : LifecycleEvent) (es done : List LifecycleEvent)
      → FollowAll c e es
      → Backward (e ∷ done)
      → Backward (reverse_aux es (e ∷ done))
  FollowAll-Backward e [] done f b = b
  FollowAll-Backward e (x ∷ xs) done f b = FollowAll-Backward x xs (e ∷ done) f.1 (f.0, b)

  IsLog-Backward : (es : List LifecycleEvent) → IsLog c es → Backward (reverse es)
  IsLog-Backward [] l = tt
  IsLog-Backward (e ∷ es) l = FollowAll-Backward e es [] l.1 l.0

  no_link_and_link :
      (e : LifecycleEvent) {h : Hash} → e.prev_event_hash ≡ none → e.prev_event_hash ≡ some h → ⊥
  no_link_and_link e p q = cc

  Backward-unique :
      (e : LifecycleEvent) (es fs : List LifecycleEvent)
      → Backward (e ∷ es)
      → Backward (e ∷ fs)
      → (es ≡ fs) ⊎ Collision c
  Backward-unique e [] [] b d = inl refl
  Backward-unique e [] (f ∷ fs) b d = absurd (no_link_and_link e b.no_link d.0.linked)
  Backward-unique e (x ∷ xs) [] b d = absurd (no_link_and_link e d.no_link b.0.linked)
  Backward-unique e (x ∷ xs) (f ∷ fs) b d =
      let links : b.0.link ≡ d.0.link = cc (b.0.linked, d.0.linked) in
      elim (chain_hash-injective x f b.0.link_hashed (d.0.link_hashed ∙ ap ok (sym links))) [
        | inr found ↦ inr found
        | inl same ↦
            extend same
              (Backward-unique x xs fs b.1 (subst (λ y. Backward (y ∷ fs)) (sym same) d.1))
      ]
    where
      extend : x ≡ f → (xs ≡ fs) ⊎ Collision c → (x ∷ xs ≡ f ∷ fs) ⊎ Collision c
      extend same (inl p) = inl (ap₂ (λ y ys. y ∷ ys) same p)
      extend same (inr found) = inr found

  reverse-last :
      (x e : LifecycleEvent) (xs done : List LifecycleEvent)
      → last (x ∷ xs) ≡ some e
      → (ys : List LifecycleEvent) × (reverse_aux xs (x ∷ done) ≡ e ∷ ys)
  reverse-last x e [] done h = (done, cc)
  reverse-last x e (y ∷ ys) done h = reverse-last y e ys (x ∷ done) h

  Backward-reverse :
      (es : List LifecycleEvent) (e : LifecycleEvent) {s : Option LifecycleState}
      → current_state c es ≡ ok s
      → last es ≡ some e
      → (ys : List LifecycleEvent) × (reverse es ≡ e ∷ ys) × Backward (e ∷ ys)
  Backward-reverse [] e h l = cc
  Backward-reverse (x ∷ xs) e {s} h l =
      let (ys, p) = reverse-last x e xs [] l in
      (ys, p, subst Backward p (IsLog-Backward (x ∷ xs) ((current_state_iff c (x ∷ xs) s).0 h).0))

  -- With crates that behave as documented (`EventCratesLaws`): if `current_state` accepts two logs and
  -- their last events have one chain hash, then the logs are the same, event by event, or BLAKE3 has a
  -- collision, which the proof hands over.
  pub head_determines_log :
      (es fs : List LifecycleEvent) (e f : LifecycleEvent) {h : Hash} {s t : Option LifecycleState}
      → current_state c es ≡ ok s
      → current_state c fs ≡ ok t
      → last es ≡ some e
      → last fs ≡ some f
      → chain_hash c e ≡ ok h
      → chain_hash c f ≡ ok h
      → (es ≡ fs) ⊎ Collision c
  head_determines_log es fs e f p q le lf he hf =
      let (xs, rx, bx) = Backward-reverse es e p le in
      let (ys, ry, by) = Backward-reverse fs f q lf in
      elim (chain_hash-injective e f he hf) [
        | inr found ↦ inr found
        | inl same ↦
            conclude xs ys rx (ry ∙ ap (λ x. x ∷ ys) (sym same))
              (Backward-unique e xs ys bx (subst (λ x. Backward (x ∷ ys)) (sym same) by))
      ]
    where
      conclude :
          (xs ys : List LifecycleEvent)
          → reverse es ≡ e ∷ xs
          → reverse fs ≡ e ∷ ys
          → (xs ≡ ys) ⊎ Collision c
          → (es ≡ fs) ⊎ Collision c
      conclude xs ys rx ry (inl same) = inl (
          sym (reverse-reverse es)
          ∙ ap reverse (rx ∙ ap (λ zs. e ∷ zs) same ∙ sym ry)
          ∙ reverse-reverse fs)
      conclude xs ys rx ry (inr found) = inr found
