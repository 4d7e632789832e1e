-- ===== src/Registry/Action/Post.antt =====
-- What holds however an action ends: one condition on the value and the state of a success, and one
-- on the state that an error leaves; with a rule for each step that commands are built from.
use regulatory_rule_engine.Prelude.{◌≡◌, refl, Bool, true, false, Result, ok, err, ok-injective}
use regulatory_rule_engine.Registry.Action.{after, with_error, bail_if}
use mathlib.Core.Path.{subst}

module _ {S E : Type 0} where
  pub data Post {A : Type 0} (P : A → S → Type 0) (Q : S → Type 0) : Result A E × S → Type 0 where
    succeeded : {a : A} {s : S} → P a s → Post P Q (ok a, s)
    failed : {e : E} {s : S} → Q s → Post P Q (err e, s)

  -- A step that leaves the state as it is.
  pub post_value :
      {A B : Type 0} {P : B → S → Type 0} {Q : S → Type 0} (k : A → S → Result B E × S) {s : S}
      (r : Result A E)
      → Q s
      → ((a : A) → r ≡ ok a → Post P Q (k a s))
      → Post P Q (after k (r, s))
  post_value k (ok a) q p = p a refl
  post_value k (err e) q p = failed q

  pub post_bail :
      {B : Type 0} {P : B → S → Type 0} {Q : S → Type 0} (k : Unit {0} → S → Result B E × S) {s : S}
      (e : E) (b : Bool)
      → Q s
      → (b ≡ false → Post P Q (k tt s))
      → Post P Q (after k (bail_if b e s))
  post_bail k e true q p = failed q
  post_bail k e false q p = p refl

  -- A step that may change the state.
  pub post_step :
      {A B : Type 0} {P : A → S → Type 0} {P' : B → S → Type 0} {Q : S → Type 0}
      (k : A → S → Result B E × S) (r : Result A E × S)
      → Post P Q r
      → ((a : A) (s : S) → P a s → Post P' Q (k a s))
      → Post P' Q (after k r)
  post_step k (ok a, s) (succeeded h) p = p a s h
  post_step k (err e, s) (failed h) p = failed h

  pub post_error :
      {F A : Type 0} {P : A → S → Type 0} {Q : S → Type 0} (f : F → E) (r : Result A F × S)
      → ((a : A) → r.0 ≡ ok a → P a r.1)
      → ((e : F) → r.0 ≡ err e → Q r.1)
      → Post P Q (with_error f r)
  post_error f (ok a, s) p q = succeeded (p a refl)
  post_error f (err e, s) p q = failed (q e refl)

  pub post_ok :
      {A : Type 0} {P : A → S → Type 0} {Q : S → Type 0} {r : Result A E × S} {a : A}
      → Post P Q r
      → r.0 ≡ ok a
      → P a r.1
  post_ok {P = P} (succeeded {s = s} h) e = subst (λ x. P x s) (ok-injective e) h
  post_ok (failed h) e = cc

  -- Whatever the end, if the first condition implies the second.
  pub post_state :
      {A : Type 0} {P : A → S → Type 0} {Q : S → Type 0} {r : Result A E × S}
      → ((a : A) (s : S) → P a s → Q s)
      → Post P Q r
      → Q r.1
  post_state w (succeeded h) = w _ _ h
  post_state w (failed h) = h

  pub post_last :
      {A : Type 0} {P : A → S → Type 0} {Q : S → Type 0} {s : S} (r : Result A E)
      → Q s
      → ((a : A) → r ≡ ok a → P a s)
      → Post P Q (r, s)
  post_last (ok a) q p = succeeded (p a refl)
  post_last (err e) q p = failed q

  pub post_weaken :
      {A : Type 0} {P P' : A → S → Type 0} {Q Q' : S → Type 0} {r : Result A E × S}
      → ((a : A) (s : S) → P a s → P' a s)
      → ((s : S) → Q s → Q' s)
      → Post P Q r
      → Post P' Q' r
  post_weaken p q (succeeded h) = succeeded (p _ _ h)
  post_weaken p q (failed h) = failed (q _ h)
