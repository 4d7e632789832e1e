-- ===== src/Canonical/Agree.antt =====
-- How a walker of the encoder stands to the validator of the decoder, with a rule for each way in
-- which the source builds a walker.
use regulatory_rule_engine.Prelude.{
  ◌≡◌, refl, sym, ap, ◌∙◌, Option, none, some, List, [], ◌∷◌, Result, ok, ◌>>=◌, ◌>>◌, >>=-eq-ok,
  ok-injective,
}
use mathlib.Core.Path.{subst}
use regulatory_rule_engine.Canonical.Ordering.{when_some, for_each}

-- Two checks accept together. Their errors are of different types.
pub record Agree {E F : Type 0} (m : Result (Unit {0}) E) (n : Result (Unit {0}) F) : Type 0 where
  pub to : m ≡ ok tt → n ≡ ok tt
  pub from : n ≡ ok tt → m ≡ ok tt

module _ {E F : Type 0} where
  pub Agree-ok : Agree {E = E} {F = F} (ok tt) (ok tt)
  Agree-ok = record { to = λ h. refl; from = λ h. refl }

  pub Agree-seq :
      {m k : Result (Unit {0}) E} {n l : Result (Unit {0}) F}
      → Agree m n
      → Agree k l
      → Agree (m >> k) (n >> l)
  Agree-seq {m} {k} {n} {l} p q = record {
    to = λ h. let (u, a, b) = >>=-eq-ok m (λ _. k) h in rw (p.to a) (q.to b);
    from = λ h. let (u, a, b) = >>=-eq-ok n (λ _. l) h in rw (p.from a) (q.from b);
  }

module _ {A E F : Type 0} {f : A → Result (Unit {0}) E} {g : A → Result (Unit {0}) F} where
  pub Agree-when_some :
      ((a : A) → Agree (f a) (g a)) → (o : Option A) → Agree (when_some f o) (when_some g o)
  Agree-when_some p none = Agree-ok
  Agree-when_some p (some a) = p a

  pub Agree-for_each :
      ((a : A) → Agree (f a) (g a)) → (xs : List A) → Agree (for_each f xs) (for_each g xs)
  Agree-for_each p [] = Agree-ok
  Agree-for_each p (x ∷ xs) = Agree-seq (p x) (Agree-for_each p xs)

-- A walker `r` that rebuilds a value from a part of it, where `part` is the part as it was: the part
-- that it returns passes the validator, and a part that passes is left as it was.
pub record Rebuilds {A B E F : Type 0} (r : Result A E) (valid : B → Result (Unit {0}) F) (part : B)
    (build : B → A) : Type 0 where
  pub sound : (a : A) → r ≡ ok a → (x : B) × (build x ≡ a) × (valid x ≡ ok tt)
  pub fixed : valid part ≡ ok tt → r ≡ ok (build part)

-- A walker that changes a value as a whole.
abbrev pub Normalizes : {A E F : Type 0} → Result A E → (A → Result (Unit {0}) F) → A → Type 0
Normalizes r valid a = Rebuilds r valid a (λ x. x)

module _ {A B E F : Type 0} where
  -- A check in front.
  pub Rebuilds-check :
      {m : Result (Unit {0}) E} {n : Result (Unit {0}) F} {r : Result A E}
      {valid : B → Result (Unit {0}) F} {part : B} {build : B → A}
      → Agree m n
      → Rebuilds r valid part build
      → Rebuilds (m >> r) (λ x. n >> valid x) part build
  Rebuilds-check {m} {n} {r} {valid} {part} p q = record {
    sound = λ a h.
        let (u, checked, rest) = >>=-eq-ok m (λ _. r) h in
        let (x, made, passes) = q.sound a rest in (x, made, rw (p.to checked) passes);
    fixed = λ h.
        let (u, checked, rest) = >>=-eq-ok n (λ _. valid part) h in
        rw (p.from checked) (q.fixed rest);
  }

  -- The last part, put into its place.
  pub Rebuilds-last :
      {r : Result B E} {valid : B → Result (Unit {0}) F} {part : B} (build : B → A)
      → Normalizes r valid part
      → Rebuilds (r >>= λ x. ok (build x)) valid part build
  Rebuilds-last {r} build q = record {
    sound = λ a h.
        let (x, made, built) = >>=-eq-ok r (λ x. ok (build x)) h in
        let (y, same, passes) = q.sound x made in (y, ap build same ∙ ok-injective built, passes);
    fixed = λ h. rw (q.fixed h) refl;
  }

  -- Checks at the end, after the last part.
  pub Rebuilds-end :
      {m : Result (Unit {0}) E} {n : Result (Unit {0}) F} (part : B) (build : B → A)
      → Agree m n
      → Rebuilds {A = A} {B = Unit {0}} (m >> ok (build part)) (λ _. n) tt (λ _. build part)
  Rebuilds-end {m} part build p = record {
    sound = λ a h.
        let (u, checked, made) = >>=-eq-ok m (λ _. ok (build part)) h in
        (tt, ok-injective made, p.to checked);
    fixed = λ h. rw (p.from h) refl;
  }

module _ {A B C E F : Type 0} where
  -- One part, and what is rebuilt from the others.
  pub Rebuilds-part :
      {r : Result B E} {k : B → Result A E} {valid : B → Result (Unit {0}) F}
      {rest : C → Result (Unit {0}) F} {part : B} {others : C} (build : B → C → A)
      → Normalizes r valid part
      → ((x : B) → Rebuilds (k x) rest others (build x))
      → Rebuilds {B = B × C}
          (r >>= k)
          (λ p. valid p.0 >> rest p.1)
          (part, others)
          (λ p. build p.0 p.1)
  Rebuilds-part {r} {k} {valid} {rest} {part} {others} build p q = record {
    sound = λ a h.
        let (x, made, next) = >>=-eq-ok r k h in
        let (x', same, passes) = p.sound x made in
        let (y, built, passes') = (q x).sound a next in
        ((x', y), ap (λ z. build z y) same ∙ built, rw passes passes');
    fixed = λ h.
        let (u, first, second) = >>=-eq-ok (valid part) (λ _. rest others) h in
        rw (p.fixed first) ((q part).fixed second);
  }

module _ {A B E F : Type 0} where
  -- The whole value, where its validator is that of its part.
  pub Rebuilds-whole :
      {r : Result A E} {valid : B → Result (Unit {0}) F} {part : B} {build : B → A}
      {whole : A → Result (Unit {0}) F}
      → ((x : B) → whole (build x) ≡ valid x)
      → Rebuilds r valid part build
      → Normalizes r whole (build part)
  Rebuilds-whole {valid} {part} {build} {whole} w q = record {
    sound = λ a h.
        let (x, made, passes) = q.sound a h in
        (a, refl, subst (λ b. whole b ≡ ok tt) made (w x ∙ passes));
    fixed = λ h. q.fixed (sym (w part) ∙ h);
  }
