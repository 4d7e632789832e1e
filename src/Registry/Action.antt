-- ===== src/Registry/Action.antt =====
-- Code that writes to a registry: state and errors. The state comes back after an error too, since
-- what was written stays written.
pub mod Post
use regulatory_rule_engine.Prelude.{
  ◌≡◌, refl, Bool, true, false, Option, none, some, Result, ok, err, String,
}

abbrev pub Action : Type 0 → Type 0 → Type 0 → Type 0
Action S E A = S → Result A E × S

module _ {S E : Type 0} where
  abbrev pub pure : {A : Type 0} → A → Action S E A
  pure a s = (ok a, s)

  abbrev pub raise : {A : Type 0} → E → Action S E A
  raise e s = (err e, s)

  -- A call that reads: `e?` for a fallible `e` that writes nothing.
  abbrev pub reads : {A : Type 0} → (S → Result A E) → Action S E A
  reads f s = (f s, s)

  abbrev pub lift : {A : Type 0} → Result A E → Action S E A
  lift r s = (r, s)

  abbrev pub modify : (S → S) → Action S E (Unit {0})
  modify f s = (ok tt, f s)

  abbrev pub bail_if : Bool → E → Action S E (Unit {0})
  bail_if true e s = (err e, s)
  bail_if false e s = (ok tt, s)

abbrev pub after : {S E A B : Type 0} → (A → Action S E B) → Result A E × S → Result B E × S
after f (ok a, s) = f a s
after f (err e, s) = (err e, s)

infixl 5 ◌>>=◌ ◌>>◌
abbrev pub ◌>>=◌ : {S E A B : Type 0} → Action S E A → (A → Action S E B) → Action S E B
(m >>= f) s = after f (m s)

abbrev pub ◌>>◌ : {S E A B : Type 0} → Action S E A → Action S E B → Action S E B
m >> k = m >>= λ _. k

-- `map_err`, on an action.
abbrev pub with_error : {S E F A : Type 0} → (E → F) → Result A E × S → Result A F × S
with_error f (ok a, s) = (ok a, s)
with_error f (err e, s) = (err (f e), s)

abbrev pub raised_by : {S E F A : Type 0} → (E → F) → Action S E A → Action S F A
raised_by f m s = with_error f (m s)
