-- ===== src/Runtime/Effective.antt =====
-- Effective windows (crates/ke-runtime/src/effective.rs).
use regulatory_rule_engine.Prelude.{
  ℤ, ltb, ltb_ℤ, nat_eq, ◌≡◌, refl, Bool, true, false, ◌&&◌, ◌||◌, Option, none, some,
  if◌then◌else◌, arith, ◌==◌, ℤ_eq,
}
use regulatory_rule_engine.Ir.{JurisdictionDate, EffectiveWindow}

-- `<` on the keys, the triples of year, month and day.
unfoldable pub key_lt : JurisdictionDate → JurisdictionDate → Bool
key_lt a b =
    ltb_ℤ a.year b.year
    || (a.year == b.year && (ltb a.month b.month || (nat_eq a.month b.month && ltb a.day b.day)))

unfoldable pub before_end : JurisdictionDate → Option JurisdictionDate → Bool
unfolding key_lt
before_end date none = true
before_end date (some to) = key_lt date to

unfoldable pub effective_at : Option EffectiveWindow → JurisdictionDate → Bool
unfolding key_lt before_end
effective_at none date = true
effective_at (some w) date =
    if key_lt date w.effective_from then false else before_end date w.effective_to

lt_ℤ_trans : (a b c : ℤ) → ltb_ℤ a b ≡ true → ltb_ℤ c b ≡ false → ltb_ℤ a c ≡ true
lt_ℤ_trans a b c h k = ground arith

key_lt-le : (a b c : JurisdictionDate) → key_lt a b ≡ true → key_lt c b ≡ false → key_lt a c ≡ true
unfolding key_lt
key_lt-le a b c h k = ground arith

-- Whether a window does not end before a date.
abbrev pub EndsNotBefore : Option JurisdictionDate → JurisdictionDate → Type 0
EndsNotBefore none mid = Unit
EndsNotBefore (some to) mid = key_lt to mid ≡ false

-- The tests of the three windows, where a date before the start is before the cut, and a date before
-- the cut is before the end.
cut_tests :
    (before_start before_cut before_end : Bool)
    → (before_start ≡ true → before_cut ≡ true)
    → (before_cut ≡ true → before_end ≡ true)
    → let early = if before_start then false else before_cut in
      let late = if before_cut then false else before_end in
      ((if before_start then false else before_end) ≡ (early || late)) × ((early && late) ≡ false)
cut_tests true true _ h k = (refl, refl)
cut_tests true false _ h k = cc (h refl)
cut_tests false true _ h k = (k refl, refl)
cut_tests false false _ h k = (refl, refl)

-- A window cut at a date that lies in it: a rule is effective in the whole window exactly when it is
-- effective in the part up to the date or in the part from the date on, and it is never effective in
-- both.
pub effective_at-split :
    (w : EffectiveWindow) (mid date : JurisdictionDate)
    → key_lt mid w.effective_from ≡ false
    → EndsNotBefore w.effective_to mid
    → let early = effective_at (some (record w { effective_to = some mid })) date in
      let late = effective_at (some (record w { effective_from = mid })) date in
      (effective_at (some w) date ≡ (early || late)) × ((early && late) ≡ false)
unfolding effective_at
effective_at-split w mid date h k =
    cut_tests (key_lt date w.effective_from) (key_lt date mid) (before_end date w.effective_to)
      (λ early. key_lt-le date w.effective_from mid early h) (ends w.effective_to k)
  where
    ends :
        (to : Option JurisdictionDate)
        → EndsNotBefore to mid
        → key_lt date mid ≡ true
        → before_end date to ≡ true
    ends none k early = refl
    ends (some to) k early = key_lt-le date mid to early k
