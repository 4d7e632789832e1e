-- ===== src/Artifact/Attestation/Day.antt =====
-- The Unix time at which a date starts (crates/ke-artifact/src/attestation.rs), in integers that do
-- not wrap: an `i64` holds what an `i16` year gives.
use regulatory_rule_engine.Prelude.{
  ℕ, zero, suc, ◌+◌, ◌-◌, ◌*◌, ◌/◌, ℤ, pos, negsuc, leb, ◌≡◌, refl, if◌then◌else◌,
}
use regulatory_rule_engine.Ir.{JurisdictionDate}

abbrev minus : ℕ → ℕ → ℤ
minus a b = if leb b a then pos (a - b) else negsuc (b - a - 1)

infixl 60 ◌+ℤ◌
abbrev ◌+ℤ◌ : ℤ → ℤ → ℤ
pos a +ℤ pos b = pos (a + b)
pos a +ℤ negsuc b = minus a (suc b)
negsuc a +ℤ pos b = minus b (suc a)
negsuc a +ℤ negsuc b = negsuc (suc (a + b))

abbrev negate : ℤ → ℤ
negate (pos zero) = pos zero
negate (pos (suc n)) = negsuc n
negate (negsuc n) = pos (suc n)

-- A multiple, and a quotient that is rounded towards zero.
abbrev times : ℕ → ℤ → ℤ
times k (pos n) = pos (k * n)
times k (negsuc n) = negate (pos (k * suc n))

abbrev quotient : ℤ → ℕ → ℤ
quotient (pos n) k = pos (n / k)
quotient (negsuc n) k = negate (pos (suc n / k))

abbrev era_start : ℤ → ℤ
era_start (pos y) = pos y
era_start (negsuc y) = negsuc (y + 399)

unfoldable pub unix_start_of : JurisdictionDate → ℤ
unix_start_of d =
    let year = d.year +ℤ (if leb d.month 2 then negsuc 0 else pos 0) in
    let era = quotient (era_start year) 400 in
    let year_of_era = year +ℤ negate (times 400 era) in
    let month = if leb d.month 2 then d.month + 9 else d.month - 3 in
    let day_of_year = minus ((153 * month + 2) / 5 + d.day) 1 in
    let day_of_era =
      times 365 year_of_era
      +ℤ quotient year_of_era 4
      +ℤ negate (quotient year_of_era 100)
      +ℤ day_of_year in
    times 86400 (times 146097 era +ℤ day_of_era +ℤ negsuc 719467)

unix_epoch : unix_start_of (record { year = pos 1970; month = 1; day = 1 }) ≡ pos 0
unfolding unix_start_of
unix_epoch = refl

unix_2026 : unix_start_of (record { year = pos 2026; month = 6; day = 12 }) ≡ pos 1781222400
unfolding unix_start_of
unix_2026 = refl
