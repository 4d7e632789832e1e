-- ===== src/Canonical/Decimal.antt =====
-- Exact decimals in canonical form (`normalize_decimal`, `check_decimal_canonical` of
-- crates/ke-core/src/canonical/ordering.rs). A mantissa is an `i128`, a scale an `i8`.
pub mod Form
pub mod Value
use regulatory_rule_engine.Prelude.{
  ℕ, zero, suc, ◌+◌, ◌-◌, ◌*◌, ◌/◌, ◌%◌, ◌^◌, ◌≤◌, ◌<◌, ℤ, pos, negsuc, Bool, true, false, not,
  ◌&&◌, ltb, leb, nat_eq, nat_abs, Option, none, some, if◌then◌else◌, Result, ok, err, ◌>>=◌,
}
use regulatory_rule_engine.Canonical.Error.{
  CanonicalError, decimal_overflow, CanonicalDecodeError, non_canonical_decimal,
}

-- 0 - n.
abbrev pub neg : ℕ → ℤ
neg zero = pos zero
neg (suc n) = negsuc n

-- `checked_mul(10)` on an `i128`.
unfoldable pub checked_mul_ten : ℤ → Option ℤ
checked_mul_ten (pos n) = if ltb (10 * n) (2 ^ 127) then some (pos (10 * n)) else none
checked_mul_ten (negsuc n) = if leb (10 * suc n) (2 ^ 127) then some (neg (10 * suc n)) else none

-- `m % 10 == 0`, which does not depend on the sign.
abbrev pub ten_divides : ℤ → Bool
ten_divides m = nat_eq (nat_abs m % 10) 0

-- `m / 10`, rounded towards zero.
abbrev pub div_ten : ℤ → ℤ
div_ten (pos n) = pos (n / 10)
div_ten (negsuc n) = neg (suc n / 10)

abbrev pub is_zero : ℤ → Bool
is_zero (pos zero) = true
is_zero _ = false

-- `while s < 0`, over the rounds that are left.
unfoldable pub fold_scale : CanonicalError → ℕ → ℤ → Result ℤ CanonicalError
fold_scale e zero m = ok m
fold_scale e (suc k) m = elim (checked_mul_ten m) [ none ↦ err e | some m' ↦ fold_scale e k m' ]

-- `while s > 0 && m != 0 && m % 10 == 0`, over the scale.
unfoldable pub strip_zeros : ℤ → ℕ → ℤ × ℕ
strip_zeros m zero = (m, zero)
strip_zeros m (suc s) =
    let rest = strip_zeros (div_ten m) s in
    if not (is_zero m) && ten_divides m then rest else (m, suc s)

-- `if m == 0 { s = 0 }`
abbrev pub zero_scale : ℤ × ℕ → ℤ × ℤ
zero_scale (m, s) = (m, if is_zero m then pos 0 else pos s)

unfoldable pub normalize_decimal : ℤ → ℤ → Result (ℤ × ℤ) CanonicalError
unfolding fold_scale strip_zeros
normalize_decimal mantissa (pos s) = ok (zero_scale (strip_zeros mantissa s))
normalize_decimal mantissa (negsuc k) = do
  m ← fold_scale (decimal_overflow mantissa (negsuc k)) (suc k) mantissa
  ok (zero_scale (strip_zeros m 0))

is_canonical : ℤ → ℤ → Bool
is_canonical m (negsuc k) = false
is_canonical m (pos zero) = true
is_canonical m (pos (suc s)) = not (not (is_zero m) && ten_divides m) && not (is_zero m)

unfoldable pub check_decimal_canonical : ℤ → ℤ → Result (Unit {0}) CanonicalDecodeError
unfolding is_canonical
check_decimal_canonical mantissa scale =
    if is_canonical mantissa scale then ok tt else err (non_canonical_decimal mantissa scale)
