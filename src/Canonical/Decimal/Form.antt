-- ===== src/Canonical/Decimal/Form.antt =====
-- Normalising gives a canonical form, and leaves a canonical form alone.
use mathlib.Core.Path.{subst}
use regulatory_rule_engine.Prelude.{
  ℕ, zero, suc, ◌≡◌, ℤ, pos, negsuc, ok, arith, ok-injective, >>=-eq-ok,
}
use regulatory_rule_engine.Canonical.Decimal.{
  div_ten, fold_scale, strip_zeros, zero_scale, normalize_decimal, check_decimal_canonical,
}

strip_zeros-canonical :
    (m : ℤ) (s : ℕ)
    → check_decimal_canonical (zero_scale (strip_zeros m s)).0 (zero_scale (strip_zeros m s)).1
      ≡ ok tt
unfolding strip_zeros check_decimal_canonical
strip_zeros-canonical m zero = ground arith
strip_zeros-canonical m (suc s) = ground (arith, strip_zeros-canonical (div_ten m) s)

-- What `normalize_decimal` returns passes the decoder's check.
pub normalize_decimal-canonical :
    (m s : ℤ) {r : ℤ × ℤ} → normalize_decimal m s ≡ ok r → check_decimal_canonical r.0 r.1 ≡ ok tt
unfolding normalize_decimal
normalize_decimal-canonical m (pos s) {r} h =
    let same : zero_scale (strip_zeros m s) ≡ r = ok-injective h in
    subst (λ q. check_decimal_canonical q.0 q.1 ≡ ok tt) same (strip_zeros-canonical m s)
normalize_decimal-canonical m (negsuc k) {r} h =
    let (m', folded, made) = >>=-eq-ok (fold_scale _ (suc k) m) _ h in
    subst (λ q. check_decimal_canonical q.0 q.1 ≡ ok tt) (ok-injective made)
      (strip_zeros-canonical m' 0)

-- A decimal that passes the check is left alone.
pub normalize_decimal-fixed :
    (m s : ℤ) → check_decimal_canonical m s ≡ ok tt → normalize_decimal m s ≡ ok (m, s)
unfolding normalize_decimal check_decimal_canonical
normalize_decimal-fixed m (negsuc k) h = cc
normalize_decimal-fixed m (pos zero) h = ground arith
normalize_decimal-fixed m (pos (suc s)) h = ground arith
