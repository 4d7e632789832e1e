-- ===== src/Canonical/Decimal/Value.antt =====
-- Normalising keeps the value, and gives one form for one value.
use mathlib.Core.Path.{subst}
use native.Mathlib.Decide.{dec_le}
use regulatory_rule_engine.Prelude.{
  pos_part, neg_part, ℕ, zero, suc, ◌+◌, ◌-◌, ◌*◌, ◌≡◌, refl, sym, ap, ◌∙◌, ℤ, pos, negsuc, true,
  not, ◌&&◌, some, ok, arith, Bool-cases, Option-cases, inl, inr, ok-injective, >>=-eq-ok,
}
use regulatory_rule_engine.Canonical.Error.{CanonicalError}
use regulatory_rule_engine.Canonical.Decimal.{
  neg, checked_mul_ten, ten_divides, div_ten, is_zero, fold_scale, strip_zeros, zero_scale,
  normalize_decimal, check_decimal_canonical,
}
use regulatory_rule_engine.Canonical.Decimal.Form.{normalize_decimal-canonical}

abbrev pub mul_ten : ℤ → ℤ
mul_ten (pos n) = pos (10 * n)
mul_ten (negsuc n) = neg (10 * suc n)

-- The integer m * 10 ^ k.
unfoldable pub times_ten : ℤ → ℕ → ℤ
times_ten m zero = m
times_ten m (suc k) = mul_ten (times_ten m k)

times_ten-mul_ten : (m : ℤ) (k : ℕ) → times_ten (mul_ten m) k ≡ times_ten m (suc k)
unfolding times_ten
times_ten-mul_ten m zero = refl
times_ten-mul_ten m (suc k) = ap mul_ten (times_ten-mul_ten m k)

mul_ten-injective : (m n : ℤ) → mul_ten m ≡ mul_ten n → m ≡ n
mul_ten-injective (pos m) (pos n) h = ground arith
mul_ten-injective (pos m) (negsuc n) h = ground arith
mul_ten-injective (negsuc m) (pos n) h = ground arith
mul_ten-injective (negsuc m) (negsuc n) h = ground arith

mul_ten-div_ten : (m : ℤ) → ten_divides m ≡ true → mul_ten (div_ten m) ≡ m
mul_ten-div_ten (pos n) h = ground arith
mul_ten-div_ten (negsuc n) h = ground arith

ten_divides-mul_ten : (m : ℤ) → ten_divides (mul_ten m) ≡ true
ten_divides-mul_ten (pos n) = ground arith
ten_divides-mul_ten (negsuc n) = ground arith

checked_mul_ten-eq-some : (m : ℤ) {n : ℤ} → checked_mul_ten m ≡ some n → n ≡ mul_ten m
unfolding checked_mul_ten
checked_mul_ten-eq-some (pos m) h = ground arith
checked_mul_ten-eq-some (negsuc m) h = ground arith

fold_scale-eq-ok :
    (e : CanonicalError) (k : ℕ) (m : ℤ) {n : ℤ} → fold_scale e k m ≡ ok n → n ≡ times_ten m k
unfolding fold_scale times_ten
fold_scale-eq-ok e zero m h = sym (ok-injective h)
fold_scale-eq-ok e (suc k) m {n} h = elim (Option-cases (checked_mul_ten m)) [
  | inl over ↦ absurd (cc (rw (over, fold_scale) at h))
  | inr (x, fits) ↦
      fold_scale-eq-ok e k x (rw (fits, fold_scale) at h)
      ∙ ap (λ y. times_ten y k) (checked_mul_ten-eq-some m fits)
      ∙ times_ten-mul_ten m k
]

-- The digits that were stripped were zeros.
strip_zeros_value :
    (m : ℤ) (s : ℕ)
    → (k : ℕ) × ((strip_zeros m s).1 + k ≡ s) × (times_ten (strip_zeros m s).0 k ≡ m)
unfolding strip_zeros times_ten
strip_zeros_value m zero = (0, omega arith, refl)
strip_zeros_value m (suc s) = elim (Bool-cases (not (is_zero m) && ten_divides m)) [
  | inr stop ↦ (0, rw stop (omega arith), rw stop refl)
  | inl go ↦
      let (k, p, q) = strip_zeros_value (div_ten m) s in
      let e : strip_zeros m (suc s) ≡ strip_zeros (div_ten m) s = rw go refl in
      (
        suc k,
        omega (arith, p, ap (λ (r : ℤ × ℕ). r.1) e),
        ap (λ r. times_ten r.0 (suc k)) e ∙ ap mul_ten q ∙ mul_ten-div_ten m (ground arith),
      )
]

-- Two decimals have one value: m * 10 ^ (-s) and n * 10 ^ (-t), brought to integers by powers of ten.
pub record SameValue (m s n t : ℤ) : Type 0 where
  pub up_left : ℕ
  pub up_right : ℕ
  pub scales : up_left + pos_part s + neg_part t ≡ up_right + pos_part t + neg_part s
  pub values : times_ten m up_left ≡ times_ten n up_right

times_ten-zero : (k : ℕ) → times_ten (pos 0) k ≡ pos 0
unfolding times_ten
times_ten-zero zero = refl
times_ten-zero (suc k) = ap mul_ten (times_ten-zero k)

zero_scale_value : (m : ℤ) (s : ℕ) → SameValue m (pos s) (zero_scale (m, s)).0 (zero_scale (m, s)).1
unfolding times_ten
zero_scale_value (pos zero) s = record {
  up_left = 0;
  up_right = s;
  scales = omega arith;
  values = sym (times_ten-zero s);
}
zero_scale_value (pos (suc m)) s = record {
  up_left = 0;
  up_right = 0;
  scales = refl;
  values = refl;
}
zero_scale_value (negsuc m) s = record { up_left = 0; up_right = 0; scales = refl; values = refl }

times_ten-add : (m : ℤ) (j k : ℕ) → times_ten (times_ten m j) k ≡ times_ten m (j + k)
unfolding times_ten
times_ten-add m j zero = let e : j ≡ j + 0 = omega arith in ap (times_ten m) e
times_ten-add m j (suc k) =
    ap mul_ten (times_ten-add m j k)
    ∙ ap (times_ten m) (let e : suc (j + k) ≡ j + suc k = omega arith in e)

SameValue-trans : {m s n t p u : ℤ} → SameValue m s n t → SameValue n t p u → SameValue m s p u
SameValue-trans {m} {n} {p} v w = record {
  up_left = v.up_left + w.up_left;
  up_right = w.up_right + v.up_right;
  scales = omega (arith, v.scales, w.scales);
  values =
      sym (times_ten-add m v.up_left w.up_left)
      ∙ ap (λ x. times_ten x w.up_left) v.values
      ∙ times_ten-add n v.up_right w.up_left
      ∙ ap (times_ten n)
          (let e : v.up_right + w.up_left ≡ w.up_left + v.up_right = omega arith in e)
      ∙ sym (times_ten-add n w.up_left v.up_right)
      ∙ ap (λ x. times_ten x v.up_right) w.values
      ∙ times_ten-add p w.up_right v.up_right;
}

SameValue-sym : {m s n t : ℤ} → SameValue m s n t → SameValue n t m s
SameValue-sym v = record {
  up_left = v.up_right;
  up_right = v.up_left;
  scales = sym v.scales;
  values = sym v.values;
}

-- What `normalize_decimal` returns has the value of the decimal that it was given.
pub normalize_decimal_value :
    (m s : ℤ) {r : ℤ × ℤ} → normalize_decimal m s ≡ ok r → SameValue m s r.0 r.1
unfolding normalize_decimal times_ten
normalize_decimal_value m (pos s) {r} h =
    let (k, p, q) = strip_zeros_value m s in
    let stripped : SameValue m (pos s) (strip_zeros m s).0 (pos (strip_zeros m s).1) = record {
      up_left = 0;
      up_right = k;
      scales = omega (arith, p);
      values = sym q;
    } in
    subst (λ x. SameValue m (pos s) x.0 x.1) (ok-injective h)
      (SameValue-trans stripped (zero_scale_value (strip_zeros m s).0 (strip_zeros m s).1))
normalize_decimal_value m (negsuc k) {r} h =
    let (m', folded, made) = >>=-eq-ok (fold_scale _ (suc k) m) _ h in
    let shifted : SameValue m (negsuc k) m' (pos 0) = record {
      up_left = suc k;
      up_right = 0;
      scales = omega arith;
      values = sym (fold_scale-eq-ok _ (suc k) m folded);
    } in
    subst (λ x. SameValue m (negsuc k) x.0 x.1) (ok-injective made)
      (SameValue-trans shifted (unfold strip_zeros in zero_scale_value m' 0))

cancel : (m n : ℤ) (a d : ℕ) → times_ten m a ≡ times_ten n (d + a) → m ≡ times_ten n d
unfolding times_ten
cancel m n zero d h = let e : d + 0 ≡ d = omega arith in h ∙ ap (times_ten n) e
cancel m n (suc a) d h =
    let e : d + suc a ≡ suc (d + a) = omega arith in
    cancel m n a d (mul_ten-injective _ _ (h ∙ ap (times_ten n) e))

-- A canonical decimal with a positive scale is not a multiple of ten.
not_multiple :
    (m n : ℤ) (s d : ℕ)
    → check_decimal_canonical m (pos (suc s)) ≡ ok tt
    → m ≡ times_ten n (suc d)
    → ⊥
unfolding check_decimal_canonical times_ten
not_multiple m n s d h e =
    let divides : ten_divides m ≡ true =
      ap (λ x. ten_divides x) e ∙ ten_divides-mul_ten (times_ten n d) in
    ground arith

canonical_unique_from :
    (m n : ℤ) (s t a d : ℕ)
    → check_decimal_canonical m (pos s) ≡ ok tt
    → s ≡ d + t
    → times_ten m a ≡ times_ten n (d + a)
    → (m ≡ n) × (s ≡ t)
unfolding times_ten
canonical_unique_from m n s t a zero h e v = (cancel m n a 0 v, omega arith)
canonical_unique_from m n zero t a (suc d) h e v = absurd (omega arith)
canonical_unique_from m n (suc s) t a (suc d) h e v =
    absurd (not_multiple m n s d h (cancel m n a (suc d) v))

canonical_unique :
    (m s n t : ℤ)
    → check_decimal_canonical m s ≡ ok tt
    → check_decimal_canonical n t ≡ ok tt
    → SameValue m s n t
    → (m ≡ n) × (s ≡ t)
unfolding check_decimal_canonical
canonical_unique m (negsuc s) n t h k v = cc
canonical_unique m (pos s) n (negsuc t) h k v = cc
canonical_unique m (pos s) n (pos t) h k v = elim (dec_le v.up_left v.up_right) [
  | yes le ↦
      let d = v.up_right - v.up_left in
      let e : v.up_right ≡ d + v.up_left = omega arith in
      let (p, q) =
        canonical_unique_from m n s t v.up_left d h (omega (arith, v.scales))
          (v.values ∙ ap (times_ten n) e) in
      (p, ap pos q)
  | no gt ↦
      let d = v.up_left - v.up_right in
      let e : v.up_left ≡ d + v.up_right = omega arith in
      let (p, q) =
        canonical_unique_from n m t s v.up_right d k (omega (arith, v.scales))
          (sym v.values ∙ ap (times_ten m) e) in
      (sym p, ap pos (sym q))
]

-- If two decimals have one value and `normalize_decimal` takes both, it returns one decimal for both.
pub normalize_decimal_unique :
    (m s n t : ℤ) {r q : ℤ × ℤ}
    → SameValue m s n t
    → normalize_decimal m s ≡ ok r
    → normalize_decimal n t ≡ ok q
    → r ≡ q
normalize_decimal_unique m s n t {r} {q} v h k =
    let (p₁, p₂) =
      canonical_unique r.0 r.1 q.0 q.1 (normalize_decimal-canonical m s h)
        (normalize_decimal-canonical n t k)
        (SameValue-trans (SameValue-sym (normalize_decimal_value m s h))
          (SameValue-trans v (normalize_decimal_value n t k))) in
    λ i. (p₁ i, p₂ i)
