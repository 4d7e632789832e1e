-- ===== src/Canonical/Bytewise.antt =====
-- The lexicographic order of byte strings: `Ord` for `Vec<u8>`.
use Prim.Native.Nat.{compare, Ordering}
use regulatory_rule_engine.Prelude.{◌≡◌, refl, [], ◌∷◌, arith}
use regulatory_rule_engine.Crypto.{Bytes}

unfoldable pub bytes_cmp : Bytes → Bytes → Ordering
bytes_cmp [] [] = Ordering.eq
bytes_cmp [] (y ∷ ys) = Ordering.lt
bytes_cmp (x ∷ xs) [] = Ordering.gt
bytes_cmp (x ∷ xs) (y ∷ ys) = elim (compare x y) [
  | Ordering.lt ↦ Ordering.lt
  | Ordering.eq ↦ bytes_cmp xs ys
  | Ordering.gt ↦ Ordering.gt
]

pub bytes_cmp-eq : (a b : Bytes) → bytes_cmp a b ≡ Ordering.eq → a ≡ b
unfolding bytes_cmp
bytes_cmp-eq [] [] h = refl
bytes_cmp-eq [] (y ∷ ys) h = cc
bytes_cmp-eq (x ∷ xs) [] h = cc
bytes_cmp-eq (x ∷ xs) (y ∷ ys) h = ground (arith, bytes_cmp-eq xs ys)

pub bytes_cmp_refl : (a : Bytes) → bytes_cmp a a ≡ Ordering.eq
unfolding bytes_cmp
bytes_cmp_refl [] = refl
bytes_cmp_refl (x ∷ xs) = ground (arith, bytes_cmp_refl xs)

-- The order turned round.
pub bytes_cmp-gt : (a b : Bytes) → bytes_cmp a b ≡ Ordering.gt → bytes_cmp b a ≡ Ordering.lt
unfolding bytes_cmp
bytes_cmp-gt [] [] h = cc
bytes_cmp-gt [] (y ∷ ys) h = cc
bytes_cmp-gt (x ∷ xs) [] h = refl
bytes_cmp-gt (x ∷ xs) (y ∷ ys) h = ground (arith, bytes_cmp-gt xs ys)

pub bytes_cmp-lt : (a b : Bytes) → bytes_cmp a b ≡ Ordering.lt → bytes_cmp b a ≡ Ordering.gt
unfolding bytes_cmp
bytes_cmp-lt [] [] h = cc
bytes_cmp-lt [] (y ∷ ys) h = refl
bytes_cmp-lt (x ∷ xs) [] h = cc
bytes_cmp-lt (x ∷ xs) (y ∷ ys) h = ground (arith, bytes_cmp-lt xs ys)

pub bytes_cmp_trans :
    (a b c : Bytes)
    → bytes_cmp a b ≡ Ordering.lt
    → bytes_cmp b c ≡ Ordering.lt
    → bytes_cmp a c ≡ Ordering.lt
unfolding bytes_cmp
bytes_cmp_trans [] [] c h k = cc
bytes_cmp_trans [] (y ∷ ys) [] h k = cc
bytes_cmp_trans [] (y ∷ ys) (z ∷ zs) h k = refl
bytes_cmp_trans (x ∷ xs) [] c h k = cc
bytes_cmp_trans (x ∷ xs) (y ∷ ys) [] h k = cc
bytes_cmp_trans (x ∷ xs) (y ∷ ys) (z ∷ zs) h k = ground (arith, bytes_cmp_trans xs ys zs)
