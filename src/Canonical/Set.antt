-- ===== src/Canonical/Set.antt =====
-- Sequences that stand for sets: sorted by encoded bytes, with no duplicate (`canonicalize_set`,
-- `check_set_canonical` of crates/ke-core/src/canonical/ordering.rs).
pub mod Sorted
use Prim.Native.Nat.{Ordering}
use regulatory_rule_engine.Prelude.{
  Bool, true, false, Option, none, some, List, [], ◌∷◌, map, if◌then◌else◌, Result, ok, err, ◌>>=◌,
  ◌>>◌, map_err,
}
use regulatory_rule_engine.Crypto.{Bytes, CodecError}
use regulatory_rule_engine.Canonical.Error.{CanonicalError, CanonicalDecodeError, unsorted_set}
use regulatory_rule_engine.Canonical.Bytewise.{bytes_cmp}

-- An item with its key, its postcard bytes.
abbrev pub Keyed : Type 0 → Type 0
Keyed T = Bytes × T

module _ {T : Type 0} (to_stdvec : T → Result Bytes CodecError) where
  unfoldable pub with_keys : List T → Result (List (Keyed T)) CanonicalError
  with_keys [] = ok []
  with_keys (x ∷ xs) = do
    key ← map_err CanonicalError.codec (to_stdvec x)
    rest ← with_keys xs
    ok ((key, x) ∷ rest)

module _ {T : Type 0} where
  -- `sort_by` is a stable sort: here insertion before the first larger or equal key, from the end.
  unfoldable pub insert_keyed : Keyed T → List (Keyed T) → List (Keyed T)
  insert_keyed x [] = x ∷ []
  insert_keyed x (y ∷ ys) =
      let later = insert_keyed x ys in
      elim (bytes_cmp x.0 y.0) [ Ordering.gt ↦ y ∷ later | _ ↦ x ∷ y ∷ ys ]

  unfoldable pub sort_keyed : List (Keyed T) → List (Keyed T)
  sort_keyed [] = []
  sort_keyed (x ∷ xs) = insert_keyed x (sort_keyed xs)

  -- `windows(2)` with equal keys.
  unfoldable pub has_duplicate : List (Keyed T) → Bool
  has_duplicate [] = false
  has_duplicate (x ∷ []) = false
  has_duplicate (x ∷ y ∷ ys) =
      let rest = has_duplicate (y ∷ ys) in
      elim (bytes_cmp x.0 y.0) [ Ordering.eq ↦ true | _ ↦ rest ]

  abbrev pub items : List (Keyed T) → List T
  items [] = []
  items (x ∷ xs) = x.1 ∷ items xs

module _ {T : Type 0} (to_stdvec : T → Result Bytes CodecError) where
  unfoldable pub canonicalize_set : List T → Result (List T) CanonicalError
  canonicalize_set xs = do
    keyed ← with_keys to_stdvec xs
    if has_duplicate (sort_keyed keyed)
        then err CanonicalError.duplicate_set_element
        else ok (items (sort_keyed keyed))

  -- The test of a key against the one before it.
  unfoldable pub after_prev : Option Bytes → Bytes → Result (Unit {0}) CanonicalDecodeError
  after_prev none key = ok tt
  after_prev (some p) key = elim (bytes_cmp key p) [
    | Ordering.lt ↦ err unsorted_set
    | Ordering.eq ↦ err CanonicalDecodeError.duplicate_set_element
    | Ordering.gt ↦ ok tt
  ]

  unfoldable pub check_from : Option Bytes → List T → Result (Unit {0}) CanonicalDecodeError
  unfolding after_prev
  check_from prev [] = ok tt
  check_from prev (x ∷ xs) = do
    key ← map_err CanonicalDecodeError.codec (to_stdvec x)
    after_prev prev key
    check_from (some key) xs

  unfoldable pub check_set_canonical : List T → Result (Unit {0}) CanonicalDecodeError
  unfolding check_from
  check_set_canonical xs = check_from none xs
