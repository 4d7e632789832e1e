-- ===== src/Canonical/Set/Sorted.antt =====
-- Normalised sets pass the decoder's check, hold the same elements, and are left alone.
use Prim.Native.Nat.{Ordering}
use mathlib.Core.List.{Permᴰ}
use mathlib.Core.List.Permᴰ
use mathlib.Core.Path.{subst}
use regulatory_rule_engine.Prelude.{
  false, Option, none, some, List, [], ◌∷◌, if◌then◌else◌, Result, ok, err, ◌>>=◌, map_err, ◌≡◌,
  refl, sym, ap, ◌∙◌, arith, All, >>=-eq-ok, ok-injective, map_err-eq-ok, ◌↔◌, Bool-cases, inl, inr,
  ◌⊎◌,
}
use regulatory_rule_engine.Crypto.{Bytes, CodecError}
use regulatory_rule_engine.Canonical.Error.{CanonicalError, CanonicalDecodeError}
use regulatory_rule_engine.Canonical.Bytewise.{bytes_cmp, bytes_cmp-gt, bytes_cmp-lt}
use regulatory_rule_engine.Canonical.Set.{
  Keyed, with_keys, insert_keyed, sort_keyed, has_duplicate, items, canonicalize_set, after_prev,
  check_from, check_set_canonical,
}

module _ {T : Type 0} where
  abbrev NotAfter : Keyed T → Keyed T → Type 0
  NotAfter x y = (bytes_cmp x.0 y.0 ≡ Ordering.lt) ⊎ (bytes_cmp x.0 y.0 ≡ Ordering.eq)

  -- Adjacent keys never fall.
  abbrev Sorted : List (Keyed T) → Type 0
  Sorted [] = Unit
  Sorted (x ∷ []) = Unit
  Sorted (x ∷ y ∷ ys) = NotAfter x y × Sorted (y ∷ ys)

  -- Adjacent keys rise.
  abbrev pub Ascending : List (Keyed T) → Type 0
  Ascending [] = Unit
  Ascending (x ∷ []) = Unit
  Ascending (x ∷ y ∷ ys) = (bytes_cmp x.0 y.0 ≡ Ordering.lt) × Ascending (y ∷ ys)

  insert_keyed-Sorted : (x : Keyed T) (ys : List (Keyed T)) → Sorted ys → Sorted (insert_keyed x ys)
  unfolding insert_keyed
  insert_keyed-Sorted x [] h = tt
  insert_keyed-Sorted x (y ∷ []) h = ground (arith, bytes_cmp-gt x.0 y.0)
  insert_keyed-Sorted x (y ∷ z ∷ zs) h =
      ground (arith, bytes_cmp-gt x.0 y.0, insert_keyed-Sorted x (z ∷ zs) h.1)

  sort_keyed-Sorted : (xs : List (Keyed T)) → Sorted (sort_keyed xs)
  unfolding sort_keyed
  sort_keyed-Sorted [] = tt
  sort_keyed-Sorted (x ∷ xs) = insert_keyed-Sorted x (sort_keyed xs) (sort_keyed-Sorted xs)

  Sorted-Ascending : (xs : List (Keyed T)) → Sorted xs → has_duplicate xs ≡ false → Ascending xs
  unfolding has_duplicate
  Sorted-Ascending [] h d = tt
  Sorted-Ascending (x ∷ []) h d = tt
  Sorted-Ascending (x ∷ y ∷ ys) h d = ground (arith, Sorted-Ascending (y ∷ ys) h.1)

  Ascending-has_duplicate : (xs : List (Keyed T)) → Ascending xs → has_duplicate xs ≡ false
  unfolding has_duplicate
  Ascending-has_duplicate [] h = refl
  Ascending-has_duplicate (x ∷ []) h = refl
  Ascending-has_duplicate (x ∷ y ∷ ys) h = ground (arith, Ascending-has_duplicate (y ∷ ys) h.1)

  Ascending-tail : (x : Keyed T) (xs : List (Keyed T)) → Ascending (x ∷ xs) → Ascending xs
  Ascending-tail x [] h = tt
  Ascending-tail x (y ∷ ys) h = h.1

  insert_keyed-Ascending :
      (x : Keyed T) (xs : List (Keyed T)) → Ascending (x ∷ xs) → insert_keyed x xs ≡ x ∷ xs
  unfolding insert_keyed
  insert_keyed-Ascending x [] h = refl
  insert_keyed-Ascending x (y ∷ ys) h = ground arith

  sort_keyed-Ascending : (xs : List (Keyed T)) → Ascending xs → sort_keyed xs ≡ xs
  unfolding sort_keyed
  sort_keyed-Ascending [] h = refl
  sort_keyed-Ascending (x ∷ xs) h =
      ap (insert_keyed x) (sort_keyed-Ascending xs (Ascending-tail x xs h))
      ∙ insert_keyed-Ascending x xs h

  insert_keyed-perm : (x : Keyed T) (ys : List (Keyed T)) → Permᴰ (insert_keyed x ys) (x ∷ ys)
  unfolding insert_keyed
  insert_keyed-perm x [] = Permᴰ.refl (x ∷ [])
  insert_keyed-perm x (y ∷ ys) =
      elim (bytes_cmp x.0 y.0)
        as (λ o.
          Permᴰ (elim o [ Ordering.gt ↦ y ∷ insert_keyed x ys | _ ↦ x ∷ y ∷ ys ]) (x ∷ y ∷ ys)) [
            | Ordering.lt ↦ Permᴰ.refl (x ∷ y ∷ ys)
            | Ordering.eq ↦ Permᴰ.refl (x ∷ y ∷ ys)
            | Ordering.gt ↦
                Permᴰ.trans (Permᴰ.cons refl (insert_keyed-perm x ys)) (Permᴰ.swap refl refl)
          ]

  sort_keyed-perm : (xs : List (Keyed T)) → Permᴰ (sort_keyed xs) xs
  unfolding sort_keyed
  sort_keyed-perm [] = Permᴰ.refl []
  sort_keyed-perm (x ∷ xs) =
      Permᴰ.trans (insert_keyed-perm x (sort_keyed xs)) (Permᴰ.cons refl (sort_keyed-perm xs))

  items-perm : {xs ys : List (Keyed T)} → Permᴰ xs ys → Permᴰ (items xs) (items ys)
  items-perm Permᴰ.nil = Permᴰ.nil
  items-perm (Permᴰ.cons e p) = Permᴰ.cons (ap (λ k. k.1) e) (items-perm p)
  items-perm (Permᴰ.swap e f) = Permᴰ.swap (ap (λ k. k.1) e) (ap (λ k. k.1) f)
  items-perm (Permᴰ.trans p q) = Permᴰ.trans (items-perm p) (items-perm q)

module _ {T : Type 0} (to_stdvec : T → Result Bytes CodecError) where
  abbrev HasKey : Keyed T → Type 0
  HasKey k = to_stdvec k.1 ≡ ok k.0

  All-perm : {xs ys : List (Keyed T)} → Permᴰ xs ys → All HasKey ys → All HasKey xs
  All-perm Permᴰ.nil h = h
  All-perm (Permᴰ.cons e p) h = (subst HasKey (sym e) h.0, All-perm p h.1)
  All-perm (Permᴰ.swap e f) h = (subst HasKey (sym e) h.1.0, (subst HasKey (sym f) h.0, h.1.1))
  All-perm (Permᴰ.trans p q) h = All-perm p (All-perm q h)

  with_keys-eq-ok :
      (xs : List T) {ks : List (Keyed T)}
      → with_keys to_stdvec xs ≡ ok ks
      → (items ks ≡ xs) × All HasKey ks
  unfolding with_keys
  with_keys-eq-ok [] h = subst (λ ks. (items ks ≡ []) × All HasKey ks) (ok-injective h) (refl, tt)
  with_keys-eq-ok (x ∷ xs) {ks} h =
      let (key, made, h₁) = >>=-eq-ok (map_err CanonicalError.codec (to_stdvec x)) _ h in
      let (rest, made', h₂) = >>=-eq-ok (with_keys to_stdvec xs) _ h₁ in
      let (same, keyed) = with_keys-eq-ok xs made' in
      subst (λ l. (items l ≡ x ∷ xs) × All HasKey l) (ok-injective h₂)
        (ap (λ l. x ∷ l) same, (map_err-eq-ok _ (to_stdvec x) made, keyed))

  with_keys-items : (ks : List (Keyed T)) → All HasKey ks → with_keys to_stdvec (items ks) ≡ ok ks
  unfolding with_keys
  with_keys-items [] h = refl
  with_keys-items (k ∷ ks) h = rw (h.0, with_keys-items ks h.1) refl

  abbrev AfterPrev : Option Bytes → List (Keyed T) → Type 0
  AfterPrev none ks = Unit
  AfterPrev (some p) [] = Unit
  AfterPrev (some p) (k ∷ ks) = bytes_cmp p k.0 ≡ Ordering.lt

  after_prev_iff :
      (prev : Option Bytes) (k : Keyed T) (ks : List (Keyed T))
      → (after_prev to_stdvec prev k.0 ≡ ok tt) ↔ AfterPrev prev (k ∷ ks)
  unfolding after_prev
  after_prev_iff none k ks = (λ h. tt, λ h. refl)
  after_prev_iff (some p) k ks =
      (λ h. bytes_cmp-gt k.0 p (ground arith), λ h. rw (bytes_cmp-lt p k.0 h, after_prev) refl)

  Ascending-cons :
      (k : Keyed T) (ks : List (Keyed T))
      → AfterPrev (some k.0) ks
      → Ascending ks
      → Ascending (k ∷ ks)
  Ascending-cons k [] p h = tt
  Ascending-cons k (l ∷ ks) p h = (p, h)

  Ascending-head :
      (k : Keyed T) (ks : List (Keyed T)) → Ascending (k ∷ ks) → AfterPrev (some k.0) ks
  Ascending-head k [] h = tt
  Ascending-head k (l ∷ ks) h = h.0

  check_from_complete :
      (prev : Option Bytes) (ks : List (Keyed T))
      → All HasKey ks
      → AfterPrev prev ks
      → Ascending ks
      → check_from to_stdvec prev (items ks) ≡ ok tt
  unfolding check_from
  check_from_complete prev [] h p a = refl
  check_from_complete prev (k ∷ ks) h p a =
      rw (h.0, (after_prev_iff prev k ks).1 p)
        (check_from_complete (some k.0) ks h.1 (Ascending-head k ks a) (Ascending-tail k ks a))

  check_from_sound :
      (prev : Option Bytes) (xs : List T)
      → check_from to_stdvec prev xs ≡ ok tt
      → (ks : List (Keyed T)) × (items ks ≡ xs) × All HasKey ks × AfterPrev prev ks × Ascending ks
  unfolding check_from
  check_from_sound none [] h = ([], refl, tt, tt, tt)
  check_from_sound (some p) [] h = ([], refl, tt, tt, tt)
  check_from_sound prev (x ∷ xs) h =
      let (key, made, h₁) = >>=-eq-ok (map_err CanonicalDecodeError.codec (to_stdvec x)) _ h in
      let (u, after, h₂) = >>=-eq-ok (after_prev to_stdvec prev key) _ h₁ in
      let (ks, same, keyed, below, rising) = check_from_sound (some key) xs h₂ in
      (
        (key, x) ∷ ks,
        ap (λ l. x ∷ l) same,
        (map_err-eq-ok _ (to_stdvec x) made, keyed),
        (after_prev_iff prev (key, x) ks).0 after,
        Ascending-cons (key, x) ks below rising,
      )

  -- What `canonicalize_set` returns holds the same elements, as often, and passes the decoder's
  -- check: it is in the order of the encoded bytes, with no element twice.
  pub canonicalize_set_sound :
      (xs : List T) {ys : List T}
      → canonicalize_set to_stdvec xs ≡ ok ys
      → Permᴰ ys xs × (check_set_canonical to_stdvec ys ≡ ok tt)
  unfolding canonicalize_set check_set_canonical
  canonicalize_set_sound xs {ys} h =
      let (ks, made, h₁) = >>=-eq-ok (with_keys to_stdvec xs) _ h in
      let (same, keyed) = with_keys-eq-ok xs made in
      let sorted = sort_keyed ks in
      elim (Bool-cases (has_duplicate sorted)) [
        | inl twice ↦ cc (rw twice at h₁)
        | inr once ↦
            let result : items sorted ≡ ys = ok-injective (rw once at h₁) in
            subst (λ l. Permᴰ l xs × (check_from to_stdvec none l ≡ ok tt)) result
              (
                subst (Permᴰ (items sorted)) same (items-perm (sort_keyed-perm ks)),
                check_from_complete none sorted (All-perm (sort_keyed-perm ks) keyed) tt
                    (Sorted-Ascending sorted (sort_keyed-Sorted ks) once),
              )
      ]

  -- A sequence that passes the decoder's check is left as it is.
  pub canonicalize_set_fixed :
      (xs : List T)
      → check_set_canonical to_stdvec xs ≡ ok tt
      → canonicalize_set to_stdvec xs ≡ ok xs
  unfolding canonicalize_set check_set_canonical
  canonicalize_set_fixed xs h =
      let (ks, same, keyed, p, a) = check_from_sound none xs h in
      subst
        (λ l.
          (with_keys to_stdvec l >>= λ keyed.
          if has_duplicate (sort_keyed keyed)
          then err CanonicalError.duplicate_set_element
          else ok (items (sort_keyed keyed)))
          ≡ ok l)
        same
        (rw (with_keys-items ks keyed, sort_keyed-Ascending ks a, Ascending-has_duplicate ks a)
          refl)
