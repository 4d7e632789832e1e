-- ===== src/Tests/Codec.antt =====
-- A small wire codec, for postcard at concrete types: it writes numbers as they are.
use mathlib.Core.List.{append_assoc}
use mathlib.Core.Path.{subst}
use regulatory_rule_engine.Prelude.{
  Bool, true, false, ℕ, zero, suc, ℤ, pos, negsuc, ◌≡◌, refl, sym, ap, ◌∙◌, String, Option, none,
  some, List, [], ◌∷◌, ◌++◌, Result, ok, err, ◌>>=◌, >>=-eq-ok, ok-injective, ◌==◌, String_eq,
  eq_of_beq, if◌then◌else◌,
}
use regulatory_rule_engine.Crypto.{Bytes, CodecError}

pub record Codec (A : Type 0) : Type 0 where
  pub write : A → Result Bytes CodecError
  pub read : Bytes → Result (A × Bytes) CodecError
  pub read-write :
      (a : A) {p : Bytes} (rest : Bytes) → write a ≡ ok p → read (p ++ rest) ≡ ok (a, rest)

abbrev read_number : Bytes → Result (ℕ × Bytes) CodecError
read_number [] = err "end of input"
read_number (n ∷ rest) = ok (n, rest)

abbrev pub number : Codec ℕ
number = record {
  write = λ n. ok (n ∷ []);
  read = read_number;
  read-write =
      λ n rest h. subst (λ p. read_number (p ++ rest) ≡ ok (n, rest)) (ok-injective h) refl;
}

-- One value, then the other.
abbrev pub pair : {A B : Type 0} → Codec A → Codec B → Codec (A × B)
pair {A} {B} c d = record {
  write = λ x. c.write x.0 >>= λ p. d.write x.1 >>= λ q. ok (p ++ q);
  read = λ bytes. c.read bytes >>= λ x. d.read x.1 >>= λ y. ok ((x.0, y.0), y.1);
  read-write = λ x {p = r} rest h.
      let (p, hp, h₁) = >>=-eq-ok (c.write x.0) _ h in
      let (q, hq, h₂) = >>=-eq-ok (d.write x.1) _ h₁ in
      let split : r ++ rest ≡ p ++ (q ++ rest) =
        ap (λ b. b ++ rest) (sym (ok-injective h₂)) ∙ append_assoc p q rest in
      rw (split, c.read-write x.0 (q ++ rest) hp, d.read-write x.1 rest hq) refl;
}

-- Values written as others.
abbrev pub via :
    {A B : Type 0} (to : A → Result B CodecError) (from : B → Result A CodecError)
    → ((a : A) (b : B) → to a ≡ ok b → from b ≡ ok a)
    → Codec B
    → Codec A
via to from back c = record {
  write = λ a. to a >>= c.write;
  read = λ bytes. c.read bytes >>= λ x. from x.0 >>= λ a. ok (a, x.1);
  read-write = λ a rest h.
      let (b, made, written) = >>=-eq-ok (to a) _ h in
      rw (c.read-write b rest written, back a b made) refl;
}

-- Values in a table, by their place in it.
abbrev pub nth : {A : Type 0} → List A → ℕ → Result A CodecError
nth [] n = err "no such entry"
nth (x ∷ xs) zero = ok x
nth (x ∷ xs) (suc n) = nth xs n

abbrev place : List String → String → Result ℕ CodecError
place [] s = err "unknown string"
place (x ∷ xs) s = let later = place xs s in if x == s then ok 0 else (later >>= λ n. ok (suc n))

pub nth-place : (xs : List String) (s : String) {n : ℕ} → place xs s ≡ ok n → nth xs n ≡ ok s
nth-place [] s h = cc
nth-place (x ∷ xs) s {n} h = by_test (λ m found. nth-place xs s found) (x == s) refl h
  where
    by_test :
        ((m : ℕ) → place xs s ≡ ok m → nth xs m ≡ ok s)
        → (b : Bool) → (x == s) ≡ b
        → (if b then ok 0 else (place xs s >>= λ k. ok (suc k))) ≡ ok n
        → nth (x ∷ xs) n ≡ ok s
    by_test earlier true e k =
        subst (λ m. nth (x ∷ xs) m ≡ ok s) (ok-injective k) (ap ok (eq_of_beq x s e))
    by_test earlier false e k =
        let (m, found, same) = >>=-eq-ok (place xs s) _ k in
        subst (λ j. nth (x ∷ xs) j ≡ ok s) (ok-injective same) (earlier m found)

abbrev pub one_of : List String → Codec String
one_of table = via (place table) (nth table) (λ s n h. nth-place table s h) number

abbrev pub coded :
    {A : Type 0} (to : A → ℕ) (table : List A) → ((a : A) → nth table (to a) ≡ ok a) → Codec A
coded to table back =
    via (λ a. ok (to a)) (nth table)
      (λ a m h. subst (λ n. nth table n ≡ ok a) (ok-injective h) (back a)) number

abbrev write_option : {A : Type 0} → Codec A → Option A → Result Bytes CodecError
write_option c none = ok (0 ∷ [])
write_option c (some a) = c.write a >>= λ p. ok (1 ∷ p)

abbrev read_option : {A : Type 0} → Codec A → Bytes → Result (Option A × Bytes) CodecError
read_option c [] = err "end of input"
read_option c (zero ∷ rest) = ok (none, rest)
read_option c (suc n ∷ rest) = c.read rest >>= λ x. ok (some x.0, x.1)

pub read_option-write_option :
    {A : Type 0} (c : Codec A) (o : Option A) {p : Bytes} (rest : Bytes)
    → write_option c o ≡ ok p
    → read_option c (p ++ rest) ≡ ok (o, rest)
read_option-write_option c none rest h =
    subst (λ p. read_option c (p ++ rest) ≡ ok (none, rest)) (ok-injective h) refl
read_option-write_option c (some a) rest h =
    let (p, written, same) = >>=-eq-ok (c.write a) _ h in
    subst (λ q. read_option c (q ++ rest) ≡ ok (some a, rest)) (ok-injective same)
      (rw (c.read-write a rest written) refl)

abbrev pub option : {A : Type 0} → Codec A → Codec (Option A)
option c = record {
  write = write_option c;
  read = read_option c;
  read-write = read_option-write_option c;
}

-- Numbers, each behind a 1, and a 0 at the end.
abbrev write_numbers : List ℕ → Bytes
write_numbers [] = 0 ∷ []
write_numbers (x ∷ xs) = 1 ∷ x ∷ write_numbers xs

abbrev read_numbers : Bytes → Result (List ℕ × Bytes) CodecError
read_numbers [] = err "end of input"
read_numbers (zero ∷ rest) = ok ([], rest)
read_numbers (suc n ∷ []) = err "end of input"
read_numbers (suc n ∷ x ∷ rest) = read_numbers rest >>= λ y. ok (x ∷ y.0, y.1)

pub read_numbers-write_numbers :
    (xs rest : List ℕ) → read_numbers (write_numbers xs ++ rest) ≡ ok (xs, rest)
read_numbers-write_numbers [] rest = refl
read_numbers-write_numbers (x ∷ xs) rest = rw (read_numbers-write_numbers xs rest) refl

abbrev pub numbers : Codec (List ℕ)
numbers = record {
  write = λ xs. ok (write_numbers xs);
  read = read_numbers;
  read-write = λ xs rest h.
      subst (λ p. read_numbers (p ++ rest) ≡ ok (xs, rest)) (ok-injective h)
        (read_numbers-write_numbers xs rest);
}

-- Values of one shape; the others do not encode.
abbrev write_nothing : {A : Type 0} → Option A → Result Bytes CodecError
write_nothing none = ok []
write_nothing (some a) = err "not supported"

pub read_nothing-write_nothing :
    {A : Type 0} (o : Option A) {p : Bytes} (rest : Bytes)
    → write_nothing o ≡ ok p
    → ◌≡◌ {A = Result (Option A × Bytes) CodecError} (ok (none, p ++ rest)) (ok (o, rest))
read_nothing-write_nothing {A} none rest h =
    subst
      (λ p. ◌≡◌ {A = Result (Option A × Bytes) CodecError} (ok (none, p ++ rest)) (ok (none, rest)))
      (ok-injective h) refl
read_nothing-write_nothing (some a) rest h = cc

abbrev pub nothing : {A : Type 0} → Codec (Option A)
nothing = record {
  write = write_nothing;
  read = λ bytes. ok (none, bytes);
  read-write = read_nothing-write_nothing;
}

abbrev no_element : {A : Type 0} → List A → Result (Option A) CodecError
no_element [] = ok none
no_element (x ∷ xs) = err "not supported"

pub no_element-eq-ok :
    {A : Type 0} (xs : List A) (o : Option A)
    → no_element xs ≡ ok o
    → ◌≡◌ {A = Result (List A) CodecError} (ok []) (ok xs)
no_element-eq-ok [] o h = refl
no_element-eq-ok (x ∷ xs) o h = cc

abbrev pub no_elements : {A : Type 0} → Codec (List A)
no_elements = via no_element (λ o. ok []) no_element-eq-ok nothing

abbrev couple : {A : Type 0} → List A → Result (A × A) CodecError
couple (a ∷ b ∷ []) = ok (a, b)
couple _ = err "not supported"

pub couple-eq-ok :
    {A : Type 0} (xs : List A) (x : A × A)
    → couple xs ≡ ok x
    → ◌≡◌ {A = Result (List A) CodecError} (ok (x.0 ∷ x.1 ∷ [])) (ok xs)
couple-eq-ok [] x h = cc
couple-eq-ok (a ∷ []) x h = cc
couple-eq-ok {A} (a ∷ b ∷ []) x h =
    subst (λ y. ◌≡◌ {A = Result (List A) CodecError} (ok (y.0 ∷ y.1 ∷ [])) (ok (a ∷ b ∷ [])))
      (ok-injective h) refl
couple-eq-ok (a ∷ b ∷ c ∷ xs) x h = cc

abbrev pub two_elements : {A : Type 0} → Codec A → Codec (List A)
two_elements c = via couple (λ x. ok (x.0 ∷ x.1 ∷ [])) couple-eq-ok (pair c c)

-- A type that is another one in other words.
abbrev pub renamed :
    {A B : Type 0} (to : A → B) (from : B → A) → ((a : A) → from (to a) ≡ a) → Codec B → Codec A
renamed to from back =
    via (λ a. ok (to a)) (λ b. ok (from b))
      (λ a b h. ap ok (ap from (sym (ok-injective h)) ∙ back a))

abbrev sign_and_size : ℤ → ℕ × ℕ
sign_and_size (pos n) = (0, n)
sign_and_size (negsuc n) = (1, n)

abbrev of_sign : ℕ × ℕ → ℤ
of_sign (zero, n) = pos n
of_sign (suc m, n) = negsuc n

pub of_sign-sign_and_size : (n : ℤ) → of_sign (sign_and_size n) ≡ n
of_sign-sign_and_size (pos n) = refl
of_sign-sign_and_size (negsuc n) = refl

abbrev pub integer : Codec ℤ
integer = renamed sign_and_size of_sign of_sign-sign_and_size (pair number number)
