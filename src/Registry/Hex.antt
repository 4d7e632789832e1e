-- ===== src/Registry/Hex.antt =====
-- Hashes as hexadecimal text (`hex32` and `hex_to_hash` of crates/ke-cli/src/registry/backend.rs).
use Prim.Native.Char.{Char, code, len_utf8}
use Prim.Native.String.len
use Prim.Native.String.{◌∷◌ as str_cons, [] as str_nil, char_at, len}
use regulatory_rule_engine.Prelude.{
  ℕ, zero, suc, ◌+◌, ◌-◌, ◌*◌, ◌/◌, ◌%◌, ◌<◌, false, ◌≡◌, refl, leb, nat_eq, ◌&&◌, String, Option,
  none, some, List, [], ◌∷◌, length, All, Result, ok, err, ok_or, if◌then◌else◌, arith,
}
use regulatory_rule_engine.Ir.{Hash}
use regulatory_rule_engine.Registry.Error.{RegistryError, bad_hash_hex}

unfoldable pub hex_digit : ℕ → Char
hex_digit n = char_at "0123456789abcdef" n

-- `{b:02x}` of each byte.
unfoldable pub hex32 : List ℕ → String
unfolding hex_digit
hex32 [] = ""
hex32 (b ∷ bs) = str_cons (hex_digit (b / 16)) (str_cons (hex_digit (b % 16)) (hex32 bs))

within : ℕ → ℕ → ℕ → ℕ → Option ℕ → Option ℕ
within k first last zero_at other = if leb first k && leb k last then some (k - zero_at) else other

-- A hexadecimal digit of either case.
unfoldable pub hex_value : Char → Option ℕ
unfolding within
hex_value c = within (code c) 48 57 48 (within (code c) 97 102 87 (within (code c) 65 70 55 none))

two_digits : Option ℕ → Option ℕ → Option ℕ
two_digits (some high) (some low) = some (16 * high + low)
two_digits _ _ = none

-- `u8::from_str_radix(_, 16)` on two characters, the first of which may be a plus sign.
unfoldable pub hex_byte : Char → Char → Option ℕ
unfolding hex_value two_digits
hex_byte c d = if nat_eq (code c) 43 then hex_value d else two_digits (hex_value c) (hex_value d)

prepend : Option ℕ → Option Hash → Option Hash
prepend (some b) (some bs) = some (b ∷ bs)
prepend _ _ = none

-- The loop over the pairs. Where a pair of bytes cuts a character the source panics; here the text is
-- refused.
unfoldable pub hex_pairs : String → Option Hash
unfolding hex_byte prepend
hex_pairs str_nil = some []
hex_pairs (str_cons c str_nil) = none
hex_pairs (str_cons c (str_cons d s)) = prepend (hex_byte c d) (hex_pairs s)

unfoldable pub hex_to_hash : String → Result Hash RegistryError
unfolding hex_pairs
hex_to_hash hex =
    if nat_eq (len hex) 64 then ok_or (bad_hash_hex hex) (hex_pairs hex) else err (bad_hash_hex hex)

hex_digit_lem :
    (n : ℕ)
    → n < 16
    → (hex_value (hex_digit n) ≡ some n)
      × ((len_utf8 (hex_digit n) ≡ 1) × (nat_eq (code (hex_digit n)) 43 ≡ false))
unfolding hex_digit hex_value
hex_digit_lem zero h = (refl, (refl, refl))
hex_digit_lem (suc zero) h = (refl, (refl, refl))
hex_digit_lem (suc (suc zero)) h = (refl, (refl, refl))
hex_digit_lem (suc (suc (suc zero))) h = (refl, (refl, refl))
hex_digit_lem (suc (suc (suc (suc zero)))) h = (refl, (refl, refl))
hex_digit_lem (suc (suc (suc (suc (suc zero))))) h = (refl, (refl, refl))
hex_digit_lem (suc (suc (suc (suc (suc (suc zero)))))) h = (refl, (refl, refl))
hex_digit_lem (suc (suc (suc (suc (suc (suc (suc zero))))))) h = (refl, (refl, refl))
hex_digit_lem (suc (suc (suc (suc (suc (suc (suc (suc zero)))))))) h = (refl, (refl, refl))
hex_digit_lem (suc (suc (suc (suc (suc (suc (suc (suc (suc zero))))))))) h = (refl, (refl, refl))
hex_digit_lem (suc (suc (suc (suc (suc (suc (suc (suc (suc (suc zero)))))))))) h =
    (refl, (refl, refl))
hex_digit_lem (suc (suc (suc (suc (suc (suc (suc (suc (suc (suc (suc zero))))))))))) h =
    (refl, (refl, refl))
hex_digit_lem (suc (suc (suc (suc (suc (suc (suc (suc (suc (suc (suc (suc zero)))))))))))) h =
    (refl, (refl, refl))
hex_digit_lem (suc (suc (suc (suc (suc (suc (suc (suc (suc (suc (suc (suc (suc zero))))))))))))) h =
    (refl, (refl, refl))
hex_digit_lem
      (suc (suc (suc (suc (suc (suc (suc (suc (suc (suc (suc (suc (suc (suc zero)))))))))))))) h =
    (refl, (refl, refl))
hex_digit_lem
      (suc (suc (suc (suc (suc (suc (suc (suc (suc (suc (suc (suc (suc (suc (suc zero)))))))))))))))
      h =
    (refl, (refl, refl))
hex_digit_lem
      (suc
        (suc (suc (suc (suc (suc (suc (suc (suc (suc (suc (suc (suc (suc (suc (suc n))))))))))))))))
      h =
    absurd (omega (arith, h))

hex_byte_lem : (b : ℕ) → b < 256 → hex_byte (hex_digit (b / 16)) (hex_digit (b % 16)) ≡ some b
unfolding hex_byte
hex_byte_lem b h =
    let high = hex_digit_lem (b / 16) (omega (arith, h)) in
    let low = hex_digit_lem (b % 16) (omega arith) in
    let whole : 16 * (b / 16) + b % 16 ≡ b = omega arith in rw (high.1.1, high.0, low.0, whole) refl

hex_pairs-hex32 : (h : Hash) → All (λ b. b < 256) h → hex_pairs (hex32 h) ≡ some h
unfolding hex_pairs hex32
hex_pairs-hex32 [] bounds = refl
hex_pairs-hex32 (b ∷ bs) bounds = rw (hex_byte_lem b bounds.0, hex_pairs-hex32 bs bounds.1) refl

len-hex32 : (h : Hash) → All (λ b. b < 256) h → len (hex32 h) ≡ 2 * length h
unfolding hex32
len-hex32 [] bounds = refl
len-hex32 (b ∷ bs) bounds =
    let high = (hex_digit_lem (b / 16) (omega (arith, bounds.0))).1.0 in
    let low = (hex_digit_lem (b % 16) (omega arith)).1.0 in
    let outer = len.cons (hex_digit (b / 16)) (str_cons (hex_digit (b % 16)) (hex32 bs)) in
    let inner = len.cons (hex_digit (b % 16)) (hex32 bs) in
    omega (arith, outer, inner, high, low, len-hex32 bs bounds.1)

-- The text of a hash of 32 bytes is read back as that hash.
pub hex_to_hash-hex32 :
    (h : Hash) → length h ≡ 32 → All (λ b. b < 256) h → hex_to_hash (hex32 h) ≡ ok h
unfolding hex_to_hash
hex_to_hash-hex32 h long bounds =
    let n : len (hex32 h) ≡ 64 = omega (arith, len-hex32 h bounds, long) in
    rw (n, hex_pairs-hex32 h bounds) refl
