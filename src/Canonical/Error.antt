-- ===== src/Canonical/Error.antt =====
-- The errors of both directions (crates/ke-core/src/canonical/mod.rs).
use regulatory_rule_engine.Prelude.{ℕ, ℤ, String}
use regulatory_rule_engine.Crypto.{CodecError}

pub data CanonicalError : Type 0 where
  codec : CodecError → CanonicalError
  non_nfc_string : (value : String) → CanonicalError
  invalid_date : (year : ℤ) (month day : ℕ) → CanonicalError
  unknown_time_zone : String → CanonicalError
  decimal_overflow : (mantissa scale : ℤ) → CanonicalError
  duplicate_set_element : CanonicalError

pub data CanonicalDecodeError : Type 0 where
  codec : CodecError → CanonicalDecodeError
  trailing_bytes : CanonicalDecodeError
  unsorted_set : CanonicalDecodeError
  duplicate_set_element : CanonicalDecodeError
  non_nfc_string : CanonicalDecodeError
  invalid_date : (year : ℤ) (month day : ℕ) → CanonicalDecodeError
  unknown_time_zone : String → CanonicalDecodeError
  non_canonical_decimal : (mantissa scale : ℤ) → CanonicalDecodeError
