-- ===== src/Canonical/Ordering.antt =====
-- The crates that the encoding calls, and the checks on single values that both directions share
-- (crates/ke-core/src/canonical/ordering.rs).
use regulatory_rule_engine.Prelude.{
  String, Bool, List, [], ◌∷◌, Option, none, some, Result, ok, err, ◌>>◌, if◌then◌else◌, contains,
  String_eq,
}
use regulatory_rule_engine.Crypto.{Bytes, CodecError, Postcard}
use regulatory_rule_engine.Ir.{RuleIr, JurisdictionDate, is_structurally_valid}
use regulatory_rule_engine.Manifest.{AttestationType, AttestationCount, PolicyBundle, Manifest}
use regulatory_rule_engine.Canonical.Error.{CanonicalError, CanonicalDecodeError}

-- `unicode_normalization::is_nfc`, and postcard at the types that are encoded.
pub record CanonicalCrates : Type 0 where
  pub is_nfc : String → Bool
  pub tag_to_stdvec : String → Result Bytes CodecError
  pub type_to_stdvec : AttestationType → Result Bytes CodecError
  pub count_to_stdvec : AttestationCount → Result Bytes CodecError
  pub rule : Postcard RuleIr
  pub policy : Postcard PolicyBundle
  pub manifest : Postcard Manifest

abbrev pub known_time_zones : List String
known_time_zones =
    "UTC" ∷ "Europe/Brussels" ∷ "Europe/Berlin" ∷ "Europe/London" ∷ "Europe/Zurich"
    ∷ "Asia/Singapore" ∷ "America/New_York" ∷ []

-- The test of a date is the same expression as in `is_structurally_valid`.
unfoldable pub ensure_date : JurisdictionDate → Result (Unit {0}) CanonicalError
ensure_date d =
    if is_structurally_valid d
    then ok tt
    else err (CanonicalError.invalid_date d.year d.month d.day)

unfoldable pub check_date : JurisdictionDate → Result (Unit {0}) CanonicalDecodeError
check_date d =
    if is_structurally_valid d
    then ok tt
    else err (CanonicalDecodeError.invalid_date d.year d.month d.day)

unfoldable pub ensure_known_tz : String → Result (Unit {0}) CanonicalError
ensure_known_tz name =
    if contains known_time_zones name then ok tt else err (CanonicalError.unknown_time_zone name)

unfoldable pub check_known_tz : String → Result (Unit {0}) CanonicalDecodeError
check_known_tz name =
    if contains known_time_zones name
    then ok tt
    else err (CanonicalDecodeError.unknown_time_zone name)

module _ (c : CanonicalCrates) where
  unfoldable pub ensure_nfc : String → Result (Unit {0}) CanonicalError
  ensure_nfc s = if c.is_nfc s then ok tt else err (CanonicalError.non_nfc_string s)

  unfoldable pub check_nfc : String → Result (Unit {0}) CanonicalDecodeError
  check_nfc s = if c.is_nfc s then ok tt else err CanonicalDecodeError.non_nfc_string

-- `if let Some(x) = &o { f(x)?; }`
module _ {A E : Type 0} where
  abbrev pub when_some : (A → Result (Unit {0}) E) → Option A → Result (Unit {0}) E
  when_some f none = ok tt
  when_some f (some a) = f a

  -- `for x in xs { f(x)?; }`
  abbrev pub for_each : (A → Result (Unit {0}) E) → List A → Result (Unit {0}) E
  for_each f [] = ok tt
  for_each f (x ∷ xs) = f x >> for_each f xs
