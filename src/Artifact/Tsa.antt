-- ===== src/Artifact/Tsa.antt =====
-- Timestamp tokens and the class that a token re-derives to (crates/ke-artifact/src/tsa.rs).
use regulatory_rule_engine.Prelude.{
  ℕ, zero, suc, ◌/◌, ◌%◌, refl, String, Bool, true, false, Option, none, some, [], ◌∷◌, ◌++◌, ◌≡◌,
  length, nat_eq, ◌&&◌, if◌then◌else◌, Result, ok, err, arith,
}
use regulatory_rule_engine.Ir.{Hash}
use regulatory_rule_engine.Crypto.{Bytes, Ed25519, VerifyingKey}

pub data TimestampAuthorityClass : Type 0 where
  rfc3161_external : (tsa_identity : String) → TimestampAuthorityClass
  rfc3161_internal : (tsa_identity : String) → TimestampAuthorityClass
  mock : TimestampAuthorityClass

pub record TimestampToken : Type 0 where
  pub class : TimestampAuthorityClass
  pub token : Bytes
  pub claimed_time_unix : ℕ

pub data TsaError : Type 0 where
  unsupported : TimestampAuthorityClass → TsaError
  class_mismatch : TsaError

abbrev pub mock_tsa_public_key : Hash
mock_tsa_public_key =
    0x09 ∷ 0x57 ∷ 0xc8 ∷ 0x3d ∷ 0x33 ∷ 0xc4 ∷ 0xe4 ∷ 0xe7 ∷ 0xc1 ∷ 0x3b ∷ 0x3c ∷ 0x8f ∷ 0x52 ∷ 0x24
    ∷ 0xe8 ∷ 0xa6 ∷ 0x99 ∷ 0x94 ∷ 0xae ∷ 0x46 ∷ 0xe3 ∷ 0xb2 ∷ 0xea ∷ 0x31 ∷ 0xed ∷ 0x8a ∷ 0x47
    ∷ 0x86 ∷ 0xd7 ∷ 0x50 ∷ 0x82 ∷ 0x21 ∷ []

unfoldable pub class_discriminant : TimestampAuthorityClass → ℕ
class_discriminant (rfc3161_external _) = 0
class_discriminant (rfc3161_internal _) = 1
class_discriminant mock = 2

-- `to_le_bytes` of a number, as that many bytes.
unfoldable pub le_bytes : ℕ → ℕ → Bytes
le_bytes zero n = []
le_bytes (suc k) n = n % 256 ∷ le_bytes k (n / 256)

-- The 41 bytes: the class, the stamped hash, the claimed time.
unfoldable pub mock_message : Hash → ℕ → Bytes
unfolding class_discriminant le_bytes
mock_message payload_hash claimed_time_unix =
    class_discriminant mock ∷ (payload_hash ++ le_bytes 8 claimed_time_unix)

module _ (e : Ed25519) where
  -- Whether the parsed key, if there is one, accepts the token.
  accepts : Option VerifyingKey → Bytes → Bytes → Bool
  accepts none msg sig = false
  accepts (some verify) msg sig = verify msg sig

  unfoldable pub verifies_as_mock : TimestampToken → Hash → Bool
  unfolding accepts
  verifies_as_mock t payload_hash =
      nat_eq (length t.token) 64
      && accepts (e.from_bytes mock_tsa_public_key) (mock_message payload_hash t.claimed_time_unix)
          t.token

  unverified : TimestampAuthorityClass → Result TimestampAuthorityClass TsaError
  unverified (rfc3161_external i) = err (unsupported (rfc3161_external i))
  unverified (rfc3161_internal i) = err (unsupported (rfc3161_internal i))
  unverified mock = err class_mismatch

  unfoldable pub derive_class : TimestampToken → Hash → Result TimestampAuthorityClass TsaError
  unfolding unverified
  derive_class t payload_hash =
      if verifies_as_mock t payload_hash then ok mock else unverified t.class

  -- If a class re-derives from a token, it is the mock class, whatever class the token claims, and the
  -- token verifies as the mock authority's signature over the hash and the claimed time.
  pub derive_class-eq-ok :
      (t : TimestampToken) (h : Hash) {c : TimestampAuthorityClass}
      → derive_class t h ≡ ok c
      → (c ≡ mock) × (verifies_as_mock t h ≡ true)
  unfolding derive_class
  derive_class-eq-ok t h p = ground arith

-- `MockTsa::stamp`, with the signing function of the mock authority's key.
unfoldable pub stamp : (Bytes → Bytes) → Hash → ℕ → TimestampToken
stamp sign payload_hash claimed_time_unix = record {
  class = mock;
  token = sign (mock_message payload_hash claimed_time_unix);
  claimed_time_unix = claimed_time_unix;
}

-- If the mock authority's public key parses and accepts what its signing key signed, and signatures
-- have 64 bytes, then a token that `stamp` makes re-derives to the mock class for the hash that it
-- stamps.
pub derive_class-stamp :
    (e : Ed25519) (sign : Bytes → Bytes) (key : VerifyingKey) (payload_hash : Hash)
    (claimed_time_unix : ℕ)
    → e.from_bytes mock_tsa_public_key ≡ some key
    → ((m : Bytes) → key m (sign m) ≡ true)
    → ((m : Bytes) → length (sign m) ≡ 64)
    → derive_class e (stamp sign payload_hash claimed_time_unix) payload_hash ≡ ok mock
unfolding stamp derive_class verifies_as_mock
derive_class-stamp e sign key payload_hash claimed_time_unix parses accepted long =
    let msg = mock_message payload_hash claimed_time_unix in
    rw (long msg, parses, accepted msg) refl
