-- ===== src/Crypto.antt =====
-- The crates that the source calls and does not contain: postcard (the wire codec) and
-- ed25519_dalek (signatures). They are parameters of the models that use them. BLAKE3 is a function
-- from bytes to a digest, and needs no record.
use regulatory_rule_engine.Prelude.{ℕ, String, Bool, Option, List, Result}

abbrev pub Bytes : Type 0
Bytes = List ℕ

-- The message of a `postcard::Error`.
abbrev pub CodecError : Type 0
CodecError = String

-- `postcard::to_stdvec` and `postcard::take_from_bytes` at one type.
pub record Postcard (A : Type 0) : Type 0 where
  pub to_stdvec : A → Result Bytes CodecError
  pub take_from_bytes : Bytes → Result (A × Bytes) CodecError

-- A parsed key, as the test of a signature over a message: `verify(message, signature).is_ok()`.
abbrev pub VerifyingKey : Type 0
VerifyingKey = Bytes → Bytes → Bool

-- `VerifyingKey::from_bytes`; `none` stands for its error.
pub record Ed25519 : Type 0 where
  pub from_bytes : Bytes → Option VerifyingKey
