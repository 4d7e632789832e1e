-- ===== src/Registry/Event.antt =====
-- Lifecycle events: what is signed, what is hashed (crates/ke-cli/src/registry/event.rs).
use regulatory_rule_engine.Prelude.{◌≡◌, true, ◌++◌}
use regulatory_rule_engine.Prelude.{
  ℕ, ◌-◌, String, Option, none, some, [], ◌∷◌, length, take, Result, ok, err, ◌>>=◌, map_err,
  if◌then◌else◌,
}
use regulatory_rule_engine.Ir.{Hash}
use regulatory_rule_engine.Crypto.{Bytes, CodecError, Ed25519, VerifyingKey}
use regulatory_rule_engine.Artifact.Keydir.{SignerRole}
use regulatory_rule_engine.Artifact.Tsa.{TimestampToken}
use regulatory_rule_engine.Registry.State.{LifecycleState}
use regulatory_rule_engine.Registry.Error.{RegistryError, event_encode, signature_invalid}

abbrev pub registry_root_public_key : Hash
registry_root_public_key =
    0xab ∷ 0x4b ∷ 0x87 ∷ 0x6b ∷ 0x11 ∷ 0x80 ∷ 0x33 ∷ 0x9d ∷ 0xfe ∷ 0x2a ∷ 0xec ∷ 0xec ∷ 0x7b ∷ 0x1f
    ∷ 0x60 ∷ 0x3a ∷ 0xe6 ∷ 0xba ∷ 0xba ∷ 0x31 ∷ 0x72 ∷ 0x08 ∷ 0xe2 ∷ 0x21 ∷ 0x39 ∷ 0x51 ∷ 0x2d
    ∷ 0x1c ∷ 0x06 ∷ 0x51 ∷ 0x32 ∷ 0xbf ∷ []

-- All fields before the signature: what is signed.
pub record EventPayloadView : Type 0 where
  pub artifact_hash : Hash
  pub seq : ℕ
  pub prior_state : Option LifecycleState
  pub new_state : LifecycleState
  pub event_kind : String
  pub authority_key_id : String
  pub authority_role : SignerRole
  pub timestamp : TimestampToken
  pub prev_event_hash : Option Hash

-- The struct is flat in the source; here its payload fields are a record of their own, opened.
pub record LifecycleEvent : Type 0 where
  pub payload : EventPayloadView
  pub open payload use *
  pub signature : Bytes

-- What the events need of the crates: postcard at the two types, BLAKE3, ed25519, and the signing
-- key of the registry root.
pub record EventCrates : Type 0 where
  pub to_stdvec : LifecycleEvent → Result Bytes CodecError
  pub take_payload : Bytes → Result (EventPayloadView × Bytes) CodecError
  pub blake3 : Bytes → Hash
  pub ed25519 : Ed25519
  pub sign : Bytes → Bytes

module _ (c : EventCrates) where
  unfoldable pub payload_prefix : LifecycleEvent → Result Bytes RegistryError
  payload_prefix e = do
    bytes ← map_err event_encode (c.to_stdvec e)
    taken ← map_err event_encode (c.take_payload bytes)
    ok (take (length bytes - length taken.1) bytes)

  unfoldable pub canonical_bytes : LifecycleEvent → Result Bytes RegistryError
  canonical_bytes e = map_err event_encode (c.to_stdvec e)

  unfoldable pub chain_hash : LifecycleEvent → Result Hash RegistryError
  unfolding canonical_bytes
  chain_hash e = do bytes ← canonical_bytes e; ok (c.blake3 bytes)

  verify_with : Option VerifyingKey → LifecycleEvent → Result (Unit {0}) RegistryError
  unfolding payload_prefix
  verify_with none e = err (signature_invalid e.seq)
  verify_with (some verify) e = do
    prefix ← payload_prefix e
    if verify prefix e.signature then ok tt else err (signature_invalid e.seq)

  unfoldable pub verify_signature : LifecycleEvent → Result (Unit {0}) RegistryError
  unfolding verify_with
  verify_signature e = verify_with (c.ed25519.from_bytes registry_root_public_key) e

  -- The signature that the event had is overwritten.
  unfoldable pub sign_event : LifecycleEvent → Result LifecycleEvent RegistryError
  unfolding payload_prefix
  sign_event e = do prefix ← payload_prefix e; ok (record e { signature = c.sign prefix })

-- What the crates document. Postcard writes the fields of a struct one after the other with no
-- framing, and an array of bytes as those bytes, so an event is its payload's bytes and then its
-- signature; and it reads a payload back off the front of whatever bytes follow it. The registry
-- root's public key parses, and accepts what the registry root signed.
pub record EventCratesLaws (c : EventCrates) : Type 0 where
  pub encode_payload : EventPayloadView → Result Bytes CodecError
  pub to_stdvec_lem :
      (e : LifecycleEvent)
      → c.to_stdvec e ≡ (encode_payload e.payload >>= λ p. ok (p ++ e.signature))
  pub take_payload_lem :
      (v : EventPayloadView) (p rest : Bytes)
      → encode_payload v ≡ ok p
      → c.take_payload (p ++ rest) ≡ ok (v, rest)
  pub root_key : VerifyingKey
  pub root_key_parses : c.ed25519.from_bytes registry_root_public_key ≡ some root_key
  pub sign_verifies : (m : Bytes) → root_key m (c.sign m) ≡ true
