-- ===== src/Artifact/Attestation/Accepts.antt =====
-- What an attestation has to be for `verify_attestation` to accept it.
use regulatory_rule_engine.Prelude.{
  ℕ, ◌≤◌, ◌<◌, ◌≡◌, refl, ltb, leb, str_eq, str_eq_iff, eq_of_beq, ℕ_eq, List_eq, String_eq,
  contains, not, String, Bool, true, false, ◌&&◌, ◌||◌, Option, none, some, Result, ok, ◌>>◌,
  >>=-eq-ok, map_err, map_err-eq-ok, ok_or, arith,
}
use regulatory_rule_engine.Ir.{Hash}
use regulatory_rule_engine.Manifest.{SemVer, Manifest}
use regulatory_rule_engine.Crypto.{Bytes, VerifyingKey}
use regulatory_rule_engine.Artifact.Keydir.{
  KeyStatus, active, KeyDirectoryEntry, KeyDirectory, lookup,
}
use regulatory_rule_engine.Artifact.Tsa.{
  TimestampAuthorityClass, mock, derive_class, derive_class-eq-ok, verifies_as_mock,
}
use regulatory_rule_engine.Artifact.Attestation.{
  Attestation, PolicyContext, is_local, is_mock, AttestationRejection, AttestationCrates, has,
  same_role, same_type, same_version, same_class, reject_if, check_status, past_expiration,
  source_changed, payload_prefix, check_signature, check_timestamp, check_key, check_binding,
  check_policy, verify_attestation,
}

reject_if-eq-ok : (b : Bool) (r : AttestationRejection) → reject_if b r ≡ ok tt → b ≡ false
reject_if-eq-ok b r h = ground arith

reject_if-next :
    (b : Bool) (r : AttestationRejection) (next : Result (Unit {0}) AttestationRejection)
    → (reject_if b r >> next) ≡ ok tt
    → (b ≡ false) × (next ≡ ok tt)
reject_if-next true r next h = cc
reject_if-next false r next h = (refl, h)

not-false : {b : Bool} → not b ≡ false → b ≡ true
not-false {b} h = ground arith

both_hold : (b l : Bool) → (not b || not l) ≡ false → (b ≡ true) × (l ≡ true)
both_hold b l h = ground arith

module _ {A E : Type 0} where
  ok_or-eq-ok : (e : E) (o : Option A) {a : A} → ok_or e o ≡ ok a → o ≡ some a
  ok_or-eq-ok e none h = cc
  ok_or-eq-ok e (some b) h = cc

same_version-path : (a b : SemVer) → same_version a b ≡ true → a ≡ b
unfolding same_version
same_version-path a b h =
    let p : a.major ≡ b.major = ground arith in
    let q : a.minor ≡ b.minor = ground arith in
    let r : a.patch ≡ b.patch = ground arith in
    λ i. record { major = p i; minor = q i; patch = r i }

mock_claimed : (d k : TimestampAuthorityClass) → d ≡ mock → same_class d k ≡ true → k ≡ mock
unfolding same_class
mock_claimed d k e h = ground arith

local_only :
    (d : TimestampAuthorityClass) (l : Bool) → d ≡ mock → (is_mock d && not l) ≡ false → l ≡ true
unfolding is_mock
local_only d l e h = ground arith

module _ (c : AttestationCrates) where
  -- The signature verifies, under the key of the entry, over the payload's bytes.
  pub record IsSignedBy (entry : KeyDirectoryEntry) (a : Attestation) : Type 0 where
    pub key : VerifyingKey
    pub key_parses : c.ed25519.from_bytes entry.public_key ≡ some key
    pub prefix : Bytes
    pub prefixed : payload_prefix c a ≡ ok prefix
    pub verifies : key prefix a.signature ≡ true

  check_signature-IsSignedBy :
      (entry : KeyDirectoryEntry) (a : Attestation)
      → check_signature c entry a ≡ ok tt
      → IsSignedBy entry a
  unfolding check_signature
  check_signature-IsSignedBy entry a h =
      let (key, parsed, h₁) = >>=-eq-ok (ok_or _ (c.ed25519.from_bytes entry.public_key)) _ h in
      let (prefix, made, h₂) = >>=-eq-ok (map_err _ (payload_prefix c a)) _ h₁ in
      record {
        key = key;
        key_parses = ok_or-eq-ok _ (c.ed25519.from_bytes entry.public_key) parsed;
        prefix = prefix;
        prefixed = map_err-eq-ok _ (payload_prefix c a) made;
        verifies = not-false (reject_if-eq-ok _ _ h₂);
      }

  -- The token carries the signature of the mock authority, claims to, and the policy is the local one.
  pub record IsStampedLocally (a : Attestation) (context : PolicyContext) : Type 0 where
    pub claims_mock : a.timestamp.class ≡ mock
    pub stamped : verifies_as_mock c.ed25519 a.timestamp a.artifact_hash ≡ true
    pub local : context.environment ≡ "local"

  check_timestamp-IsStampedLocally :
      (a : Attestation) (context : PolicyContext)
      → check_timestamp c a context ≡ ok tt
      → IsStampedLocally a context
  unfolding check_timestamp is_local same_class
  check_timestamp-IsStampedLocally a context h =
      let (derived, made, h₁) =
        >>=-eq-ok (map_err _ (derive_class c.ed25519 a.timestamp a.artifact_hash)) _ h in
      let (is_mock_class, stamped) =
        derive_class-eq-ok c.ed25519 a.timestamp a.artifact_hash
          (map_err-eq-ok _ (derive_class c.ed25519 a.timestamp a.artifact_hash) made) in
      let (claimed, h₂) = reject_if-next _ _ _ h₁ in
      record {
        claims_mock = mock_claimed derived a.timestamp.class is_mock_class (not-false claimed);
        stamped = stamped;
        local =
            (str_eq_iff context.environment "local").0
              (local_only derived (is_local context) is_mock_class (reject_if-eq-ok _ _ h₂));
      }

  -- An active key in its period, with the role and for the type of the attestation.
  pub record IsAuthorized (entry : KeyDirectoryEntry) (a : Attestation) (now : ℕ) : Type 0 where
    pub is_active : entry.status ≡ active
    pub begun : entry.valid_from_unix ≤ now
    pub not_over : now < entry.valid_to_unix
    pub role : has same_role entry.signer_roles a.signer_role ≡ true
    pub for_type : has same_type entry.authorized_attestation_types a.attestation_type ≡ true

  check_status-active :
      (s : KeyStatus) (key_id : String) → check_status s key_id ≡ ok tt → s ≡ active
  unfolding check_status
  check_status-active s key_id h = ground arith

  check_key-IsAuthorized :
      (entry : KeyDirectoryEntry) (a : Attestation) (context : PolicyContext)
      → check_key c entry a context ≡ ok tt
      → IsAuthorized entry a context.now_unix
  unfolding check_key
  check_key-IsAuthorized entry a context h =
      let (u, status, h₁) = >>=-eq-ok (check_status entry.status a.key_id) _ h in
      let (in_period, h₂) = reject_if-next _ _ _ h₁ in
      let period : (ltb context.now_unix entry.valid_from_unix
            || leb entry.valid_to_unix context.now_unix)
          ≡ false =
        in_period in
      let listed : (not (has same_role entry.signer_roles a.signer_role)
            || not (has same_type entry.authorized_attestation_types a.attestation_type))
          ≡ false =
        reject_if-eq-ok _ _ h₂ in
      record {
        is_active = check_status-active entry.status a.key_id status;
        begun = ground arith;
        not_over = ground arith;
        role = ground arith;
        for_type = ground arith;
      }

  -- Bound to the artifact, its regime, its compiler and its schema; under a supported policy; not
  -- expired; and over the legal source as it is.
  pub record IsCurrent (a : Attestation) (expected : Hash) (m : Manifest) (context : PolicyContext)
      : Type 0 where
    pub same_artifact : a.artifact_hash ≡ expected
    pub same_regime : a.regime_id ≡ m.regime_id
    pub same_compiler : a.compiler_version ≡ m.compiler_version
    pub same_schema : a.ir_schema_version ≡ m.ir_schema_version
    pub supported : contains context.supported_policy_versions a.attestation_policy_version ≡ true
    pub not_expired : past_expiration context.now_unix a.expiration ≡ false
    pub same_source : source_changed context.current_legal_source_hash a.legal_source_hash ≡ false

  check_binding-check_policy-IsCurrent :
      (a : Attestation) (expected : Hash) (m : Manifest) (context : PolicyContext)
      → check_binding c a expected m ≡ ok tt
      → check_policy c a m context ≡ ok tt
      → IsCurrent a expected m context
  unfolding check_binding check_policy
  check_binding-check_policy-IsCurrent a expected m context h k =
      let (bound, h₁) = reject_if-next _ _ _ h in
      let other : (not (str_eq a.regime_id m.regime_id)
            || not (same_version a.compiler_version m.compiler_version))
          ≡ false =
        reject_if-eq-ok _ _ h₁ in
      let (regime, compiler) =
        both_hold (str_eq a.regime_id m.regime_id)
          (same_version a.compiler_version m.compiler_version) other in
      let (supported, k₁) = reject_if-next _ _ _ k in
      let (schema, k₂) = reject_if-next _ _ _ k₁ in
      let (fresh, k₃) = reject_if-next _ _ _ k₂ in
      record {
        same_artifact = eq_of_beq a.artifact_hash expected (not-false bound);
        same_regime = (str_eq_iff a.regime_id m.regime_id).0 regime;
        same_compiler = same_version-path a.compiler_version m.compiler_version compiler;
        same_schema = same_version-path a.ir_schema_version m.ir_schema_version (not-false schema);
        supported = not-false supported;
        not_expired = fresh;
        same_source = reject_if-eq-ok _ _ k₃;
      }

  -- If `verify_attestation` accepts an attestation, then its key is in the directory and signed its
  -- payload; the key is active, in its period, and authorised for the role and the type; the token was
  -- stamped by the mock authority and the environment is the local one; and the attestation is bound
  -- to the artifact and the manifest at hand, under a supported policy version, not expired, and over
  -- an unchanged legal source.
  pub verify_attestation_sound :
      (a : Attestation) (expected : Hash) (m : Manifest) (directory : KeyDirectory)
      (context : PolicyContext)
      → verify_attestation c a expected m directory context ≡ ok tt
      → (entry : KeyDirectoryEntry) × (lookup directory a.key_id ≡ some entry)
        × IsSignedBy entry a
        × IsStampedLocally a context
        × IsAuthorized entry a context.now_unix
        × IsCurrent a expected m context
  unfolding verify_attestation
  verify_attestation_sound a expected m directory context h =
      let (entry, found, h₁) = >>=-eq-ok (ok_or _ (lookup directory a.key_id)) _ h in
      let (u, signed, h₂) = >>=-eq-ok (check_signature c entry a) _ h₁ in
      let (v, stamped, h₃) = >>=-eq-ok (check_timestamp c a context) _ h₂ in
      let (w, authorized, h₄) = >>=-eq-ok (check_key c entry a context) _ h₃ in
      let (x, bound, current) = >>=-eq-ok (check_binding c a expected m) _ h₄ in
      (
        entry,
        ok_or-eq-ok _ (lookup directory a.key_id) found,
        check_signature-IsSignedBy entry a signed,
        check_timestamp-IsStampedLocally a context stamped,
        check_key-IsAuthorized entry a context authorized,
        check_binding-check_policy-IsCurrent a expected m context bound current,
      )
