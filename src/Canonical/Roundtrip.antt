-- ===== src/Canonical/Roundtrip.antt =====
-- Encoding and decoding, one after the other.
use regulatory_rule_engine.Prelude.{
  ◌≡◌, refl, [], ◌++◌, Result, ok, ◌>>=◌, >>=-eq-ok, map_err, map_err-eq-ok, arith,
}
use mathlib.Core.List.{append-nil}
use mathlib.Core.Path.{subst}
use regulatory_rule_engine.Crypto.{Bytes, Postcard}
use regulatory_rule_engine.Ir.{RuleIr}
use regulatory_rule_engine.Manifest.{PolicyBundle, Manifest}
use regulatory_rule_engine.Canonical.Error.{CanonicalError, CanonicalDecodeError}
use regulatory_rule_engine.Canonical.Agree.{Normalizes}
use regulatory_rule_engine.Canonical.Ordering.{CanonicalCrates}
use regulatory_rule_engine.Canonical.Encode.{
  canonicalize_rule, canonicalize_policy, canonicalize_manifest, encode_rule, encode_policy,
  encode_manifest,
}
use regulatory_rule_engine.Canonical.Decode.{
  validate_rule, validate_policy, validate_manifest, decode_with, decode_rule, decode_policy,
  decode_manifest,
}
use regulatory_rule_engine.Canonical.Checks.{Agree-manifest}
use regulatory_rule_engine.Canonical.Walkers.{Normalizes-rule, Normalizes-policy}

-- What postcard documents: it reads back what it wrote, and leaves what follows.
pub record PostcardLaws {A : Type 0} (codec : Postcard A) : Type 0 where
  pub take-to :
      (a : A) (bytes rest : Bytes)
      → codec.to_stdvec a ≡ ok bytes
      → codec.take_from_bytes (bytes ++ rest) ≡ ok (a, rest)

module _ {A : Type 0} (codec : Postcard A) (laws : PostcardLaws codec)
    (valid : A → Result (Unit {0}) CanonicalDecodeError) where
  take_exactly :
      (a : A) {bytes : Bytes}
      → codec.to_stdvec a ≡ ok bytes
      → codec.take_from_bytes bytes ≡ ok (a, [])
  take_exactly a {bytes} h =
      subst (λ b. codec.take_from_bytes b ≡ ok (a, [])) (append-nil bytes)
        (laws.take-to a bytes [] h)

  decode_with-to_stdvec :
      (a : A) {bytes : Bytes}
      → codec.to_stdvec a ≡ ok bytes
      → valid a ≡ ok tt
      → decode_with codec valid bytes ≡ ok a
  unfolding decode_with
  decode_with-to_stdvec a h v = rw (take_exactly a h, v) refl

module _ {A : Type 0} (codec : Postcard A)
    (valid : A → Result (Unit {0}) CanonicalDecodeError) where
  -- What a decoder returns has passed its validator.
  decode_with-valid :
      (bytes : Bytes) {a : A}
      → decode_with codec valid bytes ≡ ok a
      → (codec.take_from_bytes bytes ≡ ok (a, [])) × (valid a ≡ ok tt)
  unfolding decode_with
  decode_with-valid bytes {a} h =
      let ((b, rest), taken, h₁) =
        >>=-eq-ok (map_err CanonicalDecodeError.codec (codec.take_from_bytes bytes)) _ h in
      ground arith

-- A normaliser, an encoder that writes what it returns, and the strict decoder.
module _ {A : Type 0} (codec : Postcard A) (canonicalize : A → Result A CanonicalError)
    (valid : A → Result (Unit {0}) CanonicalDecodeError)
    (normalizes : (a : A) → Normalizes (canonicalize a) valid a) where
  canonicalize-valid :
      (a : A) {a' : A} → canonicalize a ≡ ok a' → (valid a' ≡ ok tt) × (canonicalize a' ≡ ok a')
  canonicalize-valid a {a'} h =
      let (x, same, passes) = (normalizes a).sound a' h in
      let passes' = subst (λ y. valid y ≡ ok tt) same passes in
      (passes', (normalizes a').fixed passes')

  decode-encode :
      PostcardLaws codec
      → (a : A) {bytes : Bytes}
      → (canonicalize a >>= λ a'. map_err CanonicalError.codec (codec.to_stdvec a')) ≡ ok bytes
      → (a' : A) × (canonicalize a ≡ ok a') × (decode_with codec valid bytes ≡ ok a')
  decode-encode laws a {bytes} h =
      let (a', made, written) = >>=-eq-ok (canonicalize a) _ h in
      (
        a',
        made,
        decode_with-to_stdvec codec laws valid a' (map_err-eq-ok _ (codec.to_stdvec a') written)
            (canonicalize-valid a made).0,
      )

  encode-decode :
      (bytes : Bytes) {a : A}
      → decode_with codec valid bytes ≡ ok a
      → (canonicalize a ≡ ok a)
        × ((canonicalize a >>= λ a'. map_err CanonicalError.codec (codec.to_stdvec a'))
            ≡ map_err CanonicalError.codec (codec.to_stdvec a))
  encode-decode bytes {a} h =
      let fixed = (normalizes a).fixed (decode_with-valid codec valid bytes h).1 in
      (fixed, rw fixed refl)

module _ (c : CanonicalCrates) where
  -- What `canonicalize_rule` returns passes `validate_rule`, and `canonicalize_rule` returns it again
  -- without a change.
  pub canonicalize_rule-validate :
      (r : RuleIr) {r' : RuleIr}
      → canonicalize_rule c r ≡ ok r'
      → (validate_rule c r' ≡ ok tt) × (canonicalize_rule c r' ≡ ok r')
  canonicalize_rule-validate =
      canonicalize-valid c.rule (canonicalize_rule c) (validate_rule c) (Normalizes-rule c)

  -- If a rule encodes, and postcard reads back what it wrote, then the rule has a normal form, and
  -- `decode_rule` accepts the bytes and returns that normal form.
  pub decode_rule-encode_rule :
      PostcardLaws c.rule
      → (r : RuleIr) {bytes : Bytes} → encode_rule c r ≡ ok bytes
      → (r' : RuleIr) × (canonicalize_rule c r ≡ ok r') × (decode_rule c bytes ≡ ok r')
  unfolding encode_rule decode_rule
  decode_rule-encode_rule laws =
      decode-encode c.rule (canonicalize_rule c) (validate_rule c) (Normalizes-rule c) laws

  -- A rule that `decode_rule` returns is in normal form, and encoding it only serialises it: no value
  -- is changed and no check fails.
  pub encode_rule-decode_rule :
      (bytes : Bytes) {r : RuleIr}
      → decode_rule c bytes ≡ ok r
      → (canonicalize_rule c r ≡ ok r)
        × (encode_rule c r ≡ map_err CanonicalError.codec (c.rule.to_stdvec r))
  unfolding encode_rule decode_rule
  encode_rule-decode_rule =
      encode-decode c.rule (canonicalize_rule c) (validate_rule c) (Normalizes-rule c)

  -- If a policy bundle encodes, and postcard reads back what it wrote, then the bundle has a normal
  -- form, and `decode_policy` accepts the bytes and returns that normal form.
  pub decode_policy-encode_policy :
      PostcardLaws c.policy
      → (p : PolicyBundle) {bytes : Bytes} → encode_policy c p ≡ ok bytes
      → (p' : PolicyBundle) × (canonicalize_policy c p ≡ ok p') × (decode_policy c bytes ≡ ok p')
  unfolding encode_policy decode_policy
  decode_policy-encode_policy laws =
      decode-encode c.policy (canonicalize_policy c) (validate_policy c) (Normalizes-policy c) laws

  -- If a manifest encodes, and postcard reads back what it wrote, then `decode_manifest` accepts the
  -- bytes and returns the same manifest.
  pub decode_manifest-encode_manifest :
      PostcardLaws c.manifest
      → (m : Manifest) {bytes : Bytes} → encode_manifest c m ≡ ok bytes
      → decode_manifest c bytes ≡ ok m
  unfolding encode_manifest decode_manifest
  decode_manifest-encode_manifest laws m h =
      let (u, checked, written) = >>=-eq-ok (canonicalize_manifest c m) _ h in
      decode_with-to_stdvec c.manifest laws (validate_manifest c) m
        (map_err-eq-ok _ (c.manifest.to_stdvec m) written) ((Agree-manifest c m).to checked)
