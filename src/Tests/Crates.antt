-- ===== src/Tests/Crates.antt =====
-- Concrete crates for the events of the registry: the wire codec is of `Tests/Codec`, the digest of
-- some bytes is the bytes themselves, and the registry root signs bytes by repeating them.
use regulatory_rule_engine.Prelude.{
  length, ℕ, zero, suc, ◌≡◌, refl, String, Option, none, some, List, [], ◌∷◌, ◌++◌, Result, ok, err,
  ◌>>=◌, ok-injective, ◌==◌, List_eq, ℕ_eq, beq_refl, if◌then◌else◌, arith,
}
use mathlib.Core.Path.{subst}
use regulatory_rule_engine.Ir.{Hash}
use regulatory_rule_engine.Crypto.{CodecError, VerifyingKey}
use regulatory_rule_engine.Artifact.Keydir.{
  SignerRole, domain_expert, publication_approver, registry,
}
use regulatory_rule_engine.Artifact.Tsa.{
  TimestampAuthorityClass, rfc3161_external, rfc3161_internal, mock, TimestampToken,
}
use regulatory_rule_engine.Registry.State.{
  LifecycleState, draft, structurally_verified, ml_checked, expert_attested, published, deprecated,
  revoked,
}
use regulatory_rule_engine.Registry.Event.{
  EventPayloadView, EventCrates, EventCratesLaws, registry_root_public_key,
}
use regulatory_rule_engine.Tests.Codec.{
  Codec, number, numbers, option, pair, via, one_of, coded, nth,
}

abbrev lifecycle_states : List LifecycleState
lifecycle_states =
    draft ∷ structurally_verified ∷ ml_checked ∷ expert_attested ∷ published ∷ deprecated ∷ revoked
    ∷ []

abbrev state_code : LifecycleState → ℕ
state_code draft = 0
state_code structurally_verified = 1
state_code ml_checked = 2
state_code expert_attested = 3
state_code published = 4
state_code deprecated = 5
state_code revoked = 6

pub lifecycle_states-code : (s : LifecycleState) → nth lifecycle_states (state_code s) ≡ ok s
lifecycle_states-code s = ground arith

abbrev lifecycle_state : Codec LifecycleState
lifecycle_state = coded state_code lifecycle_states lifecycle_states-code

abbrev role_code : SignerRole → ℕ
role_code domain_expert = 0
role_code publication_approver = 1
role_code registry = 2

abbrev signer_roles : List SignerRole
signer_roles = domain_expert ∷ publication_approver ∷ registry ∷ []

pub signer_roles-code : (r : SignerRole) → nth signer_roles (role_code r) ≡ ok r
signer_roles-code r = ground arith

abbrev pub signer_role : Codec SignerRole
signer_role = coded role_code signer_roles signer_roles-code

-- The strings that the events of the tests hold.
abbrev words : Codec String
words = one_of (
    "root" ∷ "draft" ∷ "structurally_verified" ∷ "tag_moved" ∷ "ml_checked" ∷ "expert_attested"
    ∷ "published" ∷ "deprecated" ∷ "revoked" ∷ "test-registry-fixed-seed-1" ∷ [])

abbrev class_parts : TimestampAuthorityClass → Result (ℕ × Option String) CodecError
class_parts (rfc3161_external i) = ok (0, some i)
class_parts (rfc3161_internal i) = ok (1, some i)
class_parts mock = ok (2, none)

abbrev class_of : ℕ × Option String → Result TimestampAuthorityClass CodecError
class_of (zero, some i) = ok (rfc3161_external i)
class_of (suc zero, some i) = ok (rfc3161_internal i)
class_of (_, none) = ok mock
class_of _ = err "unknown class"

pub class_of-parts :
    (k : TimestampAuthorityClass) (b : ℕ × Option String) → class_parts k ≡ ok b → class_of b ≡ ok k
class_of-parts (rfc3161_external i) b h =
    subst (λ x. class_of x ≡ ok (rfc3161_external i)) (ok-injective h) refl
class_of-parts (rfc3161_internal i) b h =
    subst (λ x. class_of x ≡ ok (rfc3161_internal i)) (ok-injective h) refl
class_of-parts mock b h = subst (λ x. class_of x ≡ ok mock) (ok-injective h) refl

abbrev pub token : Codec TimestampToken
token =
    via (λ (t : TimestampToken). ok (t.class, (t.token, t.claimed_time_unix)))
      (λ x. ok (record { class = x.0; token = x.1.0; claimed_time_unix = x.1.1 }))
      (λ t b h.
        subst
          (λ x.
            ◌≡◌ {A = Result TimestampToken CodecError}
              (ok (record { class = x.0; token = x.1.0; claimed_time_unix = x.1.1 })) (ok t))
          (ok-injective h) refl)
      (pair (via class_parts class_of class_of-parts (pair number (option words)))
        (pair numbers number))

-- The fields of an event's payload, in the order of the source.
abbrev Fields : Type 0
Fields =
    Hash
    × (ℕ
        × (Option LifecycleState
            × (LifecycleState
                × (String × (String × (SignerRole × (TimestampToken × Option Hash)))))))

abbrev fields : EventPayloadView → Fields
fields v = (
  v.artifact_hash,
  (
    v.seq,
    (
      v.prior_state,
      (
        v.new_state,
        (v.event_kind, (v.authority_key_id, (v.authority_role, (v.timestamp, v.prev_event_hash)))),
      ),
    ),
  ),
)

abbrev of_fields : Fields → EventPayloadView
of_fields
      (
        artifact_hash,
        (seq, (prior_state, (new_state, (kind, (key_id, (role, (timestamp, prev))))))),
      ) =
    record {
      artifact_hash = artifact_hash;
      seq = seq;
      prior_state = prior_state;
      new_state = new_state;
      event_kind = kind;
      authority_key_id = key_id;
      authority_role = role;
      timestamp = timestamp;
      prev_event_hash = prev;
    }

abbrev pub payload : Codec EventPayloadView
payload =
    via (λ v. ok (fields v)) (λ x. ok (of_fields x))
      (λ v b h.
        subst (λ x. ◌≡◌ {A = Result EventPayloadView CodecError} (ok (of_fields x)) (ok v))
          (ok-injective h) refl)
      (pair numbers (
        pair number (
          pair (option lifecycle_state) (
            pair lifecycle_state
              (pair words (pair words (pair signer_role (pair token (option numbers)))))))))

abbrev root_key : VerifyingKey
root_key m s = s == m

abbrev pub crates : EventCrates
crates = record {
  to_stdvec = λ e. payload.write e.payload >>= λ p. ok (p ++ e.signature);
  take_payload = payload.read;
  blake3 = λ b. length b ∷ [];
  ed25519 = record {
    from_bytes = λ k. if k == registry_root_public_key then some root_key else none;
  };
  sign = λ m. m;
}

pub crates_laws : EventCratesLaws crates
crates_laws = record {
  encode_payload = payload.write;
  to_stdvec_lem = λ e. refl;
  take_payload_lem = λ v p rest h. payload.read-write v rest h;
  root_key = root_key;
  root_key_parses = refl;
  sign_verifies = λ m. beq_refl m;
}
