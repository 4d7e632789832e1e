-- ===== src/Registry/Resolve.antt =====
-- Resolving a selector to an artifact (`resolve` of crates/ke-cli/src/registry/mod.rs).
pub mod Found
pub mod Sound
pub mod OwnHash
pub mod Windows
use regulatory_rule_engine.Prelude.{
  ℕ, ℤ, ltb, ltb_ℤ, nat_eq, String, Bool, true, false, not, ◌&&◌, ◌||◌, ◌==◌, ℤ_eq, List_eq, ℕ_eq,
  String_eq, Option, none, some, List, [], ◌∷◌, length, last, find, ok_or, Result, ok, err, ◌>>=◌,
  ◌>>◌, if◌then◌else◌,
}
use Prim.Native.String.{◌++◌ as str_append}
use regulatory_rule_engine.Ir.{Hash, JurisdictionDate}
use regulatory_rule_engine.Manifest.{Manifest}
use regulatory_rule_engine.Registry.State.{
  LifecycleState, draft, structurally_verified, ml_checked, expert_attested, published, deprecated,
  revoked,
}
use regulatory_rule_engine.Registry.Error.{
  RegistryError, not_found, ambiguous, resolved_hash_mismatch,
}
use regulatory_rule_engine.Registry.Event.{LifecycleEvent, EventCrates}
use regulatory_rule_engine.Registry.Log.{current_state}
use regulatory_rule_engine.Registry.Hex.{hex32}
use regulatory_rule_engine.Registry.Backend.{
  RegistryBackend, RevocationRecord, TagPointer, target_hash,
}

pub data Selector : Type 0 where
  by_hash : Hash → Selector
  by_tag : (env tag : String) → Selector
  by_regime : (regime_id : String) (effective : JurisdictionDate) (env : String) → Selector

-- The formats `{:04}` of an `i32` and `{:02}` of a `u8`.
pub record DateTexts : Type 0 where
  pub four_digits : ℤ → String
  pub two_digits : ℕ → String

unfoldable pub describe : DateTexts → Selector → String
describe texts (by_hash h) = str_append "by-hash:" (hex32 h)
describe texts (by_tag env tag) = str_append "by-tag:" (str_append env (str_append "/" tag))
describe texts (by_regime regime_id effective env) = str_append "by-regime:" (
    str_append regime_id (
      str_append "@" (
        str_append (texts.four_digits effective.year) (
          str_append "-" (
            str_append (texts.two_digits effective.month) (
              str_append "-"
                (str_append (texts.two_digits effective.day) (str_append ":" env))))))))

pub record ResolutionRecord : Type 0 where
  pub artifact_hash : Hash
  pub registry_state_at_resolution : LifecycleState
  pub resolving_event_key : String
  pub selector_desc : String
  pub attestation_policy_version : String
  pub resolution_timestamp_unix : ℕ
  pub revocation : Option RevocationRecord

-- `<` on triples of year, month and day.
unfoldable pub date_lt : JurisdictionDate → JurisdictionDate → Bool
date_lt a b =
    ltb_ℤ a.year b.year
    || (a.year == b.year && (ltb a.month b.month || (nat_eq a.month b.month && ltb a.day b.day)))

unfoldable pub window_contains :
    JurisdictionDate → Option JurisdictionDate → JurisdictionDate → Bool
unfolding date_lt
window_contains from none point = not (date_lt point from)
window_contains from (some to) point = if date_lt point from then false else date_lt point to

-- `current_state(&events)? == Some(LifecycleState::Published)`, and the test for `Revoked`.
unfoldable pub some_published : Option LifecycleState → Bool
some_published (some published) = true
some_published _ = false

unfoldable pub state_revoked : LifecycleState → Bool
state_revoked revoked = true
state_revoked _ = false

-- The `event_kind` of the last event, `unwrap_or_default`.
unfoldable pub event_key : Option LifecycleEvent → String
event_key none = ""
event_key (some e) = e.event_kind

-- The `match` on the number of matches.
unfoldable pub only_match : String → List Hash → Result Hash RegistryError
only_match selector_desc [] = err (not_found selector_desc)
only_match selector_desc (h ∷ []) = ok h
only_match selector_desc (h ∷ g ∷ gs) = err (ambiguous selector_desc (length (h ∷ g ∷ gs)))

module _ {S : Type 0} (b : RegistryBackend S) (c : EventCrates) (s : S) where
  -- One round of the loop over the manifests: whether it is a match.
  unfoldable pub matches : String → JurisdictionDate → Hash × Manifest → Result Bool RegistryError
  unfolding window_contains some_published
  matches regime_id effective m =
      if not (m.1.regime_id == regime_id)
      then ok false
      else if not (window_contains m.1.effective_from m.1.effective_to effective)
      then ok false
      else (do
        events ← b.read_events m.0 s
        state ← current_state c events
        ok (some_published state))

  unfoldable pub all_matches :
      String → JurisdictionDate → List (Hash × Manifest) → Result (List Hash) RegistryError
  unfolding matches
  all_matches regime_id effective [] = ok []
  all_matches regime_id effective (m ∷ ms) = do
    found ← matches regime_id effective m
    rest ← all_matches regime_id effective ms
    ok (if found then m.0 ∷ rest else rest)

  -- The `match` on the selector. The environment beside a regime is not looked at.
  unfoldable pub selected : String → Selector → Result Hash RegistryError
  unfolding all_matches only_match
  selected selector_desc (by_hash h) = ok h
  selected selector_desc (by_tag env tag) = do
    read ← b.read_pointer env tag s
    pointer ← ok_or (not_found selector_desc) read
    target_hash pointer
  selected selector_desc (by_regime regime_id effective env) = do
    manifests ← b.list_manifests s
    found ← all_matches regime_id effective manifests
    only_match selector_desc found

  unfoldable pub verify_resolved_artifact : Hash → String → Result Manifest RegistryError
  verify_resolved_artifact h selector_desc = do
    manifests ← b.list_manifests s
    found ← ok_or (not_found selector_desc) (find (λ (m : Hash × Manifest). m.0 == h) manifests)
    if not (found.1.artifact_hash == h)
        then err (resolved_hash_mismatch selector_desc)
        else ok found.1

  unfoldable pub resolve :
      DateTexts → Selector → (now_unix : ℕ) → Result (Hash × ResolutionRecord) RegistryError
  unfolding describe selected verify_resolved_artifact event_key state_revoked
  resolve texts selector now_unix = do
    let selector_desc = describe texts selector
    hash ← selected selector_desc selector
    events ← b.read_events hash s
    read ← current_state c events
    state ← ok_or (not_found selector_desc) read
    manifest ← verify_resolved_artifact hash selector_desc
    revocation ← if state_revoked state then b.read_revocation hash s else ok none
    ok (
      hash,
      record {
        artifact_hash = hash;
        registry_state_at_resolution = state;
        resolving_event_key = event_key (last events);
        selector_desc = selector_desc;
        attestation_policy_version = manifest.attestation_policy_version;
        resolution_timestamp_unix = now_unix;
        revocation = revocation;
      },
    )
