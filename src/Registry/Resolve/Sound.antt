-- ===== src/Registry/Resolve/Sound.antt =====
-- What an answer of `resolve` means (crates/ke-cli/src/registry/mod.rs).
use mathlib.Core.Path.{subst}
use regulatory_rule_engine.Prelude.{
  ◌≡◌, refl, sym, ap, ◌∙◌, ◌⊎◌, inl, inr, ◌≢◌, String, true, false, Bool-cases, ◌==◌, eq_of_beq,
  Option, none, some, List, [], ◌∷◌, ◌++◌, find, ok_or, ok_or-eq-ok, ok, ok-injective, >>=-eq-ok,
  if◌then◌else◌, List_eq, ℕ_eq, String_eq, ℕ,
}
use regulatory_rule_engine.Ir.{Hash}
use regulatory_rule_engine.Manifest.{Manifest}
use regulatory_rule_engine.Registry.State.{LifecycleState, published, revoked}
use regulatory_rule_engine.Registry.Event.{LifecycleEvent, EventCrates}
use regulatory_rule_engine.Registry.Error.{not_found}
use regulatory_rule_engine.Registry.Log.{current_state}
use regulatory_rule_engine.Registry.Backend.{
  RegistryBackend, RevocationRecord, TagPointer, target_hash,
}
use regulatory_rule_engine.Registry.Resolve.{
  Selector, by_hash, by_tag, by_regime, DateTexts, describe, ResolutionRecord, state_revoked,
  only_match, all_matches, selected, verify_resolved_artifact, resolve,
}
use regulatory_rule_engine.Registry.Resolve.Found.{OnlyOne, only_one}

only_match-eq-ok :
    (text : String) (hs : List Hash) {h : Hash} → only_match text hs ≡ ok h → hs ≡ h ∷ []
unfolding only_match
only_match-eq-ok text [] e = cc e
only_match-eq-ok text (g ∷ []) e = ap (λ x. x ∷ []) (ok-injective e)
only_match-eq-ok text (g ∷ f ∷ fs) e = cc e

state_revoked_lem :
    (state : LifecycleState)
    → ((state ≡ revoked) × (state_revoked state ≡ true))
      ⊎ ((state ≢ revoked) × (state_revoked state ≡ false))
unfolding state_revoked
state_revoked_lem revoked = inl (refl, refl)
state_revoked_lem LifecycleState.draft = inr (λ e. cc e, refl)
state_revoked_lem LifecycleState.structurally_verified = inr (λ e. cc e, refl)
state_revoked_lem LifecycleState.ml_checked = inr (λ e. cc e, refl)
state_revoked_lem LifecycleState.expert_attested = inr (λ e. cc e, refl)
state_revoked_lem published = inr (λ e. cc e, refl)
state_revoked_lem LifecycleState.deprecated = inr (λ e. cc e, refl)

some_injective : {A : Type 0} {x y : A} → ◌≡◌ {A = Option A} (some x) (some y) → x ≡ y
some_injective h = cc

record Entry (h : Hash) (m : Hash × Manifest) (ms : List (Hash × Manifest)) : Type 0 where
  address : m.0 ≡ h
  before : List (Hash × Manifest)
  after : List (Hash × Manifest)
  split : ms ≡ before ++ m ∷ after

find-Entry :
    (h : Hash) (ms : List (Hash × Manifest)) {m : Hash × Manifest}
    → find (λ (n : Hash × Manifest). n.0 == h) ms ≡ some m
    → Entry h m ms
find-Entry h [] e = cc e
find-Entry h (n ∷ ns) e = elim (Bool-cases (n.0 == h)) [
  | inl same ↦ record {
    address = ap (λ x. x.0) (some_injective (sym (rw same at e))) ∙ eq_of_beq n.0 h same;
    before = [];
    after = ns;
    split = ap (λ x. x ∷ ns) (some_injective (rw same at e));
  }
  | inr other ↦
      let later = find-Entry h ns (rw other at e) in
      record {
        address = later.address;
        before = n ∷ later.before;
        after = later.after;
        split = ap (λ x. n ∷ x) later.split;
      }
]

module _ {S : Type 0} (b : RegistryBackend S) (c : EventCrates) (s : S) where
  -- What a selector names: an address; the address in the pointer that the tag has; or the address
  -- of the only eligible manifest that the storage lists.
  abbrev pub Names : Selector → Hash → Type 0
  Names (by_hash g) h = g ≡ h
  Names (by_tag env tag) h =
      (p : TagPointer) × (b.read_pointer env tag s ≡ ok (some p)) × (target_hash p ≡ ok h)
  Names (by_regime regime_id effective env) h =
      (ms : List (Hash × Manifest)) × (b.list_manifests s ≡ ok ms)
      × OnlyOne b c s regime_id effective h ms

  -- An answer: an address that the selector names, whose valid log ends in the state that is
  -- recorded, which the storage lists with a manifest that has this hash and the recorded policy
  -- version, together with the revocation, which is read exactly in the state revoked.
  pub record Resolved (selector : Selector) (h : Hash) (r : ResolutionRecord) : Type 0 where
    pub named : Names selector h
    pub address : r.artifact_hash ≡ h
    pub log : List LifecycleEvent
    pub log_read : b.read_events h s ≡ ok log
    pub in_state : current_state c log ≡ ok (some r.registry_state_at_resolution)
    pub manifest : Manifest
    pub before : List (Hash × Manifest)
    pub after : List (Hash × Manifest)
    pub listed : b.list_manifests s ≡ ok (before ++ (h, manifest) ∷ after)
    pub own_hash : manifest.artifact_hash ≡ h
    pub policy_version : r.attestation_policy_version ≡ manifest.attestation_policy_version
    pub revocation :
        ((r.registry_state_at_resolution ≡ revoked) × (b.read_revocation h s ≡ ok r.revocation))
        ⊎ ((r.registry_state_at_resolution ≢ revoked) × (r.revocation ≡ none))

  selected-Names :
      (text : String) (selector : Selector) {h : Hash}
      → selected b c s text selector ≡ ok h
      → Names selector h
  unfolding selected
  selected-Names text (by_hash g) e = ok-injective e
  selected-Names text (by_tag env tag) e =
      let read = >>=-eq-ok (b.read_pointer env tag s) _ e in
      let pointer = >>=-eq-ok (ok_or (not_found text) read.0) _ read.2 in
      (pointer.0, read.1 ∙ ap ok (ok_or-eq-ok (not_found text) read.0 pointer.1), pointer.2)
  selected-Names text (by_regime regime_id effective env) {h} e =
      let manifests = >>=-eq-ok (b.list_manifests s) _ e in
      let found = >>=-eq-ok (all_matches b c s regime_id effective manifests.0) _ manifests.2 in
      (
        manifests.0,
        manifests.1,
        only_one b c s regime_id effective manifests.0 h found.1
            (only_match-eq-ok text found.0 found.2),
      )

  -- What passes `verify_resolved_artifact`.
  record Verified (h : Hash) (manifest : Manifest) : Type 0 where
    before : List (Hash × Manifest)
    after : List (Hash × Manifest)
    listed : b.list_manifests s ≡ ok (before ++ (h, manifest) ∷ after)
    own_hash : manifest.artifact_hash ≡ h

  verify_resolved_artifact-Verified :
      (h : Hash) (text : String) {manifest : Manifest}
      → verify_resolved_artifact b c s h text ≡ ok manifest
      → Verified h manifest
  unfolding verify_resolved_artifact
  verify_resolved_artifact-Verified h text e =
      let manifests = >>=-eq-ok (b.list_manifests s) _ e in
      let found =
        >>=-eq-ok (ok_or (not_found text) (find (λ (m : Hash × Manifest). m.0 == h) manifests.0)) _
          manifests.2 in
      let entry = find-Entry h manifests.0 (ok_or-eq-ok (not_found text) _ found.1) in
      elim (Bool-cases (found.0.1.artifact_hash == h)) [
        | inr other ↦ cc (rw other at found.2)
        | inl same ↦
            let last = ok-injective (rw same at found.2) in
            record {
              before = entry.before;
              after = entry.after;
              listed =
                  manifests.1
                  ∙ ap ok (
                      entry.split
                      ∙ ap (λ x. entry.before ++ x ∷ entry.after)
                          (ap (λ x. (x, found.0.1)) entry.address ∙ ap (λ x. (h, x)) last));
              own_hash =
                  ap (λ x. x.artifact_hash) (sym last) ∙ eq_of_beq found.0.1.artifact_hash h same;
            }
      ]

  revocation_read :
      (h : Hash) (state : LifecycleState) {found : Option RevocationRecord}
      → (if state_revoked state then b.read_revocation h s else ok none) ≡ ok found
      → ((state ≡ revoked) × (b.read_revocation h s ≡ ok found))
        ⊎ ((state ≢ revoked) × (found ≡ none))
  revocation_read h state e = elim (state_revoked_lem state) [
    | inl (is, test) ↦ inl (is, rw test at e)
    | inr (is_not, test) ↦ inr (is_not, sym (ok-injective (rw test at e)))
  ]

  -- When `resolve` answers with an address and a record, the selector names the address (for a
  -- regime and a date: one of the listed manifests is of that regime, in force at that date and
  -- published, and no other is, whatever environment the selector gives), its log is valid and ends in
  -- the recorded state, the storage lists a manifest of this address that has this hash and the
  -- recorded policy version, and the record has the revocation that the storage reads in the state
  -- revoked, and none in any other state.
  pub resolve_sound :
      (texts : DateTexts) (selector : Selector) (now_unix : ℕ) (h : Hash) (r : ResolutionRecord)
      → resolve b c s texts selector now_unix ≡ ok (h, r)
      → Resolved selector h r
  unfolding resolve
  resolve_sound texts selector now_unix h r e =
      let text = describe texts selector in
      let hash = >>=-eq-ok (selected b c s text selector) _ e in
      let events = >>=-eq-ok (b.read_events hash.0 s) _ hash.2 in
      let read = >>=-eq-ok (current_state c events.0) _ events.2 in
      let state = >>=-eq-ok (ok_or (not_found text) read.0) _ read.2 in
      let manifest = >>=-eq-ok (verify_resolved_artifact b c s hash.0 text) _ state.2 in
      let revocation =
        >>=-eq-ok (if state_revoked state.0 then b.read_revocation hash.0 s else ok none) _
          manifest.2 in
      let verified = verify_resolved_artifact-Verified hash.0 text manifest.1 in
      subst (λ x. Resolved selector x.0 x.1) (ok-injective revocation.2)
        (record {
          named = selected-Names text selector hash.1;
          address = refl;
          log = events.0;
          log_read = events.1;
          in_state = read.1 ∙ ap ok (ok_or-eq-ok (not_found text) read.0 state.1);
          manifest = manifest.0;
          before = verified.before;
          after = verified.after;
          listed = verified.listed;
          own_hash = verified.own_hash;
          policy_version = refl;
          revocation = revocation_read hash.0 state.0 revocation.1;
        })
