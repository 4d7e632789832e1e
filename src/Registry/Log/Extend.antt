-- ===== src/Registry/Log/Extend.antt =====
-- Logs extended by the events that the registry builds.
use mathlib.Core.Path.{subst}
use regulatory_rule_engine.Prelude.{
  ◌+◌, ◌-◌, ◌≡◌, refl, sym, ap, Option, some, String, List, [], ◌∷◌, ◌++◌, last, last-concat,
  length, length-append, take, take-append, Result, ok, err, ◌>>=◌, >>=-eq-ok, map_err, arith,
  ok-injective, ◌∙◌,
}
use regulatory_rule_engine.Ir.{Hash}
use regulatory_rule_engine.Crypto.{Bytes, CodecError}
use regulatory_rule_engine.Artifact.Keydir.{SignerRole}
use regulatory_rule_engine.Artifact.Tsa.{TimestampToken}
use regulatory_rule_engine.Registry.State.{LifecycleState, draft}
use regulatory_rule_engine.Registry.Error.{event_encode}
use regulatory_rule_engine.Registry.Event.{
  LifecycleEvent, EventCrates, EventCratesLaws, payload_prefix, chain_hash, verify_signature,
  sign_event,
}
use regulatory_rule_engine.Registry.Log.{
  u32, state_of, current_state, build_draft_event, build_transition_event, build_tag_moved_event,
}
use regulatory_rule_engine.Registry.Log.Valid.{Follows, FollowAll, IsLog, current_state_iff}

module _ (c : EventCrates) (laws : EventCratesLaws c) where
  open laws use {
    encode_payload, to_stdvec_lem, take_payload_lem, root_key, root_key_parses, sign_verifies,
  }

  take_front : (p s : Bytes) → take (length (p ++ s) - length s) (p ++ s) ≡ p
  take_front p s =
      let n : length (p ++ s) - length s ≡ length p = omega (arith, length-append p s) in
      rw n (take-append p s)

  -- The signed bytes are the bytes of the payload, whatever the signature.
  payload_prefix_lem :
      (e : LifecycleEvent) → payload_prefix c e ≡ map_err event_encode (encode_payload e.payload)
  unfolding payload_prefix
  payload_prefix_lem e = rw (to_stdvec_lem e) (by_payload (encode_payload e.payload) refl)
    where
      by_payload :
          (r : Result Bytes CodecError)
          → encode_payload e.payload ≡ r
          → (map_err event_encode (r >>= λ p. ok (p ++ e.signature)) >>= λ bytes.
              map_err event_encode (c.take_payload bytes) >>= λ taken.
              ok (take (length bytes - length taken.1) bytes))
            ≡ map_err event_encode r
      by_payload (ok p) q =
          rw (take_payload_lem e.payload p e.signature q) (ap ok (take_front p e.signature))
      by_payload (err x) q = refl

  encoded : (r : Result Bytes CodecError) (p : Bytes) → map_err event_encode r ≡ ok p → r ≡ ok p
  encoded (ok q) p h = ap ok (ok-injective h)
  encoded (err x) p h = cc

  -- What signing gives: the same payload, a signature that verifies, and bytes to hash.
  record IsSigned (e signed : LifecycleEvent) : Type 0 where
    same_payload : signed.payload ≡ e.payload
    signed_ok : verify_signature c signed ≡ ok tt
    digest : Hash
    hashed : chain_hash c signed ≡ ok digest

  sign_event-IsSigned : (e s : LifecycleEvent) → sign_event c e ≡ ok s → IsSigned e s
  unfolding sign_event verify_signature chain_hash
  sign_event-IsSigned e s h =
      let (p, prefix, made) = >>=-eq-ok (payload_prefix c e) _ h in
      let bytes : encode_payload e.payload ≡ ok p =
        encoded (encode_payload e.payload) p (sym (payload_prefix_lem e) ∙ prefix) in
      let e' : LifecycleEvent = record e { signature = c.sign p } in
      let same : e' ≡ s = ok-injective made in
      subst (IsSigned e) same (record {
        same_payload = refl;
        signed_ok = rw (root_key_parses, payload_prefix_lem e', bytes, sign_verifies p) refl;
        digest = c.blake3 (p ++ c.sign p);
        hashed = rw (to_stdvec_lem e', bytes) refl;
      })

  IsLog-concat :
      (es : List LifecycleEvent) (prior e : LifecycleEvent)
      → IsLog c es
      → last es ≡ some prior
      → Follows c prior e
      → IsLog c (es ++ e ∷ [])
  IsLog-concat [] prior e log h f = cc
  IsLog-concat (x ∷ xs) prior e (g, follow) h f = (g, go x xs follow h)
    where
      go :
          (x : LifecycleEvent) (xs : List LifecycleEvent)
          → FollowAll c x xs
          → last (x ∷ xs) ≡ some prior
          → FollowAll c x (xs ++ e ∷ [])
      go x [] all h = let same : prior ≡ x = cc in (subst (λ y. Follows c y e) same f, tt)
      go x (y ∷ ys) all h = (all.0, go y ys all.1 h)

  -- A signed event whose payload names the next number and the hash of the last event extends a log.
  extends :
      (es : List LifecycleEvent) (prior e : LifecycleEvent) (s : Option LifecycleState)
      → current_state c es ≡ ok s
      → last es ≡ some prior
      → Follows c prior e
      → current_state c (es ++ e ∷ []) ≡ ok (some e.new_state)
  extends es prior e s h l f =
      (current_state_iff c (es ++ e ∷ []) (some e.new_state)).1
        (IsLog-concat es prior e ((current_state_iff c es s).0 h).0 l f, rw last-concat refl)

  -- What both ways of building a later event have in common.
  chained :
      (prior e : LifecycleEvent) (link : Hash) (unsigned : LifecycleEvent)
      → chain_hash c prior ≡ ok link
      → unsigned.seq ≡ u32 (prior.seq + 1)
      → unsigned.prev_event_hash ≡ some link
      → sign_event c unsigned ≡ ok e
      → Follows c prior e
  chained prior e link unsigned l n p h =
      let s = sign_event-IsSigned unsigned e h in
      record {
        next_seq = ap (λ v. v.seq) s.same_payload ∙ n;
        link = link;
        link_hashed = l;
        linked = ap (λ v. v.prev_event_hash) s.same_payload ∙ p;
        signed = s.signed_ok;
        hash = s.digest;
        hashed = s.hashed;
      }

  -- With crates that behave as documented (`EventCratesLaws`): a draft event that the registry builds
  -- is by itself a log that `current_state` accepts, in the state `draft`.
  pub build_draft_event-current_state :
      (artifact_hash : Hash) (key_id : String) (timestamp : TimestampToken) {e : LifecycleEvent}
      → build_draft_event c artifact_hash key_id timestamp ≡ ok e
      → current_state c (e ∷ []) ≡ ok (some draft)
  unfolding build_draft_event
  build_draft_event-current_state artifact_hash key_id timestamp {e} h =
      let s = sign_event-IsSigned _ e h in
      (current_state_iff c (e ∷ []) (some draft)).1 (
        (
          record {
            seq_zero = ap (λ v. v.seq) s.same_payload;
            no_link = ap (λ v. v.prev_event_hash) s.same_payload;
            signed = s.signed_ok;
            hash = s.digest;
            hashed = s.hashed;
          },
          tt,
        ),
        ap (λ v. some v.new_state) (sym s.same_payload),
      )

  -- With crates that behave as documented (`EventCratesLaws`): a transition event that the registry
  -- builds on the last event of a log that `current_state` accepts extends it to a log that
  -- `current_state` accepts, in the new state.
  pub build_transition_event-current_state :
      (es : List LifecycleEvent) (prior : LifecycleEvent) (new_state : LifecycleState)
      (key_id : String) (role : SignerRole) (timestamp : TimestampToken) {s : Option LifecycleState}
      {e : LifecycleEvent}
      → current_state c es ≡ ok s
      → last es ≡ some prior
      → build_transition_event c prior new_state key_id role timestamp ≡ ok e
      → current_state c (es ++ e ∷ []) ≡ ok (some new_state)
  unfolding build_transition_event
  build_transition_event-current_state es prior new_state key_id role timestamp {s} {e} h l b =
      let (link, hashed, made) = >>=-eq-ok (chain_hash c prior) _ b in
      let signed = sign_event-IsSigned _ e made in
      let result = extends es prior e s h l (chained prior e link _ hashed refl refl made) in
      result ∙ ap (λ v. ok (some v.new_state)) signed.same_payload

  -- With crates that behave as documented (`EventCratesLaws`): a `tag_moved` event that the registry
  -- builds on the last event of a log that `current_state` accepts extends it to a log that
  -- `current_state` accepts, in the same state.
  pub build_tag_moved_event-current_state :
      (es : List LifecycleEvent) (prior : LifecycleEvent) (key_id : String) (role : SignerRole)
      (timestamp : TimestampToken) {s : Option LifecycleState} {e : LifecycleEvent}
      → current_state c es ≡ ok s
      → last es ≡ some prior
      → build_tag_moved_event c prior key_id role timestamp ≡ ok e
      → current_state c (es ++ e ∷ []) ≡ ok s
  unfolding build_tag_moved_event
  build_tag_moved_event-current_state es prior key_id role timestamp {s} {e} h l b =
      let (link, hashed, made) = >>=-eq-ok (chain_hash c prior) _ b in
      let signed = sign_event-IsSigned _ e made in
      let result = extends es prior e s h l (chained prior e link _ hashed refl refl made) in
      let kept : e.new_state ≡ prior.new_state = ap (λ v. v.new_state) signed.same_payload in
      let was : s ≡ some prior.new_state = ((current_state_iff c es s).0 h).1 ∙ ap (state_of c) l in
      result ∙ ap (λ t. ok (some t)) kept ∙ ap ok (sym was)

  pub build_transition_event-seq :
      (prior : LifecycleEvent) (new_state : LifecycleState) (key_id : String) (role : SignerRole)
      (timestamp : TimestampToken) {e : LifecycleEvent}
      → build_transition_event c prior new_state key_id role timestamp ≡ ok e
      → e.seq ≡ u32 (prior.seq + 1)
  unfolding build_transition_event
  build_transition_event-seq prior new_state key_id role timestamp {e} b =
      let (link, hashed, made) = >>=-eq-ok (chain_hash c prior) _ b in
      ap (λ v. v.seq) (sign_event-IsSigned _ e made).same_payload

  pub build_tag_moved_event-seq :
      (prior : LifecycleEvent) (key_id : String) (role : SignerRole) (timestamp : TimestampToken)
      {e : LifecycleEvent}
      → build_tag_moved_event c prior key_id role timestamp ≡ ok e
      → e.seq ≡ u32 (prior.seq + 1)
  unfolding build_tag_moved_event
  build_tag_moved_event-seq prior key_id role timestamp {e} b =
      let (link, hashed, made) = >>=-eq-ok (chain_hash c prior) _ b in
      ap (λ v. v.seq) (sign_event-IsSigned _ e made).same_payload
