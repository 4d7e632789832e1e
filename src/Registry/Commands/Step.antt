-- ===== src/Registry/Commands/Step.antt =====
-- What one command does to the logs of a storage.
use mathlib.Core.Path.{subst}
use regulatory_rule_engine.Prelude.{
  String, ℕ, ◌<◌, ◌^◌, ◌≡◌, ◌≢◌, refl, sym, ap, ◌∙◌, some, List, [], ◌∷◌, ◌++◌, All, last, length,
  Result, ok, >>=-eq-ok, map_err, map_err-eq-ok, ok_or-eq-ok, ok-injective,
}
use regulatory_rule_engine.Ir.{Hash}
use regulatory_rule_engine.Artifact.Keydir.{registry}
use regulatory_rule_engine.Artifact.Tsa.{stamp}
use regulatory_rule_engine.Registry.State.{LifecycleState}
use regulatory_rule_engine.Registry.Error.{RegistryError, no_state}
use regulatory_rule_engine.Registry.Event.{LifecycleEvent, EventCrates, EventCratesLaws}
use regulatory_rule_engine.Registry.Log.{
  current_state, head_event, require_current_state, build_transition_event, build_tag_moved_event,
}
use regulatory_rule_engine.Registry.Log.Extend.{
  build_transition_event-current_state, build_tag_moved_event-current_state,
  build_transition_event-seq, build_tag_moved_event-seq,
}
use regulatory_rule_engine.Registry.Log.Numbers.{below_next}
use regulatory_rule_engine.Registry.Action.{with_error}
use regulatory_rule_engine.Registry.Action.Post.{
  Post, succeeded, post_value, post_step, post_error, post_weaken,
}
use regulatory_rule_engine.Registry.Backend.{RegistryBackend}
use regulatory_rule_engine.Registry.Backend.Laws.{BackendLaws}
use regulatory_rule_engine.Registry.Commands.{
  registry_error, CommandCrates, registry_root_key_id, append_transition, append_tag_moved,
}

abbrev pub Logs : Type 0
Logs = Hash → List LifecycleEvent

-- One log has one new event at its end, which took it from one state to another, and the evidence for
-- that was at hand; the other logs are as they were.
pub record Moved (c : EventCrates) (Evidence : Type 0) (h : Hash) (from to : LifecycleState)
    (before after : Logs) : Type 0 where
  pub event : LifecycleEvent
  pub evidence : Evidence
  pub was : current_state c (before h) ≡ ok (some from)
  pub appended : after h ≡ before h ++ event ∷ []
  pub becomes : current_state c (after h) ≡ ok (some to)
  pub elsewhere : (g : Hash) → g ≢ h → after g ≡ before g

-- How the logs stand to what they were before a command.
pub data Step (c : EventCrates) (Evidence : Type 0) (h : Hash) (from to : LifecycleState)
    (before after : Logs) : Type 0 where
  stays : after ≡ before → Step c Evidence h from to before after
  moves : Moved c Evidence h from to before after → Step c Evidence h from to before after

module _ (c : EventCrates) where
  pub require_current_state-eq-ok :
      (read : Result (List LifecycleEvent) RegistryError) {s : LifecycleState}
      → require_current_state c read ≡ ok s
      → (es : List LifecycleEvent) × (read ≡ ok es) × (current_state c es ≡ ok (some s))
  unfolding require_current_state
  require_current_state-eq-ok read h =
      let (es, found, h₁) = >>=-eq-ok read _ h in
      let (o, current, h₂) = >>=-eq-ok (current_state c es) _ h₁ in
      (es, found, current ∙ ap ok (ok_or-eq-ok no_state o h₂))

  pub head_event-eq-ok :
      (read : Result (List LifecycleEvent) RegistryError) {e : LifecycleEvent}
      → head_event c read ≡ ok e
      → (es : List LifecycleEvent) × (read ≡ ok es) × (last es ≡ some e)
  unfolding head_event
  head_event-eq-ok read {e} h =
      let (es, found, h₁) = >>=-eq-ok read _ h in
      let (o, current, h₂) = >>=-eq-ok (current_state c es) _ h₁ in
      (es, found, ok_or-eq-ok no_state (last es) h₂)

-- A log with room for one more event.
abbrev pub HasRoom : Logs → Hash → Type 0
HasRoom logs h = length (logs h) < 2 ^ 32

module _ {S : Type 0} (b : RegistryBackend S) {log_of : S → Logs}
    {IsApart : (env tag : String) → Type 0} (backend_laws : BackendLaws b log_of IsApart)
    (c : CommandCrates) (events_laws : EventCratesLaws c.events) where
  open backend_laws use {
    read_events-log_of, append_event-log_of, append_event_elsewhere, append_event_failed,
  }

  -- A state that was read is the state of the log.
  pub read_state :
      (h : Hash) (s : S) {st : LifecycleState}
      → map_err registry_error (require_current_state c.events (b.read_events h s)) ≡ ok st
      → current_state c.events (log_of s h) ≡ ok (some st)
  read_state h s p =
      let (es, found, current) =
        require_current_state-eq-ok c.events (b.read_events h s)
          (map_err-eq-ok registry_error _ p) in
      rw (read_events-log_of h s es found) current

  -- A head that was read is the last event of the log.
  read_head :
      (h : Hash) (s : S) {e : LifecycleEvent}
      → map_err registry_error (head_event c.events (b.read_events h s)) ≡ ok e
      → last (log_of s h) ≡ some e
  read_head h s p =
      let (es, found, head) =
        head_event-eq-ok c.events (b.read_events h s) (map_err-eq-ok registry_error _ p) in
      rw (read_events-log_of h s es found) head

  -- Appending an event that makes a log go on to a state.
  append_Moved :
      (Evidence : Type 0) (h : Hash) (s : S) (from to : LifecycleState) (e : LifecycleEvent)
      → Evidence
      → current_state c.events (log_of s h) ≡ ok (some from)
      → All (λ (x : LifecycleEvent). x.seq < e.seq) (log_of s h)
      → current_state c.events (log_of s h ++ e ∷ []) ≡ ok (some to)
      → (b.append_event h e s).0 ≡ ok tt
      → Moved c.events Evidence h from to (log_of s) (log_of (b.append_event h e s).1)
  append_Moved Evidence h s from to e evidence was below becomes done =
      let appended = append_event-log_of h e s done below in
      record {
        event = e;
        evidence = evidence;
        was = was;
        appended = appended;
        becomes = rw appended becomes;
        elsewhere = λ g other. append_event_elsewhere h g e s other;
      }

  pub append_transition-Post :
      (Evidence : Type 0) (h : Hash) (s : S) (from to : LifecycleState) (now_unix : ℕ)
      → Evidence
      → current_state c.events (log_of s h) ≡ ok (some from)
      → HasRoom (log_of s) h
      → Post
          (λ (e : LifecycleEvent) t. Moved c.events Evidence h from to (log_of s) (log_of t))
          (λ t. log_of t ≡ log_of s)
          (append_transition b c h to now_unix s)
  unfolding append_transition
  append_transition-Post Evidence h s from to now_unix evidence was room =
      post_value _ (map_err registry_error (head_event c.events (b.read_events h s))) refl
        λ prior head.
          post_value _
            (map_err registry_error (
              build_transition_event c.events prior to registry_root_key_id registry
                (stamp c.mock_tsa_sign h now_unix)))
            refl
            λ e built.
              let token = stamp c.mock_tsa_sign h now_unix in
              let made = map_err-eq-ok registry_error _ built in
              let tip = read_head h s head in
              let number =
                build_transition_event-seq c.events events_laws prior to registry_root_key_id
                  registry token made in
              let below =
                subst (λ n. All (λ (x : LifecycleEvent). x.seq < n) (log_of s h)) (sym number)
                  (below_next c.events (log_of s h) prior was tip room) in
              let becomes =
                build_transition_event-current_state c.events events_laws (log_of s h) prior to
                  registry_root_key_id registry token was tip made in
              post_step _ (with_error registry_error (b.append_event h e s))
                (post_error registry_error (b.append_event h e s)
                  (λ u done. append_Moved Evidence h s from to e evidence was below becomes done)
                  (λ x failed. append_event_failed h e s failed))
                λ u t moved. succeeded moved

  pub append_tag_moved-Post :
      (Evidence : Type 0) (h : Hash) (s : S) (from : LifecycleState) (now_unix : ℕ)
      → Evidence
      → current_state c.events (log_of s h) ≡ ok (some from)
      → HasRoom (log_of s) h
      → Post
          (λ (e : LifecycleEvent) t. Moved c.events Evidence h from from (log_of s) (log_of t))
          (λ t. log_of t ≡ log_of s)
          (append_tag_moved b c h now_unix s)
  unfolding append_tag_moved
  append_tag_moved-Post Evidence h s from now_unix evidence was room =
      post_value _ (map_err registry_error (head_event c.events (b.read_events h s))) refl
        λ prior head.
          post_value _
            (map_err registry_error (
              build_tag_moved_event c.events prior registry_root_key_id registry
                (stamp c.mock_tsa_sign h now_unix)))
            refl
            λ e built.
              let token = stamp c.mock_tsa_sign h now_unix in
              let made = map_err-eq-ok registry_error _ built in
              let tip = read_head h s head in
              let number =
                build_tag_moved_event-seq c.events events_laws prior registry_root_key_id registry
                  token made in
              let below =
                subst (λ n. All (λ (x : LifecycleEvent). x.seq < n) (log_of s h)) (sym number)
                  (below_next c.events (log_of s h) prior was tip room) in
              let becomes =
                build_tag_moved_event-current_state c.events events_laws (log_of s h) prior
                  registry_root_key_id registry token was tip made in
              post_step _ (with_error registry_error (b.append_event h e s))
                (post_error registry_error (b.append_event h e s)
                  (λ u done. append_Moved Evidence h s from from e evidence was below becomes done)
                  (λ x failed. append_event_failed h e s failed))
                λ u t moved. succeeded moved

  -- The same, from a state whose logs are those at the start of a command.
  pub append_transition-Step :
      (Evidence : Type 0) (h : Hash) (s : S) (from to : LifecycleState) (now_unix : ℕ)
      {before : Logs}
      → log_of s ≡ before
      → Evidence
      → current_state c.events (before h) ≡ ok (some from)
      → HasRoom before h
      → Post
          (λ (e : LifecycleEvent) t. Moved c.events Evidence h from to before (log_of t))
          (λ t. Step c.events Evidence h from to before (log_of t))
          (append_transition b c h to now_unix s)
  append_transition-Step Evidence h s from to now_unix {before} same evidence was room =
      subst
        (λ (logs : Logs).
          current_state c.events (logs h) ≡ ok (some from)
          → HasRoom logs h
          → Post (λ (e : LifecycleEvent) t. Moved c.events Evidence h from to logs (log_of t))
              (λ t. Step c.events Evidence h from to logs (log_of t))
              (append_transition b c h to now_unix s))
        same
        (λ w r.
          post_weaken (λ e t m. m) (λ t p. stays p)
            (append_transition-Post Evidence h s from to now_unix evidence w r))
        was room

  pub append_tag_moved-Step :
      (Evidence : Type 0) (h : Hash) (s : S) (from : LifecycleState) (now_unix : ℕ)
      → Evidence
      → current_state c.events (log_of s h) ≡ ok (some from)
      → HasRoom (log_of s) h
      → Post
          (λ (e : LifecycleEvent) t. Moved c.events Evidence h from from (log_of s) (log_of t))
          (λ t. Step c.events Evidence h from from (log_of s) (log_of t))
          (append_tag_moved b c h now_unix s)
  append_tag_moved-Step Evidence h s from now_unix evidence was room =
      post_weaken (λ e t m. m) (λ t p. stays p)
        (append_tag_moved-Post Evidence h s from now_unix evidence was room)

  -- A write that changes no log, before the logs have moved, and after.
  pub write_before :
      (Evidence : Type 0) (h : Hash) (from to : LifecycleState)
      (r : Result (Unit {0}) RegistryError × S) {before : Logs}
      → log_of r.1 ≡ before
      → Post
          (λ (u : Unit {0}) t. log_of t ≡ before)
          (λ t. Step c.events Evidence h from to before (log_of t))
          (with_error registry_error r)
  write_before Evidence h from to r same =
      post_error registry_error r (λ u done. same) (λ x failed. stays same)

  pub write_after :
      {Evidence : Type 0} {h : Hash} {from to : LifecycleState} {before : Logs} {s : S}
      (r : Result (Unit {0}) RegistryError × S)
      → log_of r.1 ≡ log_of s
      → Moved c.events Evidence h from to before (log_of s)
      → Post
          (λ (u : Unit {0}) t. Moved c.events Evidence h from to before (log_of t))
          (λ t. Step c.events Evidence h from to before (log_of t))
          (with_error registry_error r)
  write_after {Evidence} {h} {from} {to} {before} r same moved =
      let moved' = subst (Moved c.events Evidence h from to before) (sym same) moved in
      post_error registry_error r (λ u done. moved') (λ x failed. moves moved')

  -- The last read of a command sees the state that the log moved to.
  pub final_state :
      {Evidence : Type 0} {h : Hash} {from to : LifecycleState} {before : Logs} (s : S)
      {st : LifecycleState}
      → Moved c.events Evidence h from to before (log_of s)
      → map_err registry_error (require_current_state c.events (b.read_events h s)) ≡ ok st
      → st ≡ to
  final_state {h = h} s moved read = same (ok-injective (sym (read_state h s read) ∙ moved.becomes))
    where
      same : {x y : LifecycleState} → some x ≡ some y → x ≡ y
      same p = cc
