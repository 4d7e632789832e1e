-- ===== src/Registry/Backend/LocalFs/Logs.antt =====
-- The event logs that the files of a tree hold, and a new event's file in them.
use Prim.Native.Nat.{Ordering}
use Prim.Native.String.{compare}
use regulatory_rule_engine.Prelude.{
  ◌<◌, ◌≡◌, ◌≢◌, refl, sym, ap, ◌∙◌, inl, inr, leb, true, false, Bool-cases, none, String, List, [],
  ◌∷◌, ◌++◌, All, Result, ok, err, map_err, >>=-eq-ok, map_err-eq-ok, arith, ok-injective, ◌==◌,
  PartialEq, List_eq, ℕ_eq, String_eq, Pair_eq, eq_of_beq, beq_refl,
}
use regulatory_rule_engine.Ir.{Hash}
use regulatory_rule_engine.Crypto.{Bytes}
use regulatory_rule_engine.Registry.Error.{event_json_decode}
use regulatory_rule_engine.Registry.Event.{LifecycleEvent}
use regulatory_rule_engine.Registry.Backend.LocalFs.{
  Files, at, without, put, EventPath, Tree, LocalFsCrates, insert_named, sort_named, insert_by_seq,
  sort_by_seq, listing, attempt,
}
use regulatory_rule_engine.Registry.Backend.LocalFs.Read.{read_files, read_events}
use regulatory_rule_engine.Registry.Backend.LocalFs.Write.{event_path}

abbrev pub Below : LifecycleEvent → List LifecycleEvent → Type 0
Below e = All (λ (x : LifecycleEvent). x.seq < e.seq)

insert_by_seq-above :
    (e : LifecycleEvent) (xs : List LifecycleEvent) → Below e xs → insert_by_seq e xs ≡ xs ++ e ∷ []
unfolding insert_by_seq
insert_by_seq-above e [] h = refl
insert_by_seq-above e (x ∷ xs) h =
    let above : leb e.seq x.seq ≡ false = ground (arith, h.0) in
    rw above (ap (λ t. x ∷ t) (insert_by_seq-above e xs h.1))

insert_by_seq-last :
    (x e : LifecycleEvent) (xs : List LifecycleEvent)
    → x.seq < e.seq
    → insert_by_seq x (xs ++ e ∷ []) ≡ insert_by_seq x xs ++ e ∷ []
unfolding insert_by_seq
insert_by_seq-last x e [] h =
    let first : leb x.seq e.seq ≡ true = ground (arith, h) in rw first refl
insert_by_seq-last x e (y ∷ ys) h = elim (Bool-cases (leb x.seq y.seq)) [
  | inl first ↦ rw (first) refl
  | inr later ↦ rw (later) (ap (λ t. y ∷ t) (insert_by_seq-last x e ys h))
]

Below-insert :
    (e x : LifecycleEvent) (xs : List LifecycleEvent)
    → Below e (insert_by_seq x xs)
    → (x.seq < e.seq) × Below e xs
unfolding insert_by_seq
Below-insert e x [] h = h
Below-insert e x (y ∷ ys) h = elim (Bool-cases (leb x.seq y.seq)) [
  | inl first ↦ rw first at h
  | inr later ↦
      let (hy, rest) = rw later at h in let (hx, hys) = Below-insert e x ys rest in (hx, (hy, hys))
]

module _ {K : Type 0} ⦃e : PartialEq K⦄ where
  without-absent : (k : K) (fs : Files K) → at k fs ≡ none → without k fs ≡ fs
  unfolding at without
  without-absent k [] h = refl
  without-absent k (f ∷ fs) h = elim (Bool-cases (e.same f.0 k)) [
    | inl there ↦ cc (rw there at h)
    | inr other ↦ rw other (ap (λ t. f ∷ t) (without-absent k fs (rw other at h)))
  ]

module _ (c : LocalFsCrates) where
  abbrev pub kept : Result LifecycleEvent String → List LifecycleEvent → List LifecycleEvent
  kept (ok e) es = e ∷ es
  kept (err x) es = es

  -- The events of some files, without the files that do not parse.
  abbrev pub parsed_events : Files EventPath → List LifecycleEvent
  parsed_events [] = []
  parsed_events (f ∷ fs) = kept (c.event.from_slice f.1) (parsed_events fs)

  abbrev pub events_in : Files EventPath → Hash → List LifecycleEvent
  events_in fs h = sort_by_seq (parsed_events (sort_named (listing h fs)))

  read_files-parsed :
      (t : Tree) (fs : Files EventPath) (es : List LifecycleEvent)
      → read_files c t fs ≡ ok es
      → parsed_events fs ≡ es
  unfolding read_files
  read_files-parsed t [] es h = ok-injective h
  read_files-parsed t (f ∷ fs) es h =
      let (u, tried, h₁) = >>=-eq-ok (attempt c "read event" t) _ h in
      let (e, read, h₂) = >>=-eq-ok (map_err event_json_decode (c.event.from_slice f.1)) _ h₁ in
      let (rest, others, h₃) = >>=-eq-ok (read_files c t fs) _ h₂ in
      rw
        (
          map_err-eq-ok event_json_decode (c.event.from_slice f.1) read,
          read_files-parsed t fs rest others,
        )
        (ok-injective h₃)

  insert_named-last :
      (f : EventPath × Bytes) (e : LifecycleEvent) (gs : Files EventPath)
      → c.event.from_slice f.1 ≡ ok e
      → Below e (sort_by_seq (parsed_events gs))
      → sort_by_seq (parsed_events (insert_named f gs)) ≡ sort_by_seq (parsed_events gs) ++ e ∷ []
  unfolding insert_named sort_by_seq
  insert_named-last f e [] p h = rw p refl
  insert_named-last f e (g ∷ gs) p h = step (insert_named-last f e gs p) (compare f.0.1 g.0.1)
    where
      front :
          sort_by_seq (parsed_events (f ∷ g ∷ gs)) ≡ sort_by_seq (parsed_events (g ∷ gs)) ++ e ∷ []
      front = rw (p, sort_by_seq) (insert_by_seq-above e (sort_by_seq (parsed_events (g ∷ gs))) h)

      Earlier : Type 0
      Earlier =
          Below e (sort_by_seq (parsed_events gs))
          → sort_by_seq (parsed_events (insert_named f gs))
            ≡ sort_by_seq (parsed_events gs) ++ e ∷ []

      back :
          Earlier
          → (r : Result LifecycleEvent String) → Below e (sort_by_seq (kept r (parsed_events gs)))
          → sort_by_seq (kept r (parsed_events (insert_named f gs)))
            ≡ sort_by_seq (kept r (parsed_events gs)) ++ e ∷ []
      back earlier (err x) below = earlier below
      back earlier (ok x) below =
          let (hx, rest) = Below-insert e x (sort_by_seq (parsed_events gs)) below in
          ap (insert_by_seq x) (earlier rest)
          ∙ insert_by_seq-last x e (sort_by_seq (parsed_events gs)) hx

      step :
          Earlier
          → (o : Ordering)
          → sort_by_seq
              (parsed_events (elim o [ Ordering.gt ↦ g ∷ insert_named f gs | _ ↦ f ∷ g ∷ gs ]))
            ≡ sort_by_seq (parsed_events (g ∷ gs)) ++ e ∷ []
      step earlier Ordering.gt = back earlier (c.event.from_slice g.1) h
      step earlier Ordering.lt = front
      step earlier Ordering.eq = front

  pub read_events-parsed :
      (h : Hash) (t : Tree) (es : List LifecycleEvent)
      → read_events c h t ≡ ok es
      → events_in t.event_files h ≡ es
  unfolding read_events
  read_events-parsed h t es r =
      let files = sort_named (listing h t.event_files) in
      let (u, listed, r₁) = >>=-eq-ok (attempt c "read events dir" t) _ r in
      let (v, entries, r₂) = >>=-eq-ok (attempt c "read event entry" t) _ r₁ in
      let (found, read, r₃) = >>=-eq-ok (read_files c t files) _ r₂ in
      ap sort_by_seq (read_files-parsed t files found read) ∙ ok-injective r₃

  -- Writing a new event's file, seen in the logs.
  pub events_in-put :
      (h : Hash) (e : LifecycleEvent) (json : Bytes) (fs : Files EventPath)
      → at (event_path c h e) fs ≡ none
      → c.event.from_slice json ≡ ok e
      → Below e (events_in fs h)
      → events_in (put (event_path c h e) json fs) h ≡ events_in fs h ++ e ∷ []
  unfolding put listing sort_named event_path
  events_in-put h e json fs absent parses below =
      rw (without-absent (event_path c h e) fs absent, beq_refl h)
        (insert_named-last (event_path c h e, json) e (sort_named (listing h fs)) parses below)

  pub events_in-put_elsewhere :
      (h g : Hash) (e : LifecycleEvent) (json : Bytes) (fs : Files EventPath)
      → at (event_path c h e) fs ≡ none
      → g ≢ h
      → events_in (put (event_path c h e) json fs) g ≡ events_in fs g
  unfolding put listing sort_named event_path
  events_in-put_elsewhere h g e json fs absent other = elim (Bool-cases (h == g)) [
    | inl same ↦ absurd (other (sym (eq_of_beq h g same)))
    | inr differ ↦ rw (without-absent (event_path c h e) fs absent, differ) refl
  ]
