-- ===== src/Registry/Resolve/Found.antt =====
-- What `resolve` has found out when it answers.
use mathlib.Core.Path.{subst}
use regulatory_rule_engine.Prelude.{
  ◌≡◌, ap, ◌∙◌, inl, inr, String, Bool, true, false, Bool-cases, ◌==◌, eq_of_beq, beq_refl, Option,
  some, List, [], ◌∷◌, ◌++◌, All, ok, ok-injective, >>=-eq-ok, if◌then◌else◌, List_eq, ℕ_eq,
  String_eq, arith,
}
use regulatory_rule_engine.Ir.{Hash, JurisdictionDate}
use regulatory_rule_engine.Manifest.{Manifest}
use regulatory_rule_engine.Registry.State.{LifecycleState, published}
use regulatory_rule_engine.Registry.Event.{LifecycleEvent, EventCrates}
use regulatory_rule_engine.Registry.Log.{current_state}
use regulatory_rule_engine.Registry.Backend.{RegistryBackend}
use regulatory_rule_engine.Registry.Resolve.{window_contains, some_published, matches, all_matches}

cons_injective :
    {A : Type 0} {x y : A} {xs ys : List A}
    → ◌≡◌ {A = List A} (x ∷ xs) (y ∷ ys)
    → (x ≡ y) × (xs ≡ ys)
cons_injective h = (cc h, cc h)

some_published_lem : (o : Option LifecycleState) → some_published o ≡ true → o ≡ some published
unfolding some_published
some_published_lem o h = ground arith

module _ {S : Type 0} (b : RegistryBackend S) (c : EventCrates) (s : S) where
  -- A manifest of the regime, in force at the date, of an artifact whose valid log ends in the
  -- state published.
  pub record Eligible (regime_id : String) (effective : JurisdictionDate) (m : Hash × Manifest)
      : Type 0 where
    pub of_regime : m.1.regime_id ≡ regime_id
    pub in_force : window_contains m.1.effective_from m.1.effective_to effective ≡ true
    pub log : List LifecycleEvent
    pub log_read : b.read_events m.0 s ≡ ok log
    pub is_published : current_state c log ≡ ok (some published)

  -- One of the manifests is eligible, and no other is.
  pub record OnlyOne (regime_id : String) (effective : JurisdictionDate) (h : Hash)
      (ms : List (Hash × Manifest)) : Type 0 where
    pub before : List (Hash × Manifest)
    pub manifest : Manifest
    pub after : List (Hash × Manifest)
    pub split : ms ≡ before ++ (h, manifest) ∷ after
    pub chosen : Eligible regime_id effective (h, manifest)
    pub none_before : All (λ m. ¬ Eligible regime_id effective m) before
    pub none_after : All (λ m. ¬ Eligible regime_id effective m) after

  matches-Eligible :
      (regime_id : String) (effective : JurisdictionDate) (m : Hash × Manifest)
      → matches b c s regime_id effective m ≡ ok true
      → Eligible regime_id effective m
  unfolding matches
  matches-Eligible regime_id effective m h = elim (Bool-cases (m.1.regime_id == regime_id)) [
    | inr other ↦ cc (rw other at h)
    | inl same ↦ elim (Bool-cases (window_contains m.1.effective_from m.1.effective_to effective)) [
      | inr out ↦ cc (rw (same, out) at h)
      | inl within ↦
          let read = >>=-eq-ok (b.read_events m.0 s) _ (rw (same, within) at h) in
          let walked = >>=-eq-ok (current_state c read.0) _ read.2 in
          record {
            of_regime = eq_of_beq m.1.regime_id regime_id same;
            in_force = within;
            log = read.0;
            log_read = read.1;
            is_published = walked.1 ∙ ap ok (some_published_lem walked.0 (ok-injective walked.2));
          }
    ]
  ]

  Eligible-matches :
      (regime_id : String) (effective : JurisdictionDate) (m : Hash × Manifest)
      → Eligible regime_id effective m
      → matches b c s regime_id effective m ≡ ok true
  unfolding matches some_published
  Eligible-matches regime_id effective m e =
      rw (e.of_regime, beq_refl regime_id, e.in_force, e.log_read, e.is_published)

  -- A round of the loop that passes: a match, or not.
  data Round (regime_id : String) (effective : JurisdictionDate) (m : Hash × Manifest)
      (ms : List (Hash × Manifest)) (hs : List Hash) : Type 0 where
    hit :
        (rest : List Hash)
        → matches b c s regime_id effective m ≡ ok true
        → all_matches b c s regime_id effective ms ≡ ok rest
        → m.0 ∷ rest ≡ hs
        → Round regime_id effective m ms hs
    miss :
        matches b c s regime_id effective m ≡ ok false
        → all_matches b c s regime_id effective ms ≡ ok hs
        → Round regime_id effective m ms hs

  round :
      (regime_id : String) (effective : JurisdictionDate) (m : Hash × Manifest)
      (ms : List (Hash × Manifest)) {hs : List Hash}
      → all_matches b c s regime_id effective (m ∷ ms) ≡ ok hs
      → Round regime_id effective m ms hs
  unfolding all_matches
  round regime_id effective m ms {hs} h =
      let tested = >>=-eq-ok (matches b c s regime_id effective m) _ h in
      let others = >>=-eq-ok (all_matches b c s regime_id effective ms) _ tested.2 in
      gathered tested.0 tested.1 others.0 others.1 (ok-injective others.2)
    where
      gathered :
          (found : Bool)
          → matches b c s regime_id effective m ≡ ok found
          → (rest : List Hash) → all_matches b c s regime_id effective ms ≡ ok rest
          → (if found then m.0 ∷ rest else rest) ≡ hs
          → Round regime_id effective m ms hs
      gathered true t rest o g = hit rest t o g
      gathered false t rest o g = miss t (o ∙ ap ok g)

  not-Eligible :
      (regime_id : String) (effective : JurisdictionDate) (m : Hash × Manifest)
      → matches b c s regime_id effective m ≡ ok false
      → ¬ Eligible regime_id effective m
  not-Eligible regime_id effective m h e = cc (h, Eligible-matches regime_id effective m e)

  none-Eligible :
      (regime_id : String) (effective : JurisdictionDate) (ms : List (Hash × Manifest))
      {hs : List Hash}
      → all_matches b c s regime_id effective ms ≡ ok hs
      → hs ≡ []
      → All (λ m. ¬ Eligible regime_id effective m) ms
  none-Eligible regime_id effective [] h e = tt
  none-Eligible regime_id effective (m ∷ ms) h e = elim (round regime_id effective m ms h) [
    | hit rest t o g ↦ cc (e, g)
    | miss t o ↦ (not-Eligible regime_id effective m t, none-Eligible regime_id effective ms o e)
  ]

  pub only_one :
      (regime_id : String) (effective : JurisdictionDate) (ms : List (Hash × Manifest))
      {hs : List Hash} (h : Hash)
      → all_matches b c s regime_id effective ms ≡ ok hs
      → hs ≡ h ∷ []
      → OnlyOne regime_id effective h ms
  unfolding all_matches
  only_one regime_id effective [] h found e = cc (found, e)
  only_one regime_id effective (m ∷ ms) h found e = elim (round regime_id effective m ms found) [
    | hit rest t o g ↦ record {
      before = [];
      manifest = m.1;
      after = ms;
      split = ap (λ x. (x, m.1) ∷ ms) (cons_injective (g ∙ e)).0;
      chosen =
          subst (λ x. Eligible regime_id effective (x, m.1)) (cons_injective (g ∙ e)).0
            (matches-Eligible regime_id effective m t);
      none_before = tt;
      none_after = none-Eligible regime_id effective ms o (cons_injective (g ∙ e)).1;
    }
    | miss t o ↦
        let later = only_one regime_id effective ms h o e in
        record {
          before = m ∷ later.before;
          manifest = later.manifest;
          after = later.after;
          split = ap (λ x. m ∷ x) later.split;
          chosen = later.chosen;
          none_before = (not-Eligible regime_id effective m t, later.none_before);
          none_after = later.none_after;
        }
  ]
