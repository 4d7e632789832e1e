-- ===== src/Canonical/Walkers.antt =====
-- The walkers that change something: what they return passes the validator, and what passes the
-- validator they leave alone.
use mathlib.Core.List.{Permᴰ}
use regulatory_rule_engine.Prelude.{
  ap, ◌∙◌, >>=-eq-ok, ok-injective, String, ◌≡◌, refl, ℤ, Option, none, some, List, Result, ok,
  ◌>>◌,
}
use regulatory_rule_engine.Ir.{
  ScalarValue, ScalarValues, str, bool, decimal, list, Condition, ConditionOrGroup, condition,
  group, ConditionGroupSpec, group_spec, OptionItems, absent, present, Items, DecisionEntry, node,
  leaf, RuleIr,
}
use regulatory_rule_engine.Manifest.{VerificationPolicy, PolicyBundle}
use regulatory_rule_engine.Crypto.{Bytes, CodecError}
use regulatory_rule_engine.Canonical.Decimal.{normalize_decimal, check_decimal_canonical}
use regulatory_rule_engine.Canonical.Decimal.Form.{
  normalize_decimal-canonical, normalize_decimal-fixed,
}
use regulatory_rule_engine.Canonical.Set.{canonicalize_set, check_set_canonical}
use regulatory_rule_engine.Canonical.Set.Sorted.{canonicalize_set_sound, canonicalize_set_fixed}
use regulatory_rule_engine.Canonical.Ordering.{
  CanonicalCrates, ensure_nfc, check_nfc, for_each, when_some,
}
use regulatory_rule_engine.Canonical.Encode.{
  canonicalize_scalar, canonicalize_scalars, canonicalize_condition, canonicalize_cond_or_group,
  canonicalize_group, canonicalize_option, canonicalize_items, canonicalize_entry,
  canonicalize_tags, canonicalize_applies_if, canonicalize_rule, canonicalize_verification_policy,
  canonicalize_policy, canonicalize_obligation, canonicalize_doc_ref, canonicalize_window,
  canonicalize_provenance,
}
use regulatory_rule_engine.Canonical.Decode.{
  validate_scalar, validate_scalars, validate_condition, validate_cond_or_group, validate_group,
  validate_option, validate_items, validate_entry, validate_tags, validate_rule,
  validate_verification_policy, validate_policy, validate_obligation, validate_doc_ref,
  validate_window, validate_provenance,
}
use regulatory_rule_engine.Canonical.Agree.{
  Agree-for_each, Agree-when_some, Rebuilds, Normalizes, Rebuilds-check, Rebuilds-last,
  Rebuilds-end, Rebuilds-part, Rebuilds-whole,
}
use regulatory_rule_engine.Canonical.Checks.{
  Agree-nfc, Agree-nfc_option, Agree-source_span, Agree-obligation, Agree-leaf, Agree-doc_ref,
  Agree-window, Agree-provenance,
}

Normalizes-ok :
    {A E F : Type 0} (a : A) (valid : A → Result (Unit {0}) F)
    → valid a ≡ ok tt
    → Normalizes {E = E} (ok a) valid a
Normalizes-ok a valid h = record { sound = λ b p. (a, cc, h); fixed = λ k. refl }

Normalizes-decimal :
    (m s : ℤ) → Normalizes (normalize_decimal m s) (λ p. check_decimal_canonical p.0 p.1) (m, s)
Normalizes-decimal m s = record {
  sound = λ p h. (p, refl, normalize_decimal-canonical m s h);
  fixed = normalize_decimal-fixed m s;
}

Normalizes-set :
    {T : Type 0} (to_stdvec : T → Result Bytes CodecError) (xs : List T)
    → Normalizes (canonicalize_set to_stdvec xs) (check_set_canonical to_stdvec) xs
Normalizes-set to_stdvec xs = record {
  sound = λ ys h. (ys, refl, (canonicalize_set_sound to_stdvec xs h).1);
  fixed = canonicalize_set_fixed to_stdvec xs;
}

-- Checks on all elements do not depend on the order of the elements.
for_each-perm :
    {A F : Type 0} (f : A → Result (Unit {0}) F) {xs ys : List A}
    → Permᴰ xs ys
    → for_each f ys ≡ ok tt
    → for_each f xs ≡ ok tt
for_each-perm f Permᴰ.nil h = h
for_each-perm f (Permᴰ.cons {l₁ = xs} {l₂ = ys} e p) h =
    let (u, first, rest) = >>=-eq-ok _ (λ _. for_each f ys) h in
    rw (ap f e ∙ first) (for_each-perm f p rest)
for_each-perm f (Permᴰ.swap {a = a} {b = b} {a' = a'} {b' = b'} {l = l} e g) h =
    let (u, first, rest) = >>=-eq-ok (f a') (λ _. f b' >> for_each f l) h in
    let (v, second, last) = >>=-eq-ok (f b') (λ _. for_each f l) rest in
    rw (ap f e ∙ second, ap f g ∙ first) last
for_each-perm f (Permᴰ.trans p q) h = for_each-perm f p (for_each-perm f q h)

module _ (c : CanonicalCrates) where
  mutual
    unfolding canonicalize_scalar validate_scalar

    Normalizes-scalar :
        (v : ScalarValue) → Normalizes (canonicalize_scalar c v) (validate_scalar c) v
    Normalizes-scalar (str s) =
        Rebuilds-whole (λ x. refl) (Rebuilds-end tt (λ _. str s) (Agree-nfc c s))
    Normalizes-scalar (bool b) = Normalizes-ok (bool b) (validate_scalar c) refl
    Normalizes-scalar (decimal m s) =
        Rebuilds-whole (λ x. refl)
          (Rebuilds-last (λ (p : ℤ × ℤ). decimal p.0 p.1) (Normalizes-decimal m s))
    Normalizes-scalar (list xs) =
        Rebuilds-whole (λ x. refl) (Rebuilds-last list (Normalizes-scalars xs))

    Normalizes-scalars :
        (vs : ScalarValues) → Normalizes (canonicalize_scalars c vs) (validate_scalars c) vs
    Normalizes-scalars ScalarValues.nil = Normalizes-ok ScalarValues.nil (validate_scalars c) refl
    Normalizes-scalars (ScalarValues.cons x xs) =
        Rebuilds-whole (λ p. refl)
          (Rebuilds-part ScalarValues.cons (Normalizes-scalar x)
            (λ x'. Rebuilds-last (ScalarValues.cons x') (Normalizes-scalars xs)))

  Normalizes-condition :
      (k : Condition) → Normalizes (canonicalize_condition c k) (validate_condition c) k
  unfolding canonicalize_condition validate_condition
  Normalizes-condition k =
      Rebuilds-whole (λ x. refl)
        (Rebuilds-check (Agree-nfc c k.field) (
          Rebuilds-check (Agree-nfc_option c k.description)
            (Rebuilds-last (λ v. record k { value = v }) (Normalizes-scalar k.value))))

  mutual
    unfolding canonicalize_cond_or_group validate_cond_or_group

    Normalizes-cond_or_group :
        (x : ConditionOrGroup)
        → Normalizes (canonicalize_cond_or_group c x) (validate_cond_or_group c) x
    Normalizes-cond_or_group (condition k) =
        Rebuilds-whole (λ x. refl) (Rebuilds-last condition (Normalizes-condition k))
    Normalizes-cond_or_group (group g) =
        Rebuilds-whole (λ x. refl) (Rebuilds-last group (Normalizes-group g))

    Normalizes-group :
        (g : ConditionGroupSpec) → Normalizes (canonicalize_group c g) (validate_group c) g
    Normalizes-group (group_spec all_of any_of) =
        Rebuilds-whole (λ p. refl)
          (Rebuilds-part group_spec (Normalizes-option all_of)
            (λ x. Rebuilds-last (group_spec x) (Normalizes-option any_of)))

    Normalizes-option :
        (o : OptionItems) → Normalizes (canonicalize_option c o) (validate_option c) o
    Normalizes-option absent = Normalizes-ok absent (validate_option c) refl
    Normalizes-option (present xs) =
        Rebuilds-whole (λ x. refl) (Rebuilds-last present (Normalizes-items xs))

    Normalizes-items : (xs : Items) → Normalizes (canonicalize_items c xs) (validate_items c) xs
    Normalizes-items Items.nil = Normalizes-ok Items.nil (validate_items c) refl
    Normalizes-items (Items.cons x xs) =
        Rebuilds-whole (λ p. refl)
          (Rebuilds-part Items.cons (Normalizes-cond_or_group x)
            (λ x'. Rebuilds-last (Items.cons x') (Normalizes-items xs)))

  Normalizes-entry : (e : DecisionEntry) → Normalizes (canonicalize_entry c e) (validate_entry c) e
  unfolding canonicalize_entry validate_entry
  Normalizes-entry (node node_id k t f span) =
      Rebuilds-whole (λ p. refl)
        (Rebuilds-check (Agree-nfc c node_id) (
          Rebuilds-part
            (λ k' (p : DecisionEntry × (DecisionEntry × Unit {0})). node node_id k' p.0 p.1.0 span)
            (Normalizes-condition k)
            (λ k'.
              Rebuilds-part (λ t' (p : DecisionEntry × Unit {0}). node node_id k' t' p.0 span)
                (Normalizes-entry t)
                (λ t'.
                  Rebuilds-part (λ f' (u : Unit {0}). node node_id k' t' f' span)
                    (Normalizes-entry f)
                    (λ f'.
                      Rebuilds-end tt (λ _. node node_id k' t' f' span)
                        (Agree-when_some (Agree-source_span c) span))))))
  Normalizes-entry (leaf l) =
      Rebuilds-whole (λ x. refl) (Rebuilds-end tt (λ _. leaf l) (Agree-leaf c l))

  Normalizes-tags :
      (o : Option (List String)) → Normalizes (canonicalize_tags c o) (validate_tags c) o
  unfolding canonicalize_tags validate_tags
  Normalizes-tags none = Normalizes-ok none (validate_tags c) refl
  Normalizes-tags (some tags) = record {
    sound = λ o h.
        let (u, nfc, h₁) = >>=-eq-ok (for_each (ensure_nfc c) tags) _ h in
        let (tags', sorted, made) = >>=-eq-ok (canonicalize_set c.tag_to_stdvec tags) _ h₁ in
        let (perm, passes) = canonicalize_set_sound c.tag_to_stdvec tags sorted in
        let nfc' = for_each-perm (check_nfc c) perm ((Agree-for_each (Agree-nfc c) tags).to nfc) in
        (some tags', ok-injective made, rw nfc' passes);
    fixed = λ h.
        let (u, nfc, sorted) = >>=-eq-ok (for_each (check_nfc c) tags) _ h in
        rw
          (
            (Agree-for_each (Agree-nfc c) tags).from nfc,
            canonicalize_set_fixed c.tag_to_stdvec tags sorted,
          )
          refl;
  }

  Normalizes-applies_if :
      (o : Option ConditionGroupSpec)
      → Normalizes (canonicalize_applies_if c o) (when_some (validate_group c)) o
  unfolding canonicalize_applies_if
  Normalizes-applies_if none = Normalizes-ok none (when_some (validate_group c)) refl
  Normalizes-applies_if (some g) =
      Rebuilds-whole (λ x. refl) (Rebuilds-last some (Normalizes-group g))

  abbrev with_parts :
      RuleIr → Option (List String) → Option ConditionGroupSpec → DecisionEntry → RuleIr
  with_parts r tags applies_if tree = record r {
    tags = tags;
    applies_if = applies_if;
    decision_tree = tree;
  }

  -- The checks that follow the last changed part of a rule.
  rule_tail :
      (r result : RuleIr)
      → Rebuilds
          (for_each (canonicalize_obligation c) r.obligations
            >> (canonicalize_doc_ref c r.source
                >> (when_some (canonicalize_window c) r.effective_window
                    >> (canonicalize_provenance c r.provenance >> ok result))))
          (λ (_ : Unit {0}).
            for_each (validate_obligation c) r.obligations
            >> (validate_doc_ref c r.source
                >> (when_some (validate_window c) r.effective_window
                    >> validate_provenance c r.provenance)))
          tt
          (λ _. result)
  rule_tail r result = Rebuilds-check (Agree-for_each (Agree-obligation c) r.obligations) (
      Rebuilds-check (Agree-doc_ref c r.source) (
        Rebuilds-check (Agree-when_some (Agree-window c) r.effective_window)
          (Rebuilds-end tt (λ _. result) (Agree-provenance c r.provenance))))

  pub Normalizes-rule : (r : RuleIr) → Normalizes (canonicalize_rule c r) (validate_rule c) r
  unfolding canonicalize_rule validate_rule
  Normalizes-rule r =
      Rebuilds-whole (λ p. refl)
        (Rebuilds-check (Agree-nfc c r.rule_id) (
          Rebuilds-check (Agree-nfc c r.rule_version) (
            Rebuilds-check (Agree-nfc_option c r.description) (
              Rebuilds-check (Agree-nfc_option c r.interpretation_notes) (
                Rebuilds-part
                  (λ tags (p : Option ConditionGroupSpec × (DecisionEntry × Unit {0})).
                    with_parts r tags p.0 p.1.0)
                  (Normalizes-tags r.tags)
                  (λ tags.
                    Rebuilds-part
                      (λ applies (p : DecisionEntry × Unit {0}). with_parts r tags applies p.0)
                      (Normalizes-applies_if r.applies_if)
                      (λ applies.
                        Rebuilds-part (λ tree (u : Unit {0}). with_parts r tags applies tree)
                          (Normalizes-entry r.decision_tree)
                          (λ tree. rule_tail r (with_parts r tags applies tree)))))))))

  Normalizes-verification_policy :
      (v : VerificationPolicy)
      → Normalizes (canonicalize_verification_policy c v) (validate_verification_policy c) v
  unfolding canonicalize_verification_policy validate_verification_policy
  Normalizes-verification_policy v =
      Rebuilds-whole (λ p. refl)
        (Rebuilds-part
          (λ types counts. record v {
            required_attestation_types = types;
            minimum_attestation_count_per_type = counts;
          })
          (Normalizes-set c.type_to_stdvec v.required_attestation_types)
          (λ types.
            Rebuilds-last
              (λ counts. record v {
                required_attestation_types = types;
                minimum_attestation_count_per_type = counts;
              })
              (Normalizes-set c.count_to_stdvec v.minimum_attestation_count_per_type)))

  pub Normalizes-policy :
      (p : PolicyBundle) → Normalizes (canonicalize_policy c p) (validate_policy c) p
  unfolding canonicalize_policy validate_policy
  Normalizes-policy p =
      Rebuilds-whole (λ q. refl)
        (Rebuilds-check (Agree-nfc c p.environment) (
          Rebuilds-part (λ v (u : Unit {0}). record p { verification_policy = v })
            (Normalizes-verification_policy p.verification_policy)
            (λ v.
              Rebuilds-end tt (λ _. record p { verification_policy = v })
                (Agree-window c p.effective_window))))
