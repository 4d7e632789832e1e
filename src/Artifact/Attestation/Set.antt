-- ===== src/Artifact/Attestation/Set.antt =====
-- A set of attestations under a policy (`verify_attestation_set` of
-- crates/ke-artifact/src/attestation.rs). Of the artifact it reads the manifest and the attestations.
use regulatory_rule_engine.Prelude.{
  ℕ, ◌≤◌, ◌≡◌, refl, ap, ltb, ◌==◌, List_eq, ℕ_eq, Bool, true, false, ◌&&◌, Bool-cases,
  Option-cases, ◌⊎◌, inl, inr, Option, none, some, List, [], ◌∷◌, ◌++◌, length, is_empty, any, find,
  filter, All, Result, Result-cases, ok, err, if◌then◌else◌, arith,
}
use mathlib.Core.Path.{subst}
use regulatory_rule_engine.Manifest.{
  ArtifactKind, intent_spec, AttestationType, source_fidelity, scenario_coverage,
  publication_approval, AttestationCount, VerificationPolicy, Manifest,
}
use regulatory_rule_engine.Artifact.Keydir.{KeyDirectory}
use regulatory_rule_engine.Artifact.Attestation.{
  Attestation, AttestationCrates, PolicyContext, AttestationRejection, required_type_missing,
  co_attestation_absent, same_type, verify_attestation,
}

unfoldable pub co_attestation_types : ArtifactKind → List AttestationType
co_attestation_types intent_spec = source_fidelity ∷ []
co_attestation_types _ = scenario_coverage ∷ source_fidelity ∷ []

count_or_one : Option AttestationCount → ℕ
count_or_one none = 1
count_or_one (some c) = if ltb c.count 1 then 1 else c.count

unfoldable pub required_count : VerificationPolicy → AttestationType → ℕ
unfolding same_type count_or_one
required_count policy t = count_or_one (
    find (λ (c : AttestationCount). same_type c.attestation_type t)
      policy.minimum_attestation_count_per_type)

unfoldable pub found_count : List Attestation → AttestationType → ℕ
unfolding same_type
found_count valid t = length (filter (λ (a : Attestation). same_type a.attestation_type t) valid)

-- The required types of which there are too few.
unfoldable pub missing_types :
    VerificationPolicy → List Attestation → List AttestationType → List AttestationRejection
unfolding required_count found_count
missing_types policy valid [] = []
missing_types policy valid (t ∷ ts) =
    let rest = missing_types policy valid ts in
    if ltb (found_count valid t) (required_count policy t)
    then required_type_missing t (required_count policy t) (found_count valid t) ∷ rest
    else rest

unfoldable pub co_attested : List Attestation → Attestation → AttestationType → Bool
unfolding same_type
co_attested valid approval t =
    any
      (λ (a : Attestation).
        same_type a.attestation_type t && a.artifact_hash == approval.artifact_hash)
      valid

unfoldable pub absent_types :
    List Attestation → Attestation → List AttestationType → List AttestationRejection
unfolding co_attested
absent_types valid approval [] = []
absent_types valid approval (t ∷ ts) =
    let rest = absent_types valid approval ts in
    if co_attested valid approval t then rest else co_attestation_absent t ∷ rest

unfoldable pub approval_in : List Attestation → Option Attestation
unfolding same_type
approval_in = find (λ (a : Attestation). same_type a.attestation_type publication_approval)

unfoldable pub absent_for :
    List Attestation → ArtifactKind → Option Attestation → List AttestationRejection
unfolding absent_types co_attestation_types
absent_for valid kind none = []
absent_for valid kind (some approval) = absent_types valid approval (co_attestation_types kind)

module _ (c : AttestationCrates) where
  -- The first loop: the valid attestations, and the rejections of the others.
  unfoldable pub sift :
      List Attestation
      → Manifest
      → KeyDirectory
      → PolicyContext
      → List Attestation × List AttestationRejection
  sift [] m directory context = ([], [])
  sift (a ∷ attestations) m directory context =
      let (valid, rejections) = sift attestations m directory context in
      elim (verify_attestation c a m.artifact_hash m directory context) [
        | ok u ↦ (a ∷ valid, rejections)
        | err r ↦ (valid, r ∷ rejections)
      ]

  unfoldable pub verify_attestation_set :
      Manifest
      → List Attestation
      → VerificationPolicy
      → KeyDirectory
      → PolicyContext
      → Result (Unit {0}) (List AttestationRejection)
  unfolding sift missing_types absent_for approval_in
  verify_attestation_set m attestations policy directory context =
      let (valid, rejected) = sift attestations m directory context in
      let rejections =
        rejected
        ++ (missing_types policy valid policy.required_attestation_types
            ++ absent_for valid m.artifact_kind (approval_in valid)) in
      if is_empty rejections then ok tt else err rejections

append_empty :
    {A : Type 0} (xs ys : List A) → is_empty (xs ++ ys) ≡ true → (xs ≡ []) × (is_empty ys ≡ true)
append_empty [] ys h = (refl, h)
append_empty (x ∷ xs) ys h = cc

is_empty-nil : {A : Type 0} (xs : List A) → is_empty xs ≡ true → xs ≡ []
is_empty-nil [] h = refl
is_empty-nil (x ∷ xs) h = cc

not_fewer : (a b : ℕ) → ltb a b ≡ false → b ≤ a
not_fewer a b h = ground arith

accepted_empty :
    (rs : List AttestationRejection)
    → (if is_empty rs then ok tt else err rs) ≡ ok tt
    → is_empty rs ≡ true
accepted_empty [] h = refl
accepted_empty (r ∷ rs) h = cc

missing_types-nil :
    (policy : VerificationPolicy) (valid : List Attestation) (ts : List AttestationType)
    → missing_types policy valid ts ≡ []
    → All (λ t. required_count policy t ≤ found_count valid t) ts
unfolding missing_types
missing_types-nil policy valid [] h = tt
missing_types-nil policy valid (t ∷ ts) h =
    elim (Bool-cases (ltb (found_count valid t) (required_count policy t))) [
      | inl few ↦ cc (rw few at h)
      | inr enough ↦ (
        not_fewer (found_count valid t) (required_count policy t) enough,
        missing_types-nil policy valid ts (rw enough at h),
      )
    ]

absent_types-nil :
    (valid : List Attestation) (approval : Attestation) (ts : List AttestationType)
    → absent_types valid approval ts ≡ []
    → All (λ t. co_attested valid approval t ≡ true) ts
unfolding absent_types
absent_types-nil valid approval [] h = tt
absent_types-nil valid approval (t ∷ ts) h = elim (Bool-cases (co_attested valid approval t)) [
  | inl present ↦ (present, absent_types-nil valid approval ts (rw present at h))
  | inr absent ↦ cc (rw absent at h)
]

module _ (c : AttestationCrates) (m : Manifest) (directory : KeyDirectory)
    (context : PolicyContext) where
  sift-nil :
      (attestations : List Attestation)
      → (sift c attestations m directory context).1 ≡ []
      → ((sift c attestations m directory context).0 ≡ attestations)
        × All (λ a. verify_attestation c a m.artifact_hash m directory context ≡ ok tt) attestations
  unfolding sift
  sift-nil [] h = (refl, tt)
  sift-nil (a ∷ attestations) h =
      elim (Result-cases (verify_attestation c a m.artifact_hash m directory context)) [
        | inl (u, accepted) ↦
            let (same, others) = sift-nil attestations (rw (accepted, sift) at h) in
            rw (accepted, sift) (ap (λ xs. a ∷ xs) same, (refl, others))
        | inr (r, rejected) ↦ cc (rw (rejected, sift) at h)
      ]

  -- If `verify_attestation_set` accepts a set, then `verify_attestation` accepts each attestation of
  -- the set; of each required type there are at least as many as `required_count` asks for; and there
  -- is no publication approval, or for the first one the set has, over the same artifact, each type
  -- that the kind of the artifact asks for beside it.
  pub verify_attestation_set_sound :
      (attestations : List Attestation) (policy : VerificationPolicy)
      → verify_attestation_set c m attestations policy directory context ≡ ok tt
      → All (λ a. verify_attestation c a m.artifact_hash m directory context ≡ ok tt) attestations
        × All
            (λ t. required_count policy t ≤ found_count attestations t)
            policy.required_attestation_types
        × ((approval_in attestations ≡ none)
            ⊎ ((approval : Attestation) × (approval_in attestations ≡ some approval)
                × All
                    (λ t. co_attested attestations approval t ≡ true)
                    (co_attestation_types m.artifact_kind)))
  unfolding verify_attestation_set absent_for
  verify_attestation_set_sound attestations policy h =
      let valid = (sift c attestations m directory context).0 in
      let none_left = accepted_empty _ h in
      let (sifted, others) = append_empty (sift c attestations m directory context).1 _ none_left in
      let (enough, co) =
        append_empty (missing_types policy valid policy.required_attestation_types) _ others in
      let (same, each) = sift-nil attestations sifted in
      (
        each,
        subst
            (λ xs.
              All (λ t. required_count policy t ≤ found_count xs t)
                policy.required_attestation_types)
            same (missing_types-nil policy valid policy.required_attestation_types enough),
        elim (Option-cases (approval_in attestations)) [
          | inl missing ↦ inl missing
          | inr (approval, found) ↦ inr (
            approval,
            found,
            absent_types-nil attestations approval (co_attestation_types m.artifact_kind) (
                is_empty-nil _ (
                  rw found at (
                    subst (λ xs. is_empty (absent_for xs m.artifact_kind (approval_in xs)) ≡ true)
                      same co))),
          )
        ],
      )
