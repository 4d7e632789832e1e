-- ===== src/Registry/Resolve/OwnHash.antt =====
-- The test of the resolved hash in `verify_resolved_artifact`, on the file store
-- (crates/ke-cli/src/registry/mod.rs, crates/ke-cli/src/registry/backend.rs).
use regulatory_rule_engine.Prelude.{
  ◌≡◌, refl, sym, ap, ◌∙◌, inl, inr, String, Bool-cases, true, ◌==◌, beq_refl, eq_of_beq, Option,
  some, List, [], ◌∷◌, All, find, ok_or, ok, ok-injective, ◌>>=◌, >>=-eq-ok, List_eq, ℕ_eq,
  Option-cases, map_err,
}
use Prim.Native.Nat.{Ordering}
use mathlib.Core.Path.{subst}
use regulatory_rule_engine.Ir.{Hash}
use regulatory_rule_engine.Manifest.{Manifest}
use regulatory_rule_engine.Canonical.Bytewise.{bytes_cmp}
use regulatory_rule_engine.Artifact.Envelope.Decode.{decode_artifact}
use regulatory_rule_engine.Registry.Error.{artifact_decode, not_found}
use regulatory_rule_engine.Registry.Event.{EventCrates}
use regulatory_rule_engine.Registry.Backend.LocalFs.{Files, Tree, LocalFsCrates, attempt}
use regulatory_rule_engine.Registry.Backend.LocalFs.Read.{
  decode_all, insert_manifest, sort_manifests, list_manifests,
}
use regulatory_rule_engine.Registry.Backend.LocalFs.Store.{local_fs}
use regulatory_rule_engine.Registry.Resolve.{verify_resolved_artifact}

-- A manifest that is listed under the hash that it has itself.
abbrev OwnHash : Hash × Manifest → Type 0
OwnHash m = m.0 ≡ m.1.artifact_hash

some_injective : {A : Type 0} {x y : A} → ◌≡◌ {A = Option A} (some x) (some y) → x ≡ y
some_injective h = cc

find-OwnHash :
    (h : Hash) (ms : List (Hash × Manifest)) (m : Hash × Manifest)
    → All OwnHash ms
    → find (λ (n : Hash × Manifest). n.0 == h) ms ≡ some m
    → (m.1.artifact_hash == h) ≡ true
find-OwnHash h [] m all_own e = cc e
find-OwnHash h (n ∷ ns) m all_own e = elim (Bool-cases (n.0 == h)) [
  | inl same ↦
      let found = some_injective (rw same at e) in
      ap (λ x. x.1.artifact_hash == h) (sym found)
      ∙ ap (λ x. x == h) (sym all_own.0 ∙ eq_of_beq n.0 h same)
      ∙ beq_refl h
  | inr other ↦ find-OwnHash h ns m all_own.1 (rw other at e)
]

module _ (c : LocalFsCrates) where
  OwnHash-insert :
      (m : Hash × Manifest) (ms : List (Hash × Manifest))
      → OwnHash m
      → All OwnHash ms
      → All OwnHash (insert_manifest c m ms)
  unfolding insert_manifest
  OwnHash-insert m [] own all_own = (own, tt)
  OwnHash-insert m (n ∷ ns) own all_own =
      elim (bytes_cmp m.0 n.0)
        as (λ order.
          All OwnHash (elim order [ Ordering.gt ↦ n ∷ insert_manifest c m ns | _ ↦ m ∷ n ∷ ns ])) [
            | Ordering.gt ↦ (all_own.0, OwnHash-insert m ns own all_own.1)
            | _ ↦ (own, all_own)
          ]

  OwnHash-sort : (ms : List (Hash × Manifest)) → All OwnHash ms → All OwnHash (sort_manifests c ms)
  unfolding sort_manifests
  OwnHash-sort [] all_own = tt
  OwnHash-sort (m ∷ ms) all_own =
      OwnHash-insert m (sort_manifests c ms) all_own.0 (OwnHash-sort ms all_own.1)

  OwnHash-decode :
      (t : Tree) (fs : Files Hash) {ms : List (Hash × Manifest)}
      → decode_all c t fs ≡ ok ms
      → All OwnHash ms
  unfolding decode_all
  OwnHash-decode t [] e = subst (All OwnHash) (ok-injective e) tt
  OwnHash-decode t (f ∷ fs) e =
      let first_read = >>=-eq-ok (attempt c "read artifact entry" t) _ e in
      let second_read = >>=-eq-ok (attempt c "read artifact.kew" t) _ first_read.2 in
      let decoded =
        >>=-eq-ok (map_err (λ x. artifact_decode (c.display x)) (decode_artifact c.artifact f.1)) _
          second_read.2 in
      let rest = >>=-eq-ok (decode_all c t fs) _ decoded.2 in
      subst (All OwnHash) (ok-injective rest.2) (refl, OwnHash-decode t fs rest.1)

  OwnHash-list :
      (t : Tree) {ms : List (Hash × Manifest)} → list_manifests c t ≡ ok ms → All OwnHash ms
  unfolding list_manifests
  OwnHash-list t e =
      let opened = >>=-eq-ok (attempt c "read artifacts dir" t) _ e in
      let found = >>=-eq-ok (decode_all c t t.kews) _ opened.2 in
      subst (All OwnHash) (ok-injective found.2)
        (OwnHash-sort found.0 (OwnHash-decode t t.kews found.1))

  -- On the file store the test of the resolved hash never fails: whenever the storage lists its
  -- manifests, the answer is the manifest that is found, or that there is none.
  pub verify_resolved_artifact-passes :
      (events : EventCrates) (h : Hash) (text : String) (t : Tree) {ms : List (Hash × Manifest)}
      → list_manifests c t ≡ ok ms
      → verify_resolved_artifact (local_fs c) events t h text
        ≡ (ok_or (not_found text) (find (λ (m : Hash × Manifest). m.0 == h) ms) >>= λ m. ok m.1)
  unfolding verify_resolved_artifact local_fs
  verify_resolved_artifact-passes events h text t {ms} e =
      elim (Option-cases (find (λ (m : Hash × Manifest). m.0 == h) ms)) [
        | inl missing ↦ rw (e, missing) refl
        | inr (m, found) ↦ rw (e, found, find-OwnHash h ms m (OwnHash-list t e) found) refl
      ]
