-- ===== src/Registry/Backend/LocalFs/Read.antt =====
-- Reading from the tree (`LocalFsBackend` of crates/ke-cli/src/registry/backend.rs).
use Prim.Native.Nat.{Ordering}
use Prim.Native.String.{◌++◌ as str_append}
use regulatory_rule_engine.Prelude.{
  String, Option, none, some, List, [], ◌∷◌, Result, ok, err, map_err, List_eq, ℕ_eq, String_eq,
  Pair_eq, ◌>>=◌, ◌>>◌,
}
use regulatory_rule_engine.Ir.{Hash}
use regulatory_rule_engine.Crypto.{Bytes}
use regulatory_rule_engine.Manifest.{Manifest}
use regulatory_rule_engine.Canonical.Bytewise.{bytes_cmp}
use regulatory_rule_engine.Artifact.Consistency.{ConsistencyBlock}
use regulatory_rule_engine.Artifact.Envelope.Decode.{decode_artifact}
use regulatory_rule_engine.Registry.Error.{
  RegistryError, not_found, event_json_decode, artifact_decode,
}
use regulatory_rule_engine.Registry.Event.{LifecycleEvent}
use regulatory_rule_engine.Registry.Hex.{hex32, hex_to_hash}
use regulatory_rule_engine.Registry.Backend.{RevocationRecord, TagPointer}
use regulatory_rule_engine.Registry.Backend.LocalFs.{
  Files, at, at_place, tag_path, EventPath, Tree, Json, LocalFsCrates, sort_named, sort_by_seq,
  listing, attempt,
}

module _ (c : LocalFsCrates) where
  kew_or_missing : Hash → Tree → Option Bytes → Result Bytes RegistryError
  kew_or_missing h t none = err (not_found (str_append "by-hash:" (hex32 h)))
  kew_or_missing h t (some kew) = attempt c "read artifact.kew" t >> ok kew

  unfoldable pub read_artifact_kew : Hash → Tree → Result Bytes RegistryError
  unfolding kew_or_missing
  read_artifact_kew h t = kew_or_missing h t (at h t.kews)

  -- The last loop: each file is read and parsed.
  unfoldable pub read_files : Tree → Files EventPath → Result (List LifecycleEvent) RegistryError
  read_files t [] = ok []
  read_files t (f ∷ fs) = do
    attempt c "read event" t
    e ← map_err event_json_decode (c.event.from_slice f.1)
    es ← read_files t fs
    ok (e ∷ es)

  -- The loop over the entries fails as a whole where one entry fails.
  unfoldable pub read_events : Hash → Tree → Result (List LifecycleEvent) RegistryError
  unfolding read_files
  read_events h t = do
    attempt c "read events dir" t
    attempt c "read event entry" t
    es ← read_files t (sort_named (listing h t.event_files))
    ok (sort_by_seq es)

  parsed : {A : Type 0} → String → Json A → Tree → Option Bytes → Result (Option A) RegistryError
  parsed context json t none = ok none
  parsed context json t (some bytes) = do
    attempt c context t
    a ← map_err event_json_decode (json.from_slice bytes)
    ok (some a)

  unfoldable pub read_pointer : String → String → Tree → Result (Option TagPointer) RegistryError
  unfolding parsed at_place tag_path
  read_pointer env tag t =
      parsed "read tag pointer" c.pointer t (at_place (c.place_of (tag_path c env tag)) t)

  unfoldable pub read_consistency : Hash → Tree → Result (Option ConsistencyBlock) RegistryError
  unfolding parsed
  read_consistency h t =
      parsed "read consistency sidecar" c.consistency t (at h t.consistency_files)

  unfoldable pub read_revocation : Hash → Tree → Result (Option RevocationRecord) RegistryError
  unfolding parsed
  read_revocation h t = parsed "read revocation sidecar" c.revocation t (at h t.revocation_files)

  -- The loop over the artifacts that have a `.kew`.
  unfoldable pub decode_all : Tree → Files Hash → Result (List (Hash × Manifest)) RegistryError
  decode_all t [] = ok []
  decode_all t (f ∷ fs) = do
    attempt c "read artifact entry" t
    attempt c "read artifact.kew" t
    decoded ← map_err (λ e. artifact_decode (c.display e)) (decode_artifact c.artifact f.1)
    rest ← decode_all t fs
    ok ((decoded.0.manifest.artifact_hash, decoded.0.manifest) ∷ rest)

  -- `out.sort_by(|a, b| a.0.cmp(&b.0))`, which is stable.
  unfoldable pub insert_manifest : Hash × Manifest → List (Hash × Manifest) → List (Hash × Manifest)
  insert_manifest m [] = m ∷ []
  insert_manifest m (n ∷ ns) =
      let later = insert_manifest m ns in
      elim (bytes_cmp m.0 n.0) [ Ordering.gt ↦ n ∷ later | _ ↦ m ∷ n ∷ ns ]

  unfoldable pub sort_manifests : List (Hash × Manifest) → List (Hash × Manifest)
  unfolding insert_manifest
  sort_manifests [] = []
  sort_manifests (m ∷ ms) = insert_manifest m (sort_manifests ms)

  unfoldable pub list_manifests : Tree → Result (List (Hash × Manifest)) RegistryError
  unfolding decode_all sort_manifests
  list_manifests t = do
    attempt c "read artifacts dir" t
    found ← decode_all t t.kews
    ok (sort_manifests found)

  keep_hash : Result Hash RegistryError → List Hash → List Hash
  keep_hash (ok h) hs = h ∷ hs
  keep_hash (err e) hs = hs

  -- The names of the directories that hold a `.kew` and are the text of a hash.
  unfoldable pub addresses : Files Hash → List Hash
  unfolding keep_hash
  addresses [] = []
  addresses (f ∷ fs) = keep_hash (hex_to_hash (hex32 f.0)) (addresses fs)

  unfoldable pub insert_address : Hash → List Hash → List Hash
  insert_address h [] = h ∷ []
  insert_address h (g ∷ gs) =
      let later = insert_address h gs in
      elim (bytes_cmp h g) [ Ordering.gt ↦ g ∷ later | _ ↦ h ∷ g ∷ gs ]

  unfoldable pub sort_addresses : List Hash → List Hash
  unfolding insert_address
  sort_addresses [] = []
  sort_addresses (h ∷ hs) = insert_address h (sort_addresses hs)

  unfoldable pub list_addresses : Tree → Result (List Hash) RegistryError
  unfolding addresses sort_addresses
  list_addresses t = do
    attempt c "read artifacts dir" t
    attempt c "read artifact entry" t
    ok (sort_addresses (addresses t.kews))
