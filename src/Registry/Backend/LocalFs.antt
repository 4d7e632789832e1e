-- ===== src/Registry/Backend/LocalFs.antt =====
-- The storage in a directory tree (`LocalFsBackend` of crates/ke-cli/src/registry/backend.rs).
pub mod Read
pub mod Write
pub mod Store
pub mod Logs
pub mod Laws
pub mod Overwritten
use Prim.Native.Nat.{Ordering}
use Prim.Native.String.{compare, ◌++◌ as str_append}
use regulatory_rule_engine.Prelude.{
  ℕ, suc, ltb, leb, ◌-◌, String, str_eq, Bool, true, false, not, ◌&&◌, Option, none, some, List, [],
  ◌∷◌, ◌++◌, map, find, filter, any, Result, ok, err, map_err, if◌then◌else◌, ◌==◌, PartialEq,
  List_eq, ℕ_eq, String_eq, Pair_eq,
}
use regulatory_rule_engine.Ir.{Hash}
use regulatory_rule_engine.Crypto.{Bytes}
use regulatory_rule_engine.Manifest.{Manifest}
use regulatory_rule_engine.Canonical.Bytewise.{bytes_cmp}
use regulatory_rule_engine.Artifact.Consistency.{ConsistencyBlock}
use regulatory_rule_engine.Artifact.Envelope.{ArtifactError, ArtifactCrates}
use regulatory_rule_engine.Artifact.Envelope.Decode.{decode_artifact}
use regulatory_rule_engine.Registry.Error.{
  RegistryError, io, not_found, event_exists, sidecar_exists, event_json_encode, event_json_decode,
  artifact_decode,
}
use regulatory_rule_engine.Registry.Event.{LifecycleEvent}
use regulatory_rule_engine.Registry.Action.{Action, lift, modify, bail_if, ◌>>=◌, ◌>>◌}
use regulatory_rule_engine.Registry.Hex.{hex32, hex_to_hash}
use regulatory_rule_engine.Registry.Backend.{RevocationRecord, TagPointer, RegistryBackend}

-- The files of one kind, each at its place; the order is the one in which the file system lists them.
abbrev pub Files : Type 0 → Type 0
Files K = List (K × Bytes)

module _ {K : Type 0} ⦃e : PartialEq K⦄ where
  unfoldable pub at : K → Files K → Option Bytes
  at k [] = none
  at k (f ∷ fs) = if e.same f.0 k then some f.1 else at k fs

  -- Writing replaces the file that is there.
  unfoldable pub without : K → Files K → Files K
  without k fs = filter (λ (f : K × Bytes). not (e.same f.0 k)) fs

  unfoldable pub put : K → Bytes → Files K → Files K
  unfolding without
  put k bytes fs = (k, bytes) ∷ without k fs

abbrev pub exists : Option Bytes → Bool
exists none = false
exists (some bytes) = true

-- A file `events/<hash>/<name>`, whose name ends in `.json`.
abbrev pub EventPath : Type 0
EventPath = Hash × String

-- Where a path that ends in `.json` leads: to the file of an event, to the view of an artifact, to a
-- sidecar, or to any other file.
pub data Place : Type 0 where
  event_file : EventPath → Place
  manifest_view : Hash → Place
  schema_view : Hash → Place
  consistency_file : Hash → Place
  revocation_file : Hash → Place
  other_file : String → Place

-- What stands below the registry's root, and the files elsewhere that a tag may name.
pub record Tree : Type 0 where
  pub kews : Files Hash
  pub manifest_views : Files Hash
  pub schema_views : Files Hash
  pub event_files : Files EventPath
  pub other_files : Files String
  pub consistency_files : Files Hash
  pub revocation_files : Files Hash

-- `serde_json` at one type; the errors are their texts.
pub record Json (A : Type 0) : Type 0 where
  pub to_string_pretty : A → Result Bytes String
  pub from_slice : Bytes → Result A String

-- What is called of the crates and of the operating system: JSON, and the bytes of a text; the
-- decimal digits of a number; the text of an error; `PathBuf::join`, and the file that the operating
-- system finds at a path; and whether, and why, a call on the file system with a context fails at a
-- tree. A call that fails leaves the tree as it was.
pub record LocalFsCrates : Type 0 where
  pub artifact : ArtifactCrates
  pub event : Json LifecycleEvent
  pub pointer : Json TagPointer
  pub consistency : Json ConsistencyBlock
  pub revocation : Json RevocationRecord
  pub bytes_of : String → Bytes
  pub pad_four : ℕ → String
  pub display : ArtifactError → String
  pub root : String
  pub join : (path part : String) → String
  pub place_of : (path : String) → Place
  pub fails : (context : String) → Tree → Option String

-- `format!("{:04}-{}.json", seq, kind)`
unfoldable pub event_file_name : (ℕ → String) → (seq : ℕ) → (kind : String) → String
event_file_name pad_four seq kind =
    str_append (pad_four seq) (str_append "-" (str_append kind ".json"))

-- `files.sort()`, by insertion. The files are in one directory, so their names decide.
unfoldable pub insert_named : EventPath × Bytes → Files EventPath → Files EventPath
insert_named f [] = f ∷ []
insert_named f (g ∷ gs) =
    let later = insert_named f gs in
    elim (compare f.0.1 g.0.1) [ Ordering.gt ↦ g ∷ later | _ ↦ f ∷ g ∷ gs ]

unfoldable pub sort_named : Files EventPath → Files EventPath
unfolding insert_named
sort_named [] = []
sort_named (f ∷ fs) = insert_named f (sort_named fs)

-- `events.sort_by_key(|e| e.seq)`, which is stable.
unfoldable pub insert_by_seq : LifecycleEvent → List LifecycleEvent → List LifecycleEvent
insert_by_seq e [] = e ∷ []
insert_by_seq e (f ∷ fs) =
    let later = insert_by_seq e fs in if leb e.seq f.seq then e ∷ f ∷ fs else f ∷ later

unfoldable pub sort_by_seq : List LifecycleEvent → List LifecycleEvent
unfolding insert_by_seq
sort_by_seq [] = []
sort_by_seq (e ∷ es) = insert_by_seq e (sort_by_seq es)

-- The files in the directory of a hash.
unfoldable pub listing : Hash → Files EventPath → Files EventPath
listing h = filter (λ (f : EventPath × Bytes). f.0.0 == h)

module _ (c : LocalFsCrates) where
  failed : String → Option String → Result (Unit {0}) RegistryError
  failed context none = ok tt
  failed context (some source) = err (io context source)

  -- A call on the file system, as far as it may fail.
  unfoldable pub attempt : String → Tree → Result (Unit {0}) RegistryError
  unfolding failed
  attempt context t = failed context (c.fails context t)

  -- `tag_path`, from the environment and the tag as they are given.
  unfoldable pub tag_path : (env tag : String) → String
  tag_path env tag = c.join (c.join (c.join c.root "tags") env) (str_append tag ".json")

-- The file at a place, and writing it.
unfoldable pub at_place : Place → Tree → Option Bytes
at_place (event_file path) t = at path t.event_files
at_place (manifest_view h) t = at h t.manifest_views
at_place (schema_view h) t = at h t.schema_views
at_place (consistency_file h) t = at h t.consistency_files
at_place (revocation_file h) t = at h t.revocation_files
at_place (other_file path) t = at path t.other_files

unfoldable pub put_place : Place → Bytes → Tree → Tree
put_place (event_file path) bytes t = record t { event_files = put path bytes t.event_files }
put_place (manifest_view h) bytes t = record t { manifest_views = put h bytes t.manifest_views }
put_place (schema_view h) bytes t = record t { schema_views = put h bytes t.schema_views }
put_place (consistency_file h) bytes t = record t {
  consistency_files = put h bytes t.consistency_files;
}
put_place (revocation_file h) bytes t = record t {
  revocation_files = put h bytes t.revocation_files;
}
put_place (other_file path) bytes t = record t { other_files = put path bytes t.other_files }
