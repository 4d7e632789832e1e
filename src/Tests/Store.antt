-- ===== src/Tests/Store.antt =====
-- A directory tree with logs in it, and the crates of its storage.
use regulatory_rule_engine.Prelude.{
  ℕ, zero, suc, str_eq, if◌then◌else◌, ◌≡◌, refl, none, some, String, List, [], ◌∷◌, ok, err, ◌>>=◌,
  >>=-eq-ok, ok-injective, map,
}
use mathlib.Core.Path.{subst}
use Prim.Native.String.{◌++◌ as str_append}
use regulatory_rule_engine.Crypto.{Bytes}
use regulatory_rule_engine.Artifact.Keydir.{registry}
use regulatory_rule_engine.Registry.State.{LifecycleState, ml_checked, expert_attested, published}
use regulatory_rule_engine.Registry.Event.{LifecycleEvent}
use regulatory_rule_engine.Registry.Backend.Laws.{BackendLaws}
use regulatory_rule_engine.Registry.Backend.LocalFs.{
  tag_path, EventPath, Place, event_file, other_file, Tree, Json, LocalFsCrates,
}
use regulatory_rule_engine.Registry.Backend.LocalFs.Logs.{events_in}
use regulatory_rule_engine.Registry.Error.{RegistryError}
use regulatory_rule_engine.Registry.Backend.LocalFs.Read.{read_events}
use regulatory_rule_engine.Registry.Backend.LocalFs.Write.{put_pointer}
use regulatory_rule_engine.Registry.Backend.LocalFs.Overwritten.{put_pointer-overwrites}
use regulatory_rule_engine.Registry.Backend.LocalFs.Store.{local_fs}
use regulatory_rule_engine.Registry.Backend.LocalFs.Laws.{IsApart, JsonReads, local_fs-BackendLaws}
use regulatory_rule_engine.Tests.Crates.{payload, crates}
use regulatory_rule_engine.Tests.Registry.{written, some_hash, stamp, signed, first, second}
use regulatory_rule_engine.Tests.Envelope.{artifact_crates}

-- JSON stands for the bytes of the wire codec here.
abbrev event_json : Json LifecycleEvent
event_json = record {
  to_string_pretty = crates.to_stdvec;
  from_slice = λ bytes. payload.read bytes >>= λ x. ok (record { payload = x.0; signature = x.1 });
}

-- The objects that no test reads back.
abbrev unread : {A : Type 0} → Json A
unread = record { to_string_pretty = λ a. ok []; from_slice = λ bytes. err "not supported" }

abbrev pad_four : ℕ → String
pad_four zero = "0000"
pad_four (suc zero) = "0001"
pad_four (suc (suc zero)) = "0002"
pad_four (suc (suc (suc zero))) = "0003"
pad_four (suc (suc (suc (suc zero)))) = "0004"
pad_four _ = "0005"

-- The operating system goes up from the tags to the events.
abbrev place_of : String → Place
place_of path =
    if str_eq path "registry/tags/../events/070809/0000-draft.json"
    then event_file (some_hash, "0000-draft.json")
    else other_file path

abbrev pub fs_crates : LocalFsCrates
fs_crates = record {
  artifact = artifact_crates;
  event = event_json;
  pointer = unread;
  consistency = unread;
  revocation = unread;
  bytes_of = λ s. [];
  pad_four = pad_four;
  display = λ e. "refused";
  root = "registry";
  join = λ path part. str_append path (str_append "/" part);
  place_of = place_of;
  fails = λ context t. none;
}

pub fs_reads : JsonReads fs_crates
fs_reads e json h =
    let (p, wrote, same) = >>=-eq-ok (payload.write e.payload) _ h in
    subst (λ b. fs_crates.event.from_slice b ≡ ok e) (ok-injective same)
      (rw (payload.read-write e.payload e.signature wrote) refl)

local_fs-BackendLaws_example :
    BackendLaws (local_fs fs_crates) (λ t. events_in fs_crates t.event_files) (IsApart fs_crates)
local_fs-BackendLaws_example = local_fs-BackendLaws fs_crates fs_reads

-- The next event of a log.
abbrev next_event : LifecycleEvent → LifecycleState → String → ℕ → LifecycleEvent
next_event prior state kind seq = signed (record {
  artifact_hash = some_hash;
  seq = seq;
  prior_state = some prior.new_state;
  new_state = state;
  event_kind = kind;
  authority_key_id = "root";
  authority_role = registry;
  timestamp = stamp;
  prev_event_hash = some (crates.blake3 (written (crates.to_stdvec prior)));
})

abbrev pub checked : LifecycleEvent
checked = next_event second ml_checked "ml_checked" 2

abbrev pub expert : LifecycleEvent
expert = next_event checked expert_attested "expert_attested" 3

abbrev pub public : LifecycleEvent
public = next_event expert published "published" 4

abbrev file_of : LifecycleEvent → EventPath × Bytes
file_of e = (
  (e.artifact_hash, str_append (pad_four e.seq) (str_append "-" (str_append e.event_kind ".json"))),
  written (crates.to_stdvec e),
)

abbrev pub tree_of : List LifecycleEvent → Tree
tree_of es = record {
  kews = [];
  manifest_views = [];
  schema_views = [];
  event_files = map file_of es;
  other_files = [];
  consistency_files = [];
  revocation_files = [];
}

-- Up to `structurally_verified`, and up to `published`. The file system lists the newest file first.
abbrev pub verified_tree : Tree
verified_tree = tree_of (second ∷ first ∷ [])

abbrev pub published_tree : Tree
published_tree = tree_of (public ∷ expert ∷ checked ∷ second ∷ first ∷ [])

abbrev upward : String
upward = "../events/070809"

leads :
    fs_crates.place_of (tag_path fs_crates upward "0000-draft")
    ≡ event_file (some_hash, "0000-draft.json")
unfolding tag_path
leads = refl

put_pointer-overwrites_example :
    let after =
      put_pointer fs_crates upward "0000-draft" some_hash "published@seq4" published_tree in
    (after.0 ≡ ok tt) × ((e : RegistryError) × (read_events fs_crates some_hash after.1 ≡ err e))
put_pointer-overwrites_example =
    put_pointer-overwrites fs_crates (λ context t. refl) upward "0000-draft" some_hash
      "published@seq4" published_tree (some_hash, "0000-draft.json") leads refl refl
