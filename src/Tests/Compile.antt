-- ===== src/Tests/Compile.antt =====
-- Compiling an artifact again on a directory tree.
use regulatory_rule_engine.Prelude.{◌≡◌, refl, true, some, err, List_eq, ℕ_eq, String_eq, Pair_eq}
use regulatory_rule_engine.Registry.State.{draft, event_kind}
use regulatory_rule_engine.Registry.Backend.LocalFs.{at, event_file_name}
use regulatory_rule_engine.Registry.Backend.LocalFs.Store.{local_fs}
use regulatory_rule_engine.Registry.Commands.{CommandError}
use regulatory_rule_engine.Registry.Commands.Compile.{store_and_record}
use regulatory_rule_engine.Registry.Commands.Compile.Again.{with_artifact, store_and_record-again}
use regulatory_rule_engine.Tests.Artifacts.{content, artifact, kew}
use regulatory_rule_engine.Tests.Canonical.{written}
use regulatory_rule_engine.Tests.Crates.{crates}
use regulatory_rule_engine.Tests.Registry.{first}
use regulatory_rule_engine.Tests.Store.{fs_crates}
use regulatory_rule_engine.Tests.Resolve.{stocked_tree}
use regulatory_rule_engine.Tests.Commands.{command_crates}

log_begun :
    at (content, event_file_name fs_crates.pad_four 0 (event_kind draft)) stocked_tree.event_files
    ≡ some (written (crates.to_stdvec first))
unfolding at event_kind event_file_name
log_begun = refl

store_and_record-again_example :
    (e : CommandError) × (store_and_record
        (local_fs fs_crates)
        command_crates
        (λ m s. true)
        artifact
        kew
        true
        6
        stocked_tree
      ≡ (err e, with_artifact fs_crates content kew "manifest" "payload" stocked_tree))
store_and_record-again_example =
    store_and_record-again fs_crates (λ context t. refl) command_crates (λ m s. true) artifact kew
      true 6 stocked_tree refl refl log_begun
