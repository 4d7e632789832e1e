-- ===== src/Registry/Commands/Compile.antt =====
-- Storing a compiled artifact and starting its log (`store_and_record` of
-- crates/ke-cli/src/commands/compile.rs). The assertion on the final state, which only a debug build
-- makes, is left out.
pub mod Again
use regulatory_rule_engine.Prelude.{
  ℕ, String, Bool, true, false, ◌&&◌, List_eq, ℕ_eq, Result, ok, err, map_err, ok_or, if◌then◌else◌,
  none, some, take,
}
use regulatory_rule_engine.Ir.{Hash}
use regulatory_rule_engine.Crypto.{Bytes, VerifyingKey}
use regulatory_rule_engine.Artifact.Keydir.{registry}
use regulatory_rule_engine.Artifact.Tsa.{stamp}
use regulatory_rule_engine.Artifact.Envelope.{Artifact}
use regulatory_rule_engine.Artifact.Envelope.Decode.{decode_artifact, verify_hash, verify_signature}
use regulatory_rule_engine.Registry.State.{
  LifecycleState, draft, structurally_verified, can_transition, Preconditions,
}
use regulatory_rule_engine.Registry.Error.{not_found}
use regulatory_rule_engine.Registry.Event.{LifecycleEvent}
use regulatory_rule_engine.Registry.Log.{current_state, build_draft_event, build_transition_event}
use regulatory_rule_engine.Registry.Action.{Action, pure, reads, lift, raised_by, ◌>>=◌, ◌>>◌}
use regulatory_rule_engine.Registry.Backend.{RegistryBackend}
use regulatory_rule_engine.Registry.Commands.{
  CommandError, registry_error, json_failed, no_evidence, CommandCrates, registry_root_key_id,
}

-- `TEST_KEY_ID`
abbrev pub test_key_id : String
test_key_id = "test-fixed-seed-1"

pub record CompileOutcome : Type 0 where
  pub artifact_hash : Hash
  pub final_state : LifecycleState

abbrev pub is_ok : {A E : Type 0} → Result A E → Bool
is_ok (ok a) = true
is_ok (err e) = false

module _ (c : CommandCrates) where
  unfoldable pub compiler_signature_valid : Bytes → VerifyingKey → Bool
  compiler_signature_valid kew verifying_key = elim (decode_artifact c.artifact kew) [
    | err e ↦ false
    | ok decoded ↦ is_ok (
        verify_signature c.artifact (take decoded.1 kew) decoded.0.compiler_signature verifying_key)
  ]

  unfoldable pub draft_evidence : Bytes → Bool → VerifyingKey → Preconditions
  unfolding compiler_signature_valid
  draft_evidence kew structural_clean_flag verifying_key = record no_evidence {
    structural_clean = structural_clean_flag;
    compiler_signature_valid =
        is_ok (verify_hash c.artifact kew) && compiler_signature_valid kew verifying_key;
  }

module _ {S : Type 0} (b : RegistryBackend S) (c : CommandCrates)
    (compiler_key : VerifyingKey) where
  -- The second event, where its evidence is there.
  unfoldable pub record_verified :
      Bool → Hash → LifecycleEvent → ℕ → Action S CommandError (Unit {0})
  record_verified false h first now_unix = pure tt
  record_verified true h first now_unix = do
    event ← lift (
        map_err registry_error (
          build_transition_event c.events first structurally_verified test_key_id registry
            (stamp c.mock_tsa_sign h now_unix)))
    raised_by registry_error (b.append_event h event)

  unfoldable pub store_and_record :
      Artifact
      → (kew : Bytes) → (structural_clean_flag : Bool) → (now_unix : ℕ)
      → Action S CommandError CompileOutcome
  unfolding can_transition draft_evidence record_verified
  store_and_record artifact kew structural_clean_flag now_unix = do
    let h = artifact.manifest.artifact_hash
    manifest_json ← lift (map_err json_failed (c.manifest_json artifact.manifest))
    schema_json ← lift (map_err json_failed (c.payload_json artifact.payload))
    raised_by registry_error (b.put_artifact h kew manifest_json schema_json)
    first ← lift (
        map_err registry_error
          (build_draft_event c.events h registry_root_key_id (stamp c.mock_tsa_sign h now_unix)))
    raised_by registry_error (b.append_event h first)
    record_verified
        (can_transition draft structurally_verified
          (draft_evidence c kew structural_clean_flag compiler_key))
        h first now_unix
    events ← reads λ s. map_err registry_error (b.read_events h s)
    state ← lift (map_err registry_error (current_state c.events events))
    derived ← lift (map_err registry_error (ok_or (not_found "post-compile state") state))
    pure (record { artifact_hash = h; final_state = derived })
