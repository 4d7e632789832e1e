-- ===== src/Registry/Commands.antt =====
-- The commands that move an artifact along its lifecycle: what they share
-- (crates/ke-cli/src/commands).
pub mod Step
pub mod MlCheck
pub mod Attest
pub mod Publish
pub mod Deprecate
pub mod Rollback
pub mod Revoke
pub mod Moves
pub mod Attested
pub mod Recorded
pub mod Run
pub mod Compile
use regulatory_rule_engine.Prelude.{ℕ, String, Bool, true, false, Result, ok, map_err}
use regulatory_rule_engine.Ir.{Hash}
use regulatory_rule_engine.Crypto.{Bytes}
use regulatory_rule_engine.Manifest.{Manifest, RevocationPolicy}
use regulatory_rule_engine.Revocation.{RevocationReasonClass}
use regulatory_rule_engine.Artifact.Keydir.{registry}
use regulatory_rule_engine.Artifact.Tsa.{stamp}
use regulatory_rule_engine.Artifact.Consistency.{ConsistencyError}
use regulatory_rule_engine.Artifact.Attestation.{AttestationCrates, AttestationRejection}
use regulatory_rule_engine.Artifact.Envelope.{ArtifactPayload, ArtifactError, ArtifactCrates}
use regulatory_rule_engine.Registry.State.{
  LifecycleState, draft, structurally_verified, ml_checked, expert_attested, published, deprecated,
  revoked, Preconditions,
}
use regulatory_rule_engine.Registry.Error.{RegistryError}
use regulatory_rule_engine.Registry.Event.{LifecycleEvent, EventCrates}
use regulatory_rule_engine.Registry.Log.{
  head_event, require_current_state, build_transition_event, build_tag_moved_event,
}
use regulatory_rule_engine.Registry.Action.{Action, lift, reads, pure, raised_by, ◌>>=◌, ◌>>◌}
use regulatory_rule_engine.Registry.Backend.{RegistryBackend}
use regulatory_rule_engine.Registry.Policy.{PolicyFiles}

-- `anyhow::Error`: an error of the registry, or one of the messages of the commands, which are left
-- out.
pub data CommandError : Type 0 where
  registry_error : RegistryError → CommandError
  wrong_state : (found : LifecycleState) → CommandError
  precondition_failed : CommandError
  no_attestation_type : CommandError
  signing_failed : String → CommandError
  appending_failed : ArtifactError → CommandError
  address_moved : CommandError
  signature_altered : CommandError
  json_failed : String → CommandError
  block_refused : ConsistencyError → CommandError
  below_floor :
      (configured : RevocationPolicy) (reason : RevocationReasonClass) (floor : RevocationPolicy)
      → CommandError
  no_policy : CommandError

abbrev pub no_evidence : Preconditions
no_evidence = record {
  structural_clean = false;
  compiler_signature_valid = false;
  consistency_block_present = false;
  attestation_set_valid = false;
  prior_is_expert_attested = false;
}

-- The derived equality of states.
unfoldable pub same_state : LifecycleState → LifecycleState → Bool
same_state draft draft = true
same_state structurally_verified structurally_verified = true
same_state ml_checked ml_checked = true
same_state expert_attested expert_attested = true
same_state published published = true
same_state deprecated deprecated = true
same_state revoked revoked = true
same_state _ _ = false

abbrev pub registry_root_key_id : String
registry_root_key_id = "test-registry-fixed-seed-1"

-- What the commands call, besides the storage: the crates of their parts, the signing keys of the
-- mock authority and of the expert, the public key of the expert, the files of policies, JSON
-- views, and the texts of numbers and errors.
pub record CommandCrates : Type 0 where
  pub events : EventCrates
  pub attestation : AttestationCrates
  pub artifact : ArtifactCrates
  pub mock_tsa_sign : Bytes → Bytes
  pub expert_sign : Bytes → Bytes
  pub expert_public_key : Hash
  pub policies : PolicyFiles
  pub manifest_json : Manifest → Result String String
  pub payload_json : ArtifactPayload → Result String String
  pub digits_of : ℕ → String
  pub display : ArtifactError → String
  pub display_rejection : AttestationRejection → String

module _ {S : Type 0} (b : RegistryBackend S) (c : CommandCrates) where
  -- `require_current_state(backend, &hash)?`
  unfoldable pub state_now : Hash → Action S CommandError LifecycleState
  state_now h =
      reads λ s. map_err registry_error (require_current_state c.events (b.read_events h s))

  -- The steps that append an event to a log: the head, the stamp, the event, the append.
  unfoldable pub append_transition :
      Hash → LifecycleState → ℕ → Action S CommandError LifecycleEvent
  append_transition h new_state now_unix = do
    prior ← reads λ s. map_err registry_error (head_event c.events (b.read_events h s))
    event ← lift (
        map_err registry_error (
          build_transition_event c.events prior new_state registry_root_key_id registry
            (stamp c.mock_tsa_sign h now_unix)))
    raised_by registry_error (b.append_event h event)
    pure event

  unfoldable pub append_tag_moved : Hash → ℕ → Action S CommandError LifecycleEvent
  append_tag_moved h now_unix = do
    prior ← reads λ s. map_err registry_error (head_event c.events (b.read_events h s))
    event ← lift (
        map_err registry_error (
          build_tag_moved_event c.events prior registry_root_key_id registry
            (stamp c.mock_tsa_sign h now_unix)))
    raised_by registry_error (b.append_event h event)
    pure event
