-- ===== src/Registry/Commands/Publish.antt =====
-- `ke publish` (crates/ke-cli/src/commands/publish.rs).
use regulatory_rule_engine.Prelude.{ℕ, String, true, not, Option, map, map_err, List_eq, ℕ_eq}
use Prim.Native.String.{◌++◌ as str_append}
use regulatory_rule_engine.Artifact.Attestation.Set.{verify_attestation_set}
use regulatory_rule_engine.Artifact.Envelope.Decode.{decode_artifact}
use regulatory_rule_engine.Registry.Policy.{resolve_policy}
use regulatory_rule_engine.Registry.Commands.Attest.{expert_key_directory, local_policy_context}
use regulatory_rule_engine.Ir.{Hash}
use regulatory_rule_engine.Registry.State.{
  LifecycleState, expert_attested, published, can_transition,
}
use regulatory_rule_engine.Registry.Error.{artifact_decode, attestation_set_rejected}
use regulatory_rule_engine.Registry.Action.{
  Action, pure, reads, lift, bail_if, raised_by, ◌>>=◌, ◌>>◌,
}
use regulatory_rule_engine.Registry.Backend.{RegistryBackend}
use regulatory_rule_engine.Registry.Commands.{
  CommandError, registry_error, wrong_state, precondition_failed, no_evidence, same_state,
  CommandCrates, state_now, append_transition,
}

pub record PublishArgs : Type 0 where
  pub artifact_hash : Hash
  pub env : String
  pub tag : String
  pub policy_path : Option String
  pub now_unix : ℕ

pub record PublishOutcome : Type 0 where
  pub final_state : LifecycleState
  pub tag_ref : String

module _ {S : Type 0} (b : RegistryBackend S) (c : CommandCrates) where
  unfoldable pub publish : PublishArgs → Action S CommandError PublishOutcome
  unfolding state_now append_transition same_state can_transition expert_key_directory
      local_policy_context
  publish args = do
    prior_state ← state_now b c args.artifact_hash
    bail_if (not (same_state prior_state expert_attested)) (wrong_state prior_state)
    kew ← reads λ s. map_err registry_error (b.read_artifact_kew args.artifact_hash s)
    decoded ← lift (
        map_err (λ e. registry_error (artifact_decode (c.display e)))
          (decode_artifact c.artifact kew))
    policy ← lift (
        map_err registry_error
          (resolve_policy c.policies args.policy_path decoded.0.manifest.artifact_kind))
    lift (
        map_err (λ rs. registry_error (attestation_set_rejected (map c.display_rejection rs)))
          (verify_attestation_set c.attestation decoded.0.manifest decoded.0.attestations policy
            (expert_key_directory c) (local_policy_context args.now_unix)))
    bail_if
        (not (
          can_transition expert_attested published
            (record no_evidence { prior_is_expert_attested = true })))
        precondition_failed
    event ← append_transition b c args.artifact_hash published args.now_unix
    raised_by registry_error (
        b.put_pointer args.env args.tag args.artifact_hash
          (str_append "published@seq" (c.digits_of event.seq)))
    final_state ← state_now b c args.artifact_hash
    pure (record {
      final_state = final_state;
      tag_ref = str_append args.env (str_append "/" args.tag);
    })
