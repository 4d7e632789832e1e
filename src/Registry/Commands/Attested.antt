-- ===== src/Registry/Commands/Attested.antt =====
-- What `ke attest` and `ke publish` do to the logs, and on which evidence.
use Prim.Native.String.{◌++◌ as str_append}
use regulatory_rule_engine.Prelude.{
  String, ℕ, ◌≡◌, refl, not, ◌||◌, str_eq, List, map, is_empty, ◌==◌, List_eq, ℕ_eq, ok, map_err,
  map_err-eq-ok,
}
use regulatory_rule_engine.Ir.{Hash}
use regulatory_rule_engine.Crypto.{Bytes}
use regulatory_rule_engine.Manifest.{AttestationType, VerificationPolicy}
use regulatory_rule_engine.Artifact.Attestation.{Attestation}
use regulatory_rule_engine.Artifact.Attestation.Set.{verify_attestation_set}
use regulatory_rule_engine.Artifact.Envelope.{Artifact}
use regulatory_rule_engine.Artifact.Envelope.Decode.{decode_artifact}
use regulatory_rule_engine.Artifact.Envelope.Assemble.{with_attestations}
use regulatory_rule_engine.Registry.State.{ml_checked, expert_attested, published, can_transition}
use regulatory_rule_engine.Registry.Error.{artifact_decode, attestation_set_rejected}
use regulatory_rule_engine.Registry.Event.{EventCratesLaws}
use regulatory_rule_engine.Registry.Log.{require_current_state}
use regulatory_rule_engine.Registry.Policy.{resolve_policy}
use regulatory_rule_engine.Registry.Action.{with_error}
use regulatory_rule_engine.Registry.Action.Post.{Post, succeeded, post_value, post_bail, post_step}
use regulatory_rule_engine.Registry.Backend.{RegistryBackend}
use regulatory_rule_engine.Registry.Backend.Laws.{BackendLaws}
use regulatory_rule_engine.Registry.Commands.{
  registry_error, appending_failed, json_failed, same_state, CommandCrates, state_now,
  append_transition,
}
use regulatory_rule_engine.Registry.Commands.Step.{
  Logs, Moved, Step, stays, moves, HasRoom, append_transition-Step, write_before, write_after,
  final_state,
}
use regulatory_rule_engine.Registry.Commands.Attest.{
  expert_key_directory, local_policy_context, permissive_policy, sign_all, AttestOutcome, attest,
}
use regulatory_rule_engine.Registry.Commands.Publish.{PublishArgs, PublishOutcome, publish}
use regulatory_rule_engine.Registry.Commands.Moves.{same_state_lem, state_was}

module _ {S : Type 0} (b : RegistryBackend S) (c : CommandCrates) where
  -- The stored bytes decode to an artifact whose attestations satisfy the policy of the publication.
  pub record IsPublishable (args : PublishArgs) (s : S) : Type 0 where
    pub kew : Bytes
    pub stored : b.read_artifact_kew args.artifact_hash s ≡ ok kew
    pub decoded : Artifact × ℕ
    pub decodes : decode_artifact c.artifact kew ≡ ok decoded
    pub policy : VerificationPolicy
    pub resolved :
        resolve_policy c.policies args.policy_path decoded.0.manifest.artifact_kind ≡ ok policy
    pub attested :
        verify_attestation_set c.attestation decoded.0.manifest decoded.0.attestations policy
          (expert_key_directory c)
          (local_policy_context args.now_unix)
        ≡ ok tt

  -- The stored artifact has got new attestations, of the requested types, and each is valid.
  pub record IsAttested (h : Hash) (types : List AttestationType) (now_unix : ℕ) (s : S)
      : Type 0 where
    pub kew : Bytes
    pub stored : b.read_artifact_kew h s ≡ ok kew
    pub decoded : Artifact × ℕ
    pub decodes : decode_artifact c.artifact kew ≡ ok decoded
    pub signed : List Attestation
    pub signs : sign_all c decoded.0.manifest now_unix types ≡ ok signed
    pub rewritten : Artifact × Bytes
    pub rewrites : with_attestations c.artifact signed decoded.0 ≡ ok rewritten
    pub valid :
        verify_attestation_set c.attestation rewritten.0.manifest rewritten.0.attestations
          permissive_policy
          (expert_key_directory c)
          (local_policy_context now_unix)
        ≡ ok tt

module _ {S : Type 0} (b : RegistryBackend S) {log_of : S → Logs}
    {IsApart : (env tag : String) → Type 0} (backend_laws : BackendLaws b log_of IsApart)
    (c : CommandCrates) (events_laws : EventCratesLaws c.events) where
  open backend_laws use {put_artifact-log_of, put_pointer-log_of}

  -- With a storage that keeps its promises (`BackendLaws`), crates that behave as documented
  -- (`EventCratesLaws`), a log of the artifact that is shorter than 2^32, and an environment and a tag
  -- that the storage keeps apart from the logs: however `ke publish` ends, either every log is as it was, or the log of the artifact has one new event at its end that
  -- took it from `expert_attested` to `published`, the stored artifact decoded and
  -- `verify_attestation_set` accepted its attestations under the policy that `resolve_policy` gave, and
  -- the other logs are as they were. If it ends in a success, the second is the case, and the state
  -- that it reports is `published`.
  pub publish-Step :
      (args : PublishArgs) (s : S)
      → HasRoom (log_of s) args.artifact_hash
      → IsApart args.env args.tag
      → Post
          (λ (o : PublishOutcome) t.
            Moved c.events
              (IsPublishable b c args s)
              args.artifact_hash
              expert_attested
              published
              (log_of s)
              (log_of t)
            × (o.final_state ≡ published))
          (λ t.
            Step c.events
              (IsPublishable b c args s)
              args.artifact_hash
              expert_attested
              published
              (log_of s)
              (log_of t))
          (publish b c args s)
  unfolding publish state_now can_transition
  publish-Step args s room apart =
      let h = args.artifact_hash in
      post_value _ (map_err registry_error (require_current_state c.events (b.read_events h s)))
        (stays refl)
        λ prior known.
          post_bail _ _ (not (same_state prior expert_attested)) (stays refl) λ expected.
            let was =
              state_was b backend_laws c events_laws h s prior expert_attested known
                (same_state_lem prior expert_attested expected) in
            post_value _ (map_err registry_error (b.read_artifact_kew h s)) (stays refl)
              λ kew stored.
                post_value _
                  (map_err (λ e. registry_error (artifact_decode (c.display e)))
                    (decode_artifact c.artifact kew))
                  (stays refl)
                  λ decoded decodes.
                    post_value _
                      (map_err registry_error (
                        resolve_policy c.policies args.policy_path
                          decoded.0.manifest.artifact_kind))
                      (stays refl)
                      λ policy resolved.
                        post_value _
                          (map_err
                            (λ rs.
                              registry_error
                                (attestation_set_rejected (map c.display_rejection rs)))
                            (verify_attestation_set c.attestation decoded.0.manifest
                              decoded.0.attestations policy (expert_key_directory c)
                              (local_policy_context args.now_unix)))
                          (stays refl)
                          λ u accepted.
                            let evidence : IsPublishable b c args s = record {
                              kew = kew;
                              stored = map_err-eq-ok registry_error _ stored;
                              decoded = decoded;
                              decodes = map_err-eq-ok _ _ decodes;
                              policy = policy;
                              resolved = map_err-eq-ok registry_error _ resolved;
                              attested = map_err-eq-ok _ _ accepted;
                            } in
                            post_step _ (append_transition b c h published args.now_unix s)
                              (append_transition-Step b backend_laws c events_laws
                                (IsPublishable b c args s) h s expert_attested published
                                args.now_unix refl evidence was room)
                              λ e t moved.
                                let event_ref = str_append "published@seq" (c.digits_of e.seq) in
                                post_step _
                                  (with_error registry_error
                                    (b.put_pointer args.env args.tag h event_ref t))
                                  (write_after b backend_laws c events_laws
                                    (b.put_pointer args.env args.tag h event_ref t)
                                    (put_pointer-log_of args.env args.tag h event_ref t apart)
                                    moved)
                                  λ v t' moved'.
                                    post_value _
                                      (map_err registry_error
                                        (require_current_state c.events (b.read_events h t')))
                                      (moves moved')
                                      λ st seen. succeeded (
                                        moved',
                                        final_state b backend_laws c events_laws t' moved' seen,
                                      )

  -- With a storage that keeps its promises (`BackendLaws`), crates that behave as documented
  -- (`EventCratesLaws`), and a log of the artifact that is shorter than 2^32: however `ke attest`
  -- ends, either every log is as it was, or the log of the artifact has one new event at its end that
  -- took it from `ml_checked` to `expert_attested`, the stored artifact decoded, attestations of the
  -- requested types were signed and put in place of its own, `verify_attestation_set` accepted them
  -- under a policy that requires no type, and the other logs are as they were. If it ends in a success,
  -- the second is the case, and the state that it reports is `expert_attested`.
  pub attest-Step :
      (h : Hash) (types : List AttestationType) (now_unix : ℕ) (s : S)
      → HasRoom (log_of s) h
      → Post
          (λ (o : AttestOutcome) t.
            Moved c.events
              (IsAttested b c h types now_unix s)
              h
              ml_checked
              expert_attested
              (log_of s)
              (log_of t)
            × (o.final_state ≡ expert_attested))
          (λ t.
            Step c.events
              (IsAttested b c h types now_unix s)
              h
              ml_checked
              expert_attested
              (log_of s)
              (log_of t))
          (attest b c h types now_unix s)
  unfolding attest state_now can_transition
  attest-Step h types now_unix s room = post_bail _ _ (is_empty types) (stays refl) λ some_type.
      post_value _ (map_err registry_error (require_current_state c.events (b.read_events h s)))
        (stays refl)
        λ prior known. post_bail _ _ (not (same_state prior ml_checked)) (stays refl) λ expected.
          let was =
            state_was b backend_laws c events_laws h s prior ml_checked known
              (same_state_lem prior ml_checked expected) in
          post_value _ (map_err registry_error (b.read_artifact_kew h s)) (stays refl) λ kew stored.
            post_value _
              (map_err (λ e. registry_error (artifact_decode (c.display e)))
                (decode_artifact c.artifact kew))
              (stays refl)
              λ decoded decodes.
                post_value _ (sign_all c decoded.0.manifest now_unix types) (stays refl)
                  λ signed signs.
                    post_value _
                      (map_err appending_failed (with_attestations c.artifact signed decoded.0))
                      (stays refl)
                      λ rewritten rewrites.
                        post_bail _ _
                          (not (
                            rewritten.0.manifest.artifact_hash == decoded.0.manifest.artifact_hash))
                          (stays refl)
                          λ address.
                            post_bail _ _
                              (not (
                                  str_eq rewritten.0.compiler_signature.key_id
                                    decoded.0.compiler_signature.key_id)
                                || not (
                                    rewritten.0.compiler_signature.signature
                                    == decoded.0.compiler_signature.signature))
                              (stays refl)
                              λ signature.
                                post_value _
                                  (map_err json_failed (c.manifest_json rewritten.0.manifest))
                                  (stays refl)
                                  λ manifest_json m.
                                    post_value _
                                      (map_err json_failed (c.payload_json rewritten.0.payload))
                                      (stays refl)
                                      λ schema_json p.
                                        let at = decoded.0.manifest.artifact_hash in
                                        let Evidence = IsAttested b c h types now_unix s in
                                        post_step _
                                          (with_error registry_error (
                                            b.put_artifact at rewritten.1 manifest_json schema_json
                                              s))
                                          (write_before b backend_laws c events_laws Evidence h
                                            ml_checked expert_attested
                                            (b.put_artifact at rewritten.1 manifest_json schema_json
                                              s)
                                            (put_artifact-log_of at rewritten.1 manifest_json
                                              schema_json s))
                                          λ u t same.
                                            post_value _
                                              (map_err
                                                (λ rs. registry_error (
                                                  attestation_set_rejected
                                                    (map c.display_rejection rs)))
                                                (verify_attestation_set c.attestation
                                                  rewritten.0.manifest rewritten.0.attestations
                                                  permissive_policy (expert_key_directory c)
                                                  (local_policy_context now_unix)))
                                              (stays same)
                                              λ v accepted.
                                                let evidence : Evidence = record {
                                                  kew = kew;
                                                  stored = map_err-eq-ok registry_error _ stored;
                                                  decoded = decoded;
                                                  decodes = map_err-eq-ok _ _ decodes;
                                                  signed = signed;
                                                  signs = signs;
                                                  rewritten = rewritten;
                                                  rewrites =
                                                      map_err-eq-ok appending_failed _ rewrites;
                                                  valid = map_err-eq-ok _ _ accepted;
                                                } in
                                                post_step _
                                                  (append_transition b c h expert_attested now_unix
                                                    t)
                                                  (append_transition-Step b backend_laws c
                                                    events_laws Evidence h t ml_checked
                                                    expert_attested now_unix same evidence was room)
                                                  λ e t' moved.
                                                    post_value _
                                                      (map_err registry_error (
                                                        require_current_state c.events
                                                          (b.read_events h t')))
                                                      (moves moved)
                                                      λ st seen. succeeded (
                                                        moved,
                                                        final_state b backend_laws c events_laws t'
                                                            moved seen,
                                                      )
