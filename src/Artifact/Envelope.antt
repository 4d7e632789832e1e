-- ===== src/Artifact/Envelope.antt =====
-- The artifact and its envelope: the types, and the index of source spans
-- (crates/ke-artifact/src/artifact.rs, lib.rs).
pub mod Sealed
pub mod Assemble
pub mod Decode
pub mod Append
use Prim.Native.Nat.{Ordering}
use Prim.Native.String.{compare}
use regulatory_rule_engine.Prelude.{
  ℕ, String, Option, none, some, List, [], ◌∷◌, ◌++◌, map, Bool, Result,
}
use regulatory_rule_engine.Ir.{
  Hash, RuleIr, IntentSpecIr, SourceSpan, DecisionEntry, node, leaf, DecisionLeaf, ObligationSpec,
}
use regulatory_rule_engine.Manifest.{Manifest, ArtifactKind}
use regulatory_rule_engine.Crypto.{Bytes, CodecError, Postcard, Ed25519}
use regulatory_rule_engine.Canonical.Error.{CanonicalError, CanonicalDecodeError}
use regulatory_rule_engine.Canonical.Ordering.{CanonicalCrates}
use regulatory_rule_engine.Artifact.Consistency.{ConsistencyBlock}
use regulatory_rule_engine.Artifact.Attestation.{Attestation}

pub data ArtifactPayload : Type 0 where
  rules : List RuleIr → ArtifactPayload
  intent_spec : IntentSpecIr → ArtifactPayload

pub record SpanIndexEntry : Type 0 where
  pub rule_id : String
  pub spans : List SourceSpan

pub record SourceSpanIndex : Type 0 where
  pub entries : List SpanIndexEntry

pub record AuditVersions : Type 0 where
  pub jurisdiction_resolver_version : Option String
  pub scenario_corpus_version : Option String

pub record CompilerSignature : Type 0 where
  pub key_id : String
  pub signature : Bytes

pub data RegistryStateMetadata : Type 0 where
  draft : RegistryStateMetadata

-- The five fields that are hashed and signed: `EnvelopeRef` and `EnvelopeView`.
pub record EnvelopeView : Type 0 where
  pub manifest : Manifest
  pub payload : ArtifactPayload
  pub source_span_index : SourceSpanIndex
  pub audit_versions : AuditVersions
  pub consistency_block : Option ConsistencyBlock

-- The struct is flat in the source; here its envelope fields are a record of their own, opened.
pub record Artifact : Type 0 where
  pub envelope : EnvelopeView
  pub open envelope use *
  pub compiler_signature : CompilerSignature
  pub attestations : List Attestation
  pub registry_state_metadata : RegistryStateMetadata

pub data ArtifactError : Type 0 where
  canonical : CanonicalError → ArtifactError
  canonical_decode : CanonicalDecodeError → ArtifactError
  trailing_bytes : ArtifactError
  hash_mismatch : (expected got : Hash) → ArtifactError
  signature_invalid : ArtifactError
  envelope_truncated : ArtifactError
  kind_payload_mismatch : ArtifactKind → ArtifactError

-- What is called of the crates: the encoding's, postcard at the types of the file, and which of
-- its errors is `DeserializeUnexpectedEnd`; BLAKE3; ed25519.
pub record ArtifactCrates : Type 0 where
  pub encoding : CanonicalCrates
  pub kind : Postcard ArtifactKind
  pub prefix : Postcard EnvelopeView
  pub compiler_signature : Postcard CompilerSignature
  pub attestations : Postcard (List Attestation)
  pub registry_state_metadata : Postcard RegistryStateMetadata
  pub artifact_to_stdvec : Artifact → Result Bytes CodecError
  pub is_unexpected_end : CodecError → Bool
  pub blake3 : Bytes → Hash
  pub ed25519 : Ed25519

abbrev pub span_list : Option SourceSpan → List SourceSpan
span_list none = []
span_list (some span) = span ∷ []

-- The spans of some obligations, in order.
unfoldable pub obligation_spans : List ObligationSpec → List SourceSpan
obligation_spans [] = []
obligation_spans (o ∷ os) = span_list o.source_span ++ obligation_spans os

leaf_obligations : Option (List ObligationSpec) → List SourceSpan
unfolding obligation_spans
leaf_obligations none = []
leaf_obligations (some os) = obligation_spans os

-- The source pushes onto a vector; here the spans that one call pushes are its result.
unfoldable pub collect_entry_spans : DecisionEntry → List SourceSpan
unfolding leaf_obligations
collect_entry_spans (node node_id condition true_branch false_branch source_span) =
    span_list source_span ++ (collect_entry_spans true_branch ++ collect_entry_spans false_branch)
collect_entry_spans (leaf l) = span_list l.source_span ++ leaf_obligations l.obligations

unfoldable pub collect_rule_spans : RuleIr → List SourceSpan
unfolding collect_entry_spans
collect_rule_spans r = collect_entry_spans r.decision_tree ++ obligation_spans r.obligations

-- The stable sort by rule id: insertion before the first entry that is not smaller, from the end.
unfoldable pub insert_entry : SpanIndexEntry → List SpanIndexEntry → List SpanIndexEntry
insert_entry e [] = e ∷ []
insert_entry e (f ∷ fs) =
    let later = insert_entry e fs in
    elim (compare e.rule_id f.rule_id) [ Ordering.gt ↦ f ∷ later | _ ↦ e ∷ f ∷ fs ]

unfoldable pub sort_entries : List SpanIndexEntry → List SpanIndexEntry
unfolding insert_entry
sort_entries [] = []
sort_entries (e ∷ es) = insert_entry e (sort_entries es)

unfoldable pub build_span_index : List RuleIr → SourceSpanIndex
unfolding collect_rule_spans sort_entries
build_span_index rs = record {
  entries =
      sort_entries
        (map (λ (r : RuleIr). record { rule_id = r.rule_id; spans = collect_rule_spans r }) rs);
}
