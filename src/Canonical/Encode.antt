-- ===== src/Canonical/Encode.antt =====
-- Normalisation before encoding (crates/ke-core/src/canonical/encode.rs). A walker that changes
-- nothing returns no value; one that does returns the changed value.
use regulatory_rule_engine.Prelude.{
  String, Option, none, some, List, Result, ok, ◌>>=◌, ◌>>◌, map_err,
}
use regulatory_rule_engine.Crypto.{Bytes}
use regulatory_rule_engine.Ir.{
  ScalarValue, ScalarValues, str, bool, decimal, list, Condition, ConditionOrGroup, condition,
  group, ConditionGroupSpec, group_spec, OptionItems, absent, present, Items, DecisionEntry, node,
  leaf, DecisionLeaf, ObligationSpec, DocumentRef, SourceSpan, EffectiveWindow, TimeZone,
  ProvenanceMarker, candidate, ml_checked, published, RuleIr,
}
use regulatory_rule_engine.Manifest.{VerificationPolicy, PolicyBundle, Manifest}
use regulatory_rule_engine.Canonical.Error.{CanonicalError}
use regulatory_rule_engine.Canonical.Decimal.{normalize_decimal}
use regulatory_rule_engine.Canonical.Set.{canonicalize_set}
use regulatory_rule_engine.Canonical.Ordering.{
  CanonicalCrates, ensure_nfc, ensure_date, ensure_known_tz, when_some, for_each,
}

abbrev Check : Type 0
Check = Result (Unit {0}) CanonicalError

module _ (c : CanonicalCrates) where
  unfoldable pub canonicalize_source_span : SourceSpan → Check
  canonicalize_source_span s = do
    ensure_nfc c s.document_id
    when_some (ensure_nfc c) s.article
    when_some (ensure_nfc c) s.section
    when_some (ensure_nfc c) s.paragraph

  unfoldable pub canonicalize_doc_ref : DocumentRef → Check
  canonicalize_doc_ref d = do
    ensure_nfc c d.document_id
    when_some (ensure_nfc c) d.article
    when_some (ensure_nfc c) d.section
    for_each (ensure_nfc c) d.paragraphs
    when_some (ensure_nfc c) d.url

  unfoldable pub canonicalize_obligation : ObligationSpec → Check
  canonicalize_obligation o = do
    ensure_nfc c o.id
    when_some (ensure_nfc c) o.description
    when_some (ensure_nfc c) o.deadline
    when_some canonicalize_source_span o.source_span

  unfoldable pub canonicalize_leaf : DecisionLeaf → Check
  canonicalize_leaf l = do
    ensure_nfc c l.result
    when_some (for_each canonicalize_obligation) l.obligations
    when_some (ensure_nfc c) l.notes
    when_some canonicalize_source_span l.source_span

  unfoldable pub canonicalize_time_zone : TimeZone → Check
  canonicalize_time_zone tz = do ensure_known_tz tz.name; ensure_nfc c tz.tz_data_version

  unfoldable pub canonicalize_window : EffectiveWindow → Check
  canonicalize_window w = do
    ensure_date w.effective_from
    when_some ensure_date w.effective_to
    when_some canonicalize_time_zone w.jurisdiction_time_zone

  unfoldable pub canonicalize_provenance : ProvenanceMarker → Check
  canonicalize_provenance (candidate (some id)) = ensure_nfc c id
  canonicalize_provenance (ml_checked policy_version) = ensure_nfc c policy_version
  canonicalize_provenance (published environment) = ensure_nfc c environment
  canonicalize_provenance _ = ok tt

  unfoldable pub canonicalize_manifest : Manifest → Check
  canonicalize_manifest m = do
    ensure_nfc c m.regime_id
    ensure_nfc c m.codec_version
    ensure_nfc c m.canonicalization_version
    ensure_nfc c m.attestation_policy_version
    ensure_date m.effective_from
    when_some ensure_date m.effective_to

  unfoldable mutual
    pub canonicalize_scalar : ScalarValue → Result ScalarValue CanonicalError
    canonicalize_scalar (str s) = do ensure_nfc c s; ok (str s)
    canonicalize_scalar (bool b) = ok (bool b)
    canonicalize_scalar (decimal mantissa scale) = do
      (m, s) ← normalize_decimal mantissa scale
      ok (decimal m s)
    canonicalize_scalar (list items) = do items' ← canonicalize_scalars items; ok (list items')

    pub canonicalize_scalars : ScalarValues → Result ScalarValues CanonicalError
    canonicalize_scalars ScalarValues.nil = ok ScalarValues.nil
    canonicalize_scalars (ScalarValues.cons x xs) = do
      x' ← canonicalize_scalar x
      xs' ← canonicalize_scalars xs
      ok (ScalarValues.cons x' xs')

  unfoldable pub canonicalize_condition : Condition → Result Condition CanonicalError
  canonicalize_condition k = do
    ensure_nfc c k.field
    when_some (ensure_nfc c) k.description
    value ← canonicalize_scalar k.value
    ok (record k { value = value })

  unfoldable mutual
    pub canonicalize_cond_or_group : ConditionOrGroup → Result ConditionOrGroup CanonicalError
    canonicalize_cond_or_group (condition k) = do k' ← canonicalize_condition k; ok (condition k')
    canonicalize_cond_or_group (group g) = do g' ← canonicalize_group g; ok (group g')

    pub canonicalize_group : ConditionGroupSpec → Result ConditionGroupSpec CanonicalError
    canonicalize_group (group_spec all_of any_of) = do
      all' ← canonicalize_option all_of
      any' ← canonicalize_option any_of
      ok (group_spec all' any')

    pub canonicalize_option : OptionItems → Result OptionItems CanonicalError
    canonicalize_option absent = ok absent
    canonicalize_option (present items) = do items' ← canonicalize_items items; ok (present items')

    pub canonicalize_items : Items → Result Items CanonicalError
    canonicalize_items Items.nil = ok Items.nil
    canonicalize_items (Items.cons x xs) = do
      x' ← canonicalize_cond_or_group x
      xs' ← canonicalize_items xs
      ok (Items.cons x' xs')

  -- A node with its fields, and a leaf.
  unfoldable pub canonicalize_entry : DecisionEntry → Result DecisionEntry CanonicalError
  canonicalize_entry (node node_id k true_branch false_branch source_span) = do
    ensure_nfc c node_id
    k' ← canonicalize_condition k
    true' ← canonicalize_entry true_branch
    false' ← canonicalize_entry false_branch
    when_some canonicalize_source_span source_span
    ok (node node_id k' true' false' source_span)
  canonicalize_entry (leaf l) = do canonicalize_leaf l; ok (leaf l)

  unfoldable pub canonicalize_tags :
      Option (List String) → Result (Option (List String)) CanonicalError
  canonicalize_tags none = ok none
  canonicalize_tags (some tags) = do
    for_each (ensure_nfc c) tags
    tags' ← canonicalize_set c.tag_to_stdvec tags
    ok (some tags')

  unfoldable pub canonicalize_applies_if :
      Option ConditionGroupSpec → Result (Option ConditionGroupSpec) CanonicalError
  canonicalize_applies_if none = ok none
  canonicalize_applies_if (some g) = do g' ← canonicalize_group g; ok (some g')

  unfoldable pub canonicalize_rule : RuleIr → Result RuleIr CanonicalError
  unfolding canonicalize_tags canonicalize_applies_if
  canonicalize_rule r = do
    ensure_nfc c r.rule_id
    ensure_nfc c r.rule_version
    when_some (ensure_nfc c) r.description
    when_some (ensure_nfc c) r.interpretation_notes
    tags ← canonicalize_tags r.tags
    applies_if ← canonicalize_applies_if r.applies_if
    decision_tree ← canonicalize_entry r.decision_tree
    for_each canonicalize_obligation r.obligations
    canonicalize_doc_ref r.source
    when_some canonicalize_window r.effective_window
    canonicalize_provenance r.provenance
    ok (record r { tags = tags; applies_if = applies_if; decision_tree = decision_tree })

  unfoldable pub canonicalize_verification_policy :
      VerificationPolicy → Result VerificationPolicy CanonicalError
  canonicalize_verification_policy v = do
    types ← canonicalize_set c.type_to_stdvec v.required_attestation_types
    counts ← canonicalize_set c.count_to_stdvec v.minimum_attestation_count_per_type
    ok (record v {
      required_attestation_types = types;
      minimum_attestation_count_per_type = counts;
    })

  unfoldable pub canonicalize_policy : PolicyBundle → Result PolicyBundle CanonicalError
  unfolding canonicalize_verification_policy
  canonicalize_policy p = do
    ensure_nfc c p.environment
    verification_policy ← canonicalize_verification_policy p.verification_policy
    canonicalize_window p.effective_window
    ok (record p { verification_policy = verification_policy })

  unfoldable pub encode_rule : RuleIr → Result Bytes CanonicalError
  encode_rule r = do r' ← canonicalize_rule r; map_err CanonicalError.codec (c.rule.to_stdvec r')

  unfoldable pub encode_policy : PolicyBundle → Result Bytes CanonicalError
  encode_policy p = do
    p' ← canonicalize_policy p
    map_err CanonicalError.codec (c.policy.to_stdvec p')

  unfoldable pub encode_manifest : Manifest → Result Bytes CanonicalError
  encode_manifest m = do
    canonicalize_manifest m
    map_err CanonicalError.codec (c.manifest.to_stdvec m)
