-- ===== src/Canonical/Decode.antt =====
-- Strict validation after decoding (crates/ke-core/src/canonical/decode.rs), and the decoders
-- themselves (crates/ke-core/src/canonical/mod.rs).
use regulatory_rule_engine.Prelude.{
  String, Option, none, some, List, Result, ok, err, ◌>>=◌, ◌>>◌, map_err, is_empty, if◌then◌else◌,
}
use regulatory_rule_engine.Crypto.{Bytes, Postcard}
use regulatory_rule_engine.Ir.{
  ScalarValue, ScalarValues, str, bool, decimal, list, Condition, ConditionOrGroup, condition,
  group, ConditionGroupSpec, group_spec, OptionItems, absent, present, Items, DecisionEntry, node,
  leaf, DecisionLeaf, ObligationSpec, DocumentRef, SourceSpan, EffectiveWindow, TimeZone,
  ProvenanceMarker, candidate, ml_checked, published, RuleIr,
}
use regulatory_rule_engine.Manifest.{VerificationPolicy, PolicyBundle, Manifest}
use regulatory_rule_engine.Canonical.Error.{CanonicalDecodeError}
use regulatory_rule_engine.Canonical.Decimal.{check_decimal_canonical}
use regulatory_rule_engine.Canonical.Set.{check_set_canonical}
use regulatory_rule_engine.Canonical.Ordering.{
  CanonicalCrates, check_nfc, check_date, check_known_tz, when_some, for_each,
}

abbrev Check : Type 0
Check = Result (Unit {0}) CanonicalDecodeError

module _ (c : CanonicalCrates) where
  unfoldable pub validate_source_span : SourceSpan → Check
  validate_source_span s = do
    check_nfc c s.document_id
    when_some (check_nfc c) s.article
    when_some (check_nfc c) s.section
    when_some (check_nfc c) s.paragraph

  unfoldable pub validate_doc_ref : DocumentRef → Check
  validate_doc_ref d = do
    check_nfc c d.document_id
    when_some (check_nfc c) d.article
    when_some (check_nfc c) d.section
    for_each (check_nfc c) d.paragraphs
    when_some (check_nfc c) d.url

  unfoldable pub validate_obligation : ObligationSpec → Check
  validate_obligation o = do
    check_nfc c o.id
    when_some (check_nfc c) o.description
    when_some (check_nfc c) o.deadline
    when_some validate_source_span o.source_span

  unfoldable pub validate_leaf : DecisionLeaf → Check
  validate_leaf l = do
    check_nfc c l.result
    when_some (for_each validate_obligation) l.obligations
    when_some (check_nfc c) l.notes
    when_some validate_source_span l.source_span

  unfoldable pub validate_time_zone : TimeZone → Check
  validate_time_zone tz = do check_known_tz tz.name; check_nfc c tz.tz_data_version

  unfoldable pub validate_window : EffectiveWindow → Check
  validate_window w = do
    check_date w.effective_from
    when_some check_date w.effective_to
    when_some validate_time_zone w.jurisdiction_time_zone

  unfoldable pub validate_provenance : ProvenanceMarker → Check
  validate_provenance (candidate (some id)) = check_nfc c id
  validate_provenance (ml_checked policy_version) = check_nfc c policy_version
  validate_provenance (published environment) = check_nfc c environment
  validate_provenance _ = ok tt

  unfoldable pub validate_manifest : Manifest → Check
  validate_manifest m = do
    check_nfc c m.regime_id
    check_nfc c m.codec_version
    check_nfc c m.canonicalization_version
    check_nfc c m.attestation_policy_version
    check_date m.effective_from
    when_some check_date m.effective_to

  unfoldable mutual
    pub validate_scalar : ScalarValue → Check
    validate_scalar (str s) = check_nfc c s
    validate_scalar (bool b) = ok tt
    validate_scalar (decimal mantissa scale) = check_decimal_canonical mantissa scale
    validate_scalar (list items) = validate_scalars items

    pub validate_scalars : ScalarValues → Check
    validate_scalars ScalarValues.nil = ok tt
    validate_scalars (ScalarValues.cons x xs) = validate_scalar x >> validate_scalars xs

  unfoldable pub validate_condition : Condition → Check
  validate_condition k = do
    check_nfc c k.field
    when_some (check_nfc c) k.description
    validate_scalar k.value

  unfoldable mutual
    pub validate_cond_or_group : ConditionOrGroup → Check
    validate_cond_or_group (condition k) = validate_condition k
    validate_cond_or_group (group g) = validate_group g

    pub validate_group : ConditionGroupSpec → Check
    validate_group (group_spec all_of any_of) = validate_option all_of >> validate_option any_of

    pub validate_option : OptionItems → Check
    validate_option absent = ok tt
    validate_option (present items) = validate_items items

    pub validate_items : Items → Check
    validate_items Items.nil = ok tt
    validate_items (Items.cons x xs) = validate_cond_or_group x >> validate_items xs

  -- A node with its fields, and a leaf.
  unfoldable pub validate_entry : DecisionEntry → Check
  validate_entry (node node_id k true_branch false_branch source_span) = do
    check_nfc c node_id
    validate_condition k
    validate_entry true_branch
    validate_entry false_branch
    when_some validate_source_span source_span
  validate_entry (leaf l) = validate_leaf l

  unfoldable pub validate_tags : Option (List String) → Check
  validate_tags none = ok tt
  validate_tags (some tags) = do
    for_each (check_nfc c) tags
    check_set_canonical c.tag_to_stdvec tags

  unfoldable pub validate_rule : RuleIr → Check
  unfolding validate_tags
  validate_rule r = do
    check_nfc c r.rule_id
    check_nfc c r.rule_version
    when_some (check_nfc c) r.description
    when_some (check_nfc c) r.interpretation_notes
    validate_tags r.tags
    when_some validate_group r.applies_if
    validate_entry r.decision_tree
    for_each validate_obligation r.obligations
    validate_doc_ref r.source
    when_some validate_window r.effective_window
    validate_provenance r.provenance

  unfoldable pub validate_verification_policy : VerificationPolicy → Check
  validate_verification_policy v = do
    check_set_canonical c.type_to_stdvec v.required_attestation_types
    check_set_canonical c.count_to_stdvec v.minimum_attestation_count_per_type

  unfoldable pub validate_policy : PolicyBundle → Check
  unfolding validate_verification_policy
  validate_policy p = do
    check_nfc c p.environment
    validate_verification_policy p.verification_policy
    validate_window p.effective_window

-- What the three decoders share: postcard, no bytes left over, then the validator.
module _ {A : Type 0} (codec : Postcard A) (validate : A → Check) where
  unfoldable pub decode_with : Bytes → Result A CanonicalDecodeError
  decode_with bytes = do
    (a, rest) ← map_err CanonicalDecodeError.codec (codec.take_from_bytes bytes)
    if is_empty rest then (validate a >>= λ _. ok a) else err CanonicalDecodeError.trailing_bytes

module _ (c : CanonicalCrates) where
  unfoldable pub decode_rule : Bytes → Result RuleIr CanonicalDecodeError
  unfolding decode_with
  decode_rule = decode_with c.rule (validate_rule c)

  unfoldable pub decode_policy : Bytes → Result PolicyBundle CanonicalDecodeError
  unfolding decode_with
  decode_policy = decode_with c.policy (validate_policy c)

  unfoldable pub decode_manifest : Bytes → Result Manifest CanonicalDecodeError
  unfolding decode_with
  decode_manifest = decode_with c.manifest (validate_manifest c)
