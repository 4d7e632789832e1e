-- ===== src/Tests/Rules.antt =====
-- A wire codec for the rules that are a leaf with one decimal condition in front.
use regulatory_rule_engine.Prelude.{
  ℕ, ℤ, ◌≡◌, refl, String, [], ◌∷◌, Result, ok, err, String_eq, arith,
}
use regulatory_rule_engine.Ir.{
  Operator, ScalarValue, str, bool, decimal, list, Condition, condition, ConditionGroupSpec,
  group_spec, absent, present, Items, DecisionEntry, node, leaf, DecisionLeaf, DocumentRef,
  ProvenanceMarker, RuleIr, structurally_verified, gte,
}
use regulatory_rule_engine.Crypto.{CodecError}
use regulatory_rule_engine.Tests.Codec.{
  Codec, number, numbers, integer, option, nothing, no_elements, two_elements, pair, via, renamed,
  one_of,
}

abbrev pub words : Codec String
words = one_of (
    "rule" ∷ "1.0" ∷ "art" ∷ "stablecoin" ∷ "doc" ∷ "amount" ∷ "compliant" ∷ "production" ∷ "UTC"
    ∷ "2025a" ∷ [])

abbrev decimal_parts : ScalarValue → Result (ℤ × ℤ) CodecError
decimal_parts (str s) = err "not supported"
decimal_parts (bool b) = err "not supported"
decimal_parts (decimal m s) = ok (m, s)
decimal_parts (list xs) = err "not supported"

pub decimal_parts-eq-ok :
    (v : ScalarValue) (x : ℤ × ℤ)
    → decimal_parts v ≡ ok x
    → ◌≡◌ {A = Result ScalarValue CodecError} (ok (decimal x.0 x.1)) (ok v)
decimal_parts-eq-ok v x h = ground arith

abbrev scalar : Codec ScalarValue
scalar = via decimal_parts (λ x. ok (decimal x.0 x.1)) decimal_parts-eq-ok (pair integer integer)

-- Only one operator is written.
abbrev gte_only : Operator → Result ℕ CodecError
gte_only gte = ok 0
gte_only _ = err "not supported"

pub gte_only-eq-ok :
    (o : Operator) (n : ℕ)
    → gte_only o ≡ ok n
    → ◌≡◌ {A = Result Operator CodecError} (ok gte) (ok o)
gte_only-eq-ok o n h = ground arith

abbrev operator_codec : Codec Operator
operator_codec = via gte_only (λ n. ok gte) gte_only-eq-ok number

abbrev condition_codec : Codec Condition
condition_codec =
    renamed (λ (k : Condition). (k.field, (k.operator, (k.value, k.description))))
      (λ x. record { field = x.0; operator = x.1.0; value = x.1.1.0; description = x.1.1.1 })
      (λ k. refl) (pair words (pair operator_codec (pair scalar nothing)))

abbrev only_condition : ConditionGroupSpec → Result Condition CodecError
only_condition (group_spec (present (Items.cons (condition k) Items.nil)) absent) = ok k
only_condition _ = err "not supported"

abbrev of_condition : Condition → ConditionGroupSpec
of_condition k = group_spec (present (Items.cons (condition k) Items.nil)) absent

pub only_condition-eq-ok :
    (g : ConditionGroupSpec) (k : Condition)
    → only_condition g ≡ ok k
    → ◌≡◌ {A = Result ConditionGroupSpec CodecError} (ok (of_condition k)) (ok g)
only_condition-eq-ok g k h = ground arith

abbrev group_codec : Codec ConditionGroupSpec
group_codec = via only_condition (λ k. ok (of_condition k)) only_condition-eq-ok condition_codec

abbrev leaf_codec : Codec DecisionLeaf
leaf_codec =
    renamed (λ (l : DecisionLeaf). (l.result, (l.obligations, (l.notes, l.source_span))))
      (λ x. record { result = x.0; obligations = x.1.0; notes = x.1.1.0; source_span = x.1.1.1 })
      (λ l. refl) (pair words (pair nothing (pair nothing nothing)))

abbrev only_leaf : DecisionEntry → Result DecisionLeaf CodecError
only_leaf (leaf l) = ok l
only_leaf (node _ _ _ _ _) = err "not supported"

pub only_leaf-eq-ok :
    (e : DecisionEntry) (l : DecisionLeaf)
    → only_leaf e ≡ ok l
    → ◌≡◌ {A = Result DecisionEntry CodecError} (ok (leaf l)) (ok e)
only_leaf-eq-ok e l h = ground arith

abbrev entry_codec : Codec DecisionEntry
entry_codec = via only_leaf (λ l. ok (leaf l)) only_leaf-eq-ok leaf_codec

abbrev doc_ref_codec : Codec DocumentRef
doc_ref_codec =
    renamed
      (λ (d : DocumentRef).
        (d.document_id, (d.article, (d.section, (d.paragraphs, (d.pages, d.url))))))
      (λ x. record {
        document_id = x.0;
        article = x.1.0;
        section = x.1.1.0;
        paragraphs = x.1.1.1.0;
        pages = x.1.1.1.1.0;
        url = x.1.1.1.1.1;
      })
      (λ d. refl)
      (pair words (pair nothing (pair nothing (pair no_elements (pair numbers nothing)))))

abbrev verified_only : ProvenanceMarker → Result ℕ CodecError
verified_only structurally_verified = ok 0
verified_only _ = err "not supported"

pub verified_only-eq-ok :
    (p : ProvenanceMarker) (n : ℕ)
    → verified_only p ≡ ok n
    → ◌≡◌ {A = Result ProvenanceMarker CodecError} (ok structurally_verified) (ok p)
verified_only-eq-ok p n h = ground arith

abbrev provenance_codec : Codec ProvenanceMarker
provenance_codec = via verified_only (λ n. ok structurally_verified) verified_only-eq-ok number

abbrev pub rule_codec : Codec RuleIr
rule_codec =
    renamed
      (λ (r : RuleIr). (
        r.rule_id,
        (
          r.rule_version,
          (
            r.description,
            (
              r.tags,
              (
                r.applies_if,
                (
                  r.decision_tree,
                  (
                    r.obligations,
                    (r.source, (r.interpretation_notes, (r.effective_window, r.provenance))),
                  ),
                ),
              ),
            ),
          ),
        ),
      ))
      (λ x. record {
        rule_id = x.0;
        rule_version = x.1.0;
        description = x.1.1.0;
        tags = x.1.1.1.0;
        applies_if = x.1.1.1.1.0;
        decision_tree = x.1.1.1.1.1.0;
        obligations = x.1.1.1.1.1.1.0;
        source = x.1.1.1.1.1.1.1.0;
        interpretation_notes = x.1.1.1.1.1.1.1.1.0;
        effective_window = x.1.1.1.1.1.1.1.1.1.0;
        provenance = x.1.1.1.1.1.1.1.1.1.1;
      })
      (λ r. refl)
      (pair words (
        pair words (
          pair nothing (
            pair (option (two_elements words)) (
              pair (option group_codec) (
                pair entry_codec (
                  pair no_elements
                    (pair doc_ref_codec (pair nothing (pair nothing provenance_codec))))))))))
