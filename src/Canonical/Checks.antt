-- ===== src/Canonical/Checks.antt =====
-- The walkers that change nothing accept what the validators accept.
use regulatory_rule_engine.Prelude.{
  String, Option, none, some, if◌then◌else◌, Bool, true, false, ok, err,
}
use regulatory_rule_engine.Ir.{
  JurisdictionDate, DecisionLeaf, ObligationSpec, DocumentRef, SourceSpan, EffectiveWindow,
  TimeZone, ProvenanceMarker, candidate, structurally_verified, ml_checked, expert_attested,
  published, deprecated, revoked,
}
use regulatory_rule_engine.Manifest.{Manifest}
use regulatory_rule_engine.Canonical.Agree.{
  Agree, Agree-ok, Agree-seq, Agree-when_some, Agree-for_each,
}
use regulatory_rule_engine.Canonical.Ordering.{
  CanonicalCrates, ensure_nfc, check_nfc, ensure_date, check_date, ensure_known_tz, check_known_tz,
  when_some,
}
use regulatory_rule_engine.Canonical.Encode.{
  canonicalize_source_span, canonicalize_doc_ref, canonicalize_obligation, canonicalize_leaf,
  canonicalize_time_zone, canonicalize_window, canonicalize_provenance, canonicalize_manifest,
}
use regulatory_rule_engine.Canonical.Decode.{
  validate_source_span, validate_doc_ref, validate_obligation, validate_leaf, validate_time_zone,
  validate_window, validate_provenance, validate_manifest,
}

Agree-test :
    {E F : Type 0} (b : Bool) (e : E) (f : F)
    → Agree (if b then ok tt else err e) (if b then ok tt else err f)
Agree-test true e f = Agree-ok
Agree-test false e f = record { to = λ h. cc; from = λ h. cc }

Agree-date : (d : JurisdictionDate) → Agree (ensure_date d) (check_date d)
unfolding ensure_date check_date
Agree-date d = Agree-test _ _ _

Agree-tz : (name : String) → Agree (ensure_known_tz name) (check_known_tz name)
unfolding ensure_known_tz check_known_tz
Agree-tz name = Agree-test _ _ _

module _ (c : CanonicalCrates) where
  pub Agree-nfc : (s : String) → Agree (ensure_nfc c s) (check_nfc c s)
  unfolding ensure_nfc check_nfc
  Agree-nfc s = Agree-test (c.is_nfc s) _ _

  pub Agree-nfc_option :
      (o : Option String) → Agree (when_some (ensure_nfc c) o) (when_some (check_nfc c) o)
  Agree-nfc_option = Agree-when_some Agree-nfc

  pub Agree-source_span :
      (s : SourceSpan) → Agree (canonicalize_source_span c s) (validate_source_span c s)
  unfolding canonicalize_source_span validate_source_span
  Agree-source_span s = Agree-seq (Agree-nfc s.document_id) (
      Agree-seq (Agree-nfc_option s.article)
        (Agree-seq (Agree-nfc_option s.section) (Agree-nfc_option s.paragraph)))

  pub Agree-doc_ref : (d : DocumentRef) → Agree (canonicalize_doc_ref c d) (validate_doc_ref c d)
  unfolding canonicalize_doc_ref validate_doc_ref
  Agree-doc_ref d = Agree-seq (Agree-nfc d.document_id) (
      Agree-seq (Agree-nfc_option d.article) (
        Agree-seq (Agree-nfc_option d.section)
          (Agree-seq (Agree-for_each Agree-nfc d.paragraphs) (Agree-nfc_option d.url))))

  pub Agree-obligation :
      (o : ObligationSpec) → Agree (canonicalize_obligation c o) (validate_obligation c o)
  unfolding canonicalize_obligation validate_obligation
  Agree-obligation o = Agree-seq (Agree-nfc o.id) (
      Agree-seq (Agree-nfc_option o.description)
        (Agree-seq (Agree-nfc_option o.deadline) (Agree-when_some Agree-source_span o.source_span)))

  pub Agree-leaf : (l : DecisionLeaf) → Agree (canonicalize_leaf c l) (validate_leaf c l)
  unfolding canonicalize_leaf validate_leaf
  Agree-leaf l = Agree-seq (Agree-nfc l.result) (
      Agree-seq (Agree-when_some (Agree-for_each Agree-obligation) l.obligations)
        (Agree-seq (Agree-nfc_option l.notes) (Agree-when_some Agree-source_span l.source_span)))

  Agree-time_zone : (tz : TimeZone) → Agree (canonicalize_time_zone c tz) (validate_time_zone c tz)
  unfolding canonicalize_time_zone validate_time_zone
  Agree-time_zone tz = Agree-seq (Agree-tz tz.name) (Agree-nfc tz.tz_data_version)

  pub Agree-window : (w : EffectiveWindow) → Agree (canonicalize_window c w) (validate_window c w)
  unfolding canonicalize_window validate_window
  Agree-window w = Agree-seq (Agree-date w.effective_from) (
      Agree-seq (Agree-when_some Agree-date w.effective_to)
        (Agree-when_some Agree-time_zone w.jurisdiction_time_zone))

  pub Agree-provenance :
      (p : ProvenanceMarker) → Agree (canonicalize_provenance c p) (validate_provenance c p)
  unfolding canonicalize_provenance validate_provenance
  Agree-provenance (candidate none) = Agree-ok
  Agree-provenance (candidate (some id)) = Agree-nfc id
  Agree-provenance structurally_verified = Agree-ok
  Agree-provenance (ml_checked v) = Agree-nfc v
  Agree-provenance (expert_attested n) = Agree-ok
  Agree-provenance (published env) = Agree-nfc env
  Agree-provenance deprecated = Agree-ok
  Agree-provenance revoked = Agree-ok

  pub Agree-manifest : (m : Manifest) → Agree (canonicalize_manifest c m) (validate_manifest c m)
  unfolding canonicalize_manifest validate_manifest
  Agree-manifest m = Agree-seq (Agree-nfc m.regime_id) (
      Agree-seq (Agree-nfc m.codec_version) (
        Agree-seq (Agree-nfc m.canonicalization_version) (
          Agree-seq (Agree-nfc m.attestation_policy_version)
            (Agree-seq (Agree-date m.effective_from) (Agree-when_some Agree-date m.effective_to)))))
