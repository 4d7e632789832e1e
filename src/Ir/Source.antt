-- ===== src/Ir/Source.antt =====
-- Citations of legal source text (crates/ke-core/src/ir/source_span.rs).
use regulatory_rule_engine.Prelude.{ℕ, String, Option, List}

-- A `[u8; 32]` digest, as its bytes.
abbrev pub Hash : Type 0
Hash = List ℕ

pub record DocumentRef : Type 0 where
  pub document_id : String
  pub article : Option String
  pub section : Option String
  pub paragraphs : List String
  pub pages : List ℕ
  pub url : Option String

-- Half open: `[start, end)`.
pub record ByteRange : Type 0 where
  pub start : ℕ
  pub end : ℕ

pub record SourceSpan : Type 0 where
  pub document_id : String
  pub article : Option String
  pub section : Option String
  pub paragraph : Option String
  pub pages : Option (List ℕ)
  pub byte_range : Option ByteRange
  pub text_hash : Option Hash
