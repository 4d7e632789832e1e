-- ===== src/Artifact/Keydir.antt =====
-- The key directory (crates/ke-artifact/src/keydir.rs).
use regulatory_rule_engine.Prelude.{ℕ, String, Option, List, find, str_eq}
use regulatory_rule_engine.Ir.{Hash}
use regulatory_rule_engine.Manifest.{AttestationType}

pub data SignerRole : Type 0 where
  domain_expert publication_approver registry : SignerRole

pub data KeyStatus : Type 0 where
  active expired revoked : KeyStatus

pub record KeyDirectoryEntry : Type 0 where
  pub key_id : String
  pub public_key : Hash
  pub signer_roles : List SignerRole
  pub authorized_attestation_types : List AttestationType
  pub valid_from_unix : ℕ
  pub valid_to_unix : ℕ
  pub status : KeyStatus
  pub revoked_at_unix : Option ℕ
  pub revocation_reason : Option String
  pub revocation_event_hash : Option Hash

pub record KeyDirectory : Type 0 where
  pub entries : List KeyDirectoryEntry

unfoldable pub lookup : KeyDirectory → String → Option KeyDirectoryEntry
lookup d key_id = find (λ entry. str_eq entry.key_id key_id) d.entries
