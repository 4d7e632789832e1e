-- ===== src/Artifact.antt =====
-- The crate ke-artifact: keys, timestamps, attestations (crates/ke-artifact/src).
pub mod Keydir
pub mod Tsa
pub mod Attestation
pub mod Consistency
pub mod Envelope
pub mod Verify
