-- ===== src/Canonical.antt =====
-- The canonical encoding: normalise, then postcard; and the strict decoder, postcard, then
-- re-validate (crates/ke-core/src/canonical).
pub mod Error
pub mod Bytewise
pub mod Decimal
pub mod Set
pub mod Ordering
pub mod Encode
pub mod Decode
pub mod Agree
pub mod Checks
pub mod Walkers
pub mod Roundtrip
