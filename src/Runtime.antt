-- ===== src/Runtime.antt =====
-- The preview runtime (crates/ke-runtime): values, comparison, execution and effective windows.
pub mod Value
pub mod Compare
pub mod Exec
pub mod Effective
