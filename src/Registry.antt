-- ===== src/Registry.antt =====
-- The lifecycle registry (crates/ke-cli/src/registry).
pub mod State
pub mod Error
pub mod Event
pub mod Log
pub mod Action
pub mod Hex
pub mod Backend
pub mod Policy
pub mod Commands
pub mod Resolve
