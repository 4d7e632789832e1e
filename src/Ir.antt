-- ===== src/Ir.antt =====
-- The rule IR, the shapes that every other part works on (crates/ke-core/src/ir). Boxes are left
-- out; a `Vec` of a type inside that type is a list type of its own, with a function to `List`.
mod Source
mod Time
mod Scalar
mod Conditions
mod Decision
mod Rule
mod Intent
pub use Source.*
unfoldable pub use Time.*
pub use Scalar.*
pub use Conditions.*
pub use Decision.*
pub use Rule.*
pub use Intent.*
