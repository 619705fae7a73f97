-- ===== src/Types.antt =====
-- types: the type checker.
pub mod Tree
pub mod Unify
pub mod Ground
pub mod Scope
pub mod Capture
mod Examples
