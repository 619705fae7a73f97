-- ===== src/Basic.antt =====
-- basic/: the intermediate representation and the passes over it.
pub mod Ir
pub mod Sub
pub mod Types
pub mod Checks
pub mod Bugs
pub mod Blocks
pub mod Cleanup
pub mod Deletes
pub mod Build
pub mod Adds
pub mod Escape
pub mod Lift
mod Examples
