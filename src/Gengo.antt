-- ===== src/Gengo.antt =====
-- gengo/: the names that the Go back end gives to functions, types and modules.
pub mod Escape
pub mod Token
pub mod Mangle
mod Examples
