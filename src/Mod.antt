-- ===== src/Mod.antt =====
-- mod/mod.go: modules, their dependencies, and the order in which they are compiled.
pub mod Topological
mod Examples
