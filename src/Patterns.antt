-- ===== src/Patterns.antt =====
-- engine/patterns: the pattern plugins, and the rules by which a set of them is composed.
pub mod Plugin
pub mod Unvisited
pub mod Resolution
pub mod Composition
pub mod Conflicts
pub mod Hooks
pub mod Dependencies
pub mod Cycle
mod Examples
