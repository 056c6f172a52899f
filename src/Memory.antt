-- ===== src/Memory.antt =====
-- memory/working.py: the working memory of a run, a Redis hash with a lock beside it.
pub mod Entries
pub mod Strategy
pub mod Keyed
pub mod Window
pub mod Summary
pub mod System
mod Examples
