-- ===== src/Runtime.antt =====
-- engine/runtime.py and engine/context.py: one run of the sense, reason, plan, act loop.
pub mod Types
pub mod Plan
pub mod Context
pub mod Calls
pub mod Metadata
pub mod Phase
pub mod Loop
mod Examples
