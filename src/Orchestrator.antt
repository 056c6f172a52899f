-- ===== src/Orchestrator.antt =====
-- engine/patterns/orchestrator.py: the loop of the runtime with the hooks of the patterns around
-- its phases.
pub mod Types
pub mod Hooks
pub mod Abort
pub mod Sequence
pub mod Loop
pub mod Lifecycle
pub mod Settled
pub mod Metadata
pub mod Veil
pub mod Bare
mod Examples
