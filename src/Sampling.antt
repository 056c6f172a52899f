-- ===== src/Sampling.antt =====
-- services/model_capabilities.py, services/provider_types.py and services/sampling.py: which
-- sampling controls a call of a model carries.
pub mod Values
pub mod Capabilities
pub mod Resolve
mod Examples
