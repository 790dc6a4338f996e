-- ===== src/Safetensors.antt =====
-- crates/dyninfer-checkpoint-safetensors.
pub mod Container
pub mod Convention
pub mod Probe
mod Tests
