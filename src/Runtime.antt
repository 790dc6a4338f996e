-- ===== src/Runtime.antt =====
-- crates/dyninfer-runtime: the session that a loaded model is run by.
pub mod Floats
pub mod Context
pub mod Session
pub mod Generate
mod Tests
