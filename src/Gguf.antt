-- ===== src/Gguf.antt =====
-- crates/dyninfer-checkpoint-gguf
pub mod Types
pub mod Cursor
pub mod Container
pub mod Convention
mod Tests
