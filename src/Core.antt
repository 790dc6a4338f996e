-- ===== src/Core.antt =====
-- crates/dyninfer-core: the domain types that the other crates share.
pub mod Scalar
pub mod Shape
pub mod Types
pub mod KvCache
pub mod Ir
pub mod Graph
pub mod Target
mod Tests
