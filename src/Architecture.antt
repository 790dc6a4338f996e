-- ===== src/Architecture.antt =====
-- crates/dyninfer-architecture/src: the builder of architecture graphs, the checks of a finished graph, and
-- the models that are built in.
pub mod Errors
pub mod Builder
pub mod Verify
pub mod Typing
pub mod Config
pub mod Schemas
pub mod Remapping
pub mod Naming
pub mod Registry
pub mod Models
pub mod Blocks
mod Tests
