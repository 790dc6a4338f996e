-- ===== src/Checkpoint.antt =====
-- crates/dyninfer-checkpoint: limits, catalogs and the plan that the runtime reads parameters by.
pub mod Errors
pub mod Catalog
pub mod Limits
pub mod Entries
pub mod Role
pub mod Provider
