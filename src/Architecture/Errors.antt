-- ===== src/Architecture/Errors.antt =====
-- The failures of crates/dyninfer-architecture/src, one constructor for each message.
use dyninfer.Prelude.{ℕ, String, List}

pub data ArchitectureError : Type 0 where
  duplicate_slot duplicate_value duplicate_operation : String → ArchitectureError
  second_input no_token_input missing_architecture_id : ArchitectureError
  unequal_types : String → ArchitectureError
  zero_dimension : ArchitectureError
  uneven_heads : ℕ → ℕ → ArchitectureError
  unsupported_version : ℕ → ArchitectureError
  unknown_input unknown_output unknown_slot : String → String → ArchitectureError
  multiple_producers no_producer unused_slot : String → ArchitectureError
  duplicate_export export_without_output : String → ArchitectureError
  unknown_export_value : String → String → ArchitectureError
  missing_export : String → String → ArchitectureError
  missing_config missing_field : String → ArchitectureError
  head_dim_underivable : ℕ → ℕ → ArchitectureError
  schedule_length : ℕ → ℕ → ArchitectureError
  unsupported_layer : ℕ → ArchitectureError
  unknown_architecture : String → ArchitectureError
  unresolved_architecture : List String → ArchitectureError
