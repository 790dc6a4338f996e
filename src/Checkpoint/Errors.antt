-- ===== src/Checkpoint/Errors.antt =====
-- The errors of the checkpoint crates, one for each message. `DynInferError::InvalidCheckpoint` and
-- `DynInferError::Io` of crates/dyninfer-error carry the message as a text.
use dyninfer.Prelude.{ℕ, String}

pub data CheckpointError : Type 0 where
  unknown_type_code : ℕ → CheckpointError
  numel_overflow size_overflow : CheckpointError
  unsized_type : String → CheckpointError
  partial_block : String → ℕ → ℕ → CheckpointError
  key_too_long : ℕ → ℕ → CheckpointError
  rank_too_large dimension_too_large : ℕ → ℕ → CheckpointError
  read_past_end : ℕ → ℕ → CheckpointError
  unsupported_dtype : String → CheckpointError
  invalid_header_length : ℕ → CheckpointError
  header_past_end header_json_invalid header_not_object : CheckpointError
  invalid_tensor_info offsets_reversed no_fixed_size : String → CheckpointError
  length_mismatch offset_overflow data_past_end : String → CheckpointError
  overlapping_ranges : String → String → CheckpointError
  too_many_tensors too_many_bytes : ℕ → ℕ → CheckpointError
  string_too_long array_too_long unsupported_value_type unsupported_version : ℕ → CheckpointError
  string_not_utf8 not_gguf cursor_overflow nested_too_deep : CheckpointError
  counts_exceed_limits : ℕ → ℕ → CheckpointError
  tensor_rank_too_large : String → ℕ → CheckpointError
  missing_type_code no_block_layout no_block_bytes layout_count_mismatch layout_total_mismatch :
      String → CheckpointError
