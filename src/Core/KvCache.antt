-- ===== src/Core/KvCache.antt =====
-- `KvCacheDescriptor` of crates/dyninfer-core/src/types.rs: the bytes of the key and value cache.
pub mod Bytes
use dyninfer.Prelude.{ℕ, ◌*◌, String, Option, none, some, min, saturating_mul}
use dyninfer.Core.Scalar.{ScalarType, size_bytes}

pub data KvCacheLayout : Type 0 where
  layers_heads_seq_dim layers_seq_heads_dim : KvCacheLayout
  custom : String → KvCacheLayout

-- `paged page_size chunk_size`
pub data KvCacheStorage : Type 0 where
  static_globals : KvCacheStorage
  paged : ℕ → ℕ → KvCacheStorage

pub record KvCacheDescriptor : Type 0 where
  pub layer_count : ℕ
  pub max_batch_size : ℕ
  pub max_sequence_length : ℕ
  pub kv_head_count : ℕ
  pub head_dimension : ℕ
  pub element_type : ScalarType
  pub layout : KvCacheLayout
  pub alignment : ℕ
  pub storage : KvCacheStorage

unfoldable pub page_size : KvCacheDescriptor → Option ℕ
page_size kv = elim kv.storage [ static_globals ↦ none | paged page chunk ↦ some page ]

unfoldable pub chunk_size : KvCacheDescriptor → Option ℕ
chunk_size kv = elim kv.storage [ static_globals ↦ none | paged page chunk ↦ some chunk ]

-- `size_bytes().unwrap_or(4)`
unfoldable pub element_bytes : ScalarType → ℕ
unfolding size_bytes
element_bytes t = elim (size_bytes t) [ none ↦ 4 | some n ↦ n ]

unfoldable pub bytes_per_token_component : KvCacheDescriptor → ℕ
unfolding element_bytes
bytes_per_token_component kv =
    saturating_mul
      (saturating_mul (saturating_mul kv.layer_count kv.kv_head_count) kv.head_dimension)
      (element_bytes kv.element_type)

unfoldable pub bytes_for_tokens : KvCacheDescriptor → ℕ → ℕ
bytes_for_tokens kv tokens =
    saturating_mul
      (saturating_mul (bytes_per_token_component kv) (min tokens kv.max_sequence_length)) 2

unfoldable pub capacity_bytes : KvCacheDescriptor → ℕ
unfolding bytes_for_tokens
capacity_bytes kv = bytes_for_tokens kv kv.max_sequence_length
