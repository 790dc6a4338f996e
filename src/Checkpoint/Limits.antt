-- ===== src/Checkpoint/Limits.antt =====
-- crates/dyninfer-checkpoint/src/limits.rs, and the byte source of crates/dyninfer-checkpoint/src/source.rs
-- in memory (`BytesSource`).
use dyninfer.Prelude.{
  ℕ, String, ◌+◌, ◌*◌, ◌^◌, Option, List, [], ◌∷◌, length, take, drop, Result, ok, ◌>>=◌, ◌>>◌,
  guard, ok_or, leb, ltb, codes, checked_add, if◌then◌else◌,
}
use dyninfer.Checkpoint.Errors.{
  CheckpointError, key_too_long, rank_too_large, dimension_too_large, read_past_end,
}

pub record InspectionLimits : Type 0 where
  pub max_header_bytes : ℕ
  pub max_tensor_count : ℕ
  pub max_metadata_entries : ℕ
  pub max_key_len : ℕ
  pub max_shape_rank : ℕ
  pub max_dim : ℕ
  pub max_total_declared_bytes : ℕ

-- `InspectionLimits::default()`
abbrev pub default_limits : InspectionLimits
default_limits = record {
  max_header_bytes = 64 * 1024 * 1024;
  max_tensor_count = 1000000;
  max_metadata_entries = 1000000;
  max_key_len = 16 * 1024;
  max_shape_rank = 16;
  max_dim = 2 ^ 40;
  max_total_declared_bytes = 2 ^ 50;
}

-- `str::len`: the bytes of the UTF-8 form
abbrev pub utf8_bytes : ℕ → ℕ
utf8_bytes c = if ltb c 128 then 1 else (if ltb c 2048 then 2 else (if ltb c 65536 then 3 else 4))

unfoldable pub utf8_len : List ℕ → ℕ
utf8_len [] = 0
utf8_len (c ∷ cs) = utf8_bytes c + utf8_len cs

unfoldable pub validate_key : InspectionLimits → String → Result CheckpointError (Unit {0})
unfolding utf8_len
validate_key limits key =
    guard (leb (utf8_len (codes key)) limits.max_key_len)
      (key_too_long (utf8_len (codes key)) limits.max_key_len)

unfoldable pub validate_dims : ℕ → List ℕ → Result CheckpointError (Unit {0})
validate_dims max_dim [] = ok tt
validate_dims max_dim (d ∷ ds) = do
  guard (leb d max_dim) (dimension_too_large d max_dim)
  validate_dims max_dim ds

unfoldable pub validate_shape : InspectionLimits → List ℕ → Result CheckpointError (Unit {0})
unfolding validate_dims
validate_shape limits shape = do
  guard (leb (length shape) limits.max_shape_rank)
      (rank_too_large (length shape) limits.max_shape_rank)
  validate_dims limits.max_dim shape

pub record BytesSource : Type 0 where
  pub path : Option String
  pub data_bytes : List ℕ

abbrev pub source_len : BytesSource → ℕ
source_len s = length s.data_bytes

unfoldable pub read_range : BytesSource → ℕ → ℕ → Result CheckpointError (List ℕ)
read_range s offset n = do
  end ← ok_or (checked_add offset n) (read_past_end offset n)
  guard (leb end (source_len s)) (read_past_end offset n)
  ok (take n (drop offset s.data_bytes))
