-- ===== src/Gguf/Container.antt =====
-- `GgufContainer::probe` and `index` of crates/dyninfer-checkpoint-gguf/src/container.rs.
pub mod Directory
pub mod Avoids
pub mod Depth
pub mod Alignment
pub mod Entries
pub mod Indexed
mod Tests
use mathlib.Core.List.{reverse}
use dyninfer.Prelude.{
  ℕ, zero, suc, ◌+◌, ◌*◌, ◌/◌, ◌%◌, ◌^◌, String, Bool, true, false, not, ◌&&◌, ◌||◌, Option, none,
  some, List, [], ◌∷◌, Result, ok, err, ok_or, leb, ltb, ◌==◌, checked_add, u64_max, codes_eq,
  length, map, if◌then◌else◌,
}
use dyninfer.Prelude
use dyninfer.Prelude.Assoc.{get, insert}
use dyninfer.Prelude.Effects.{Effect, ◌>>=◌, ◌>>◌, pure, get_state, lift, check}
use dyninfer.Prelude.Json.{Json, number, string}
use dyninfer.Prelude.Decimal.{decimal}
use dyninfer.Prelude.Options.{and_then, some_or}
use dyninfer.Prelude.Sort.{sort}
use dyninfer.Core.Scalar.{little}
use dyninfer.Core.Shape.{ByteRange}
use dyninfer.Core.Types.{SourceFile}
use dyninfer.Checkpoint.Errors.{
  CheckpointError, not_gguf, unsupported_version, counts_exceed_limits, tensor_rank_too_large,
  offset_overflow, data_past_end,
}
use dyninfer.Checkpoint.Catalog.{RawTensorEntry, RawCheckpointIndex, RuntimeProviderPlan}
use dyninfer.Checkpoint.Entries.{entry_leq, files_of}
use dyninfer.Checkpoint.Limits.{
  InspectionLimits, validate_key, validate_shape, BytesSource, source_len, read_range,
}
use dyninfer.Gguf.Types.{GgufType, from_u32, code, name, nbytes_for_shape, storage_element_type}
use dyninfer.Gguf.Cursor.{
  Read, FloatReader, read_exact, read_u32, read_u64, read_string, read_value, repeat,
}

abbrev pub gguf_magic : List ℕ
gguf_magic = 71 ∷ 71 ∷ 85 ∷ 70 ∷ []

-- whether the score is that of a strong match
unfoldable pub probe : BytesSource → Result CheckpointError Bool
unfolding read_range
probe source =
    if ltb (source_len source) 4
    then ok false
    else Prelude.◌>>=◌ (read_range source 0 4) (λ magic. ok (codes_eq magic gguf_magic))

-- `div_ceil`
abbrev pub div_ceil : ℕ → ℕ → ℕ
div_ceil value align = if value % align == 0 then value / align else value / align + 1

-- the product in 64 bits
unfoldable pub align_up : ℕ → ℕ → ℕ
align_up value align = if align == 0 then value else div_ceil value align * align % 2 ^ 64

pub record TensorDir : Type 0 where
  pub key : String
  pub shape : List ℕ
  pub gguf_type : GgufType
  pub offset : ℕ

module _ (source : BytesSource) (limits : InspectionLimits) (floats : FloatReader) (depth : ℕ) where
  -- the loop over the metadata, onto the map so far
  unfoldable pub read_metadata : ℕ → List (String × Json) → Read (List (String × Json))
  unfolding read_string validate_key read_value
  read_metadata zero metadata = pure metadata
  read_metadata (suc n) metadata = do
    key ← read_string source limits
    lift (validate_key limits key)
    value_type ← read_u32 source
    value ← read_value source limits floats depth value_type
    read_metadata n (insert metadata key value)

  -- one tensor of the directory. Its dimensions are stored in the reverse order.
  unfoldable pub read_dir : Read TensorDir
  unfolding read_string validate_key validate_shape from_u32 repeat
  read_dir = do
    key ← read_string source limits
    lift (validate_key limits key)
    n_dims ← read_u32 source
    check (leb n_dims limits.max_shape_rank) (tensor_rank_too_large key n_dims)
    dims ← repeat n_dims (read_u64 source)
    lift (validate_shape limits (reverse dims))
    type_code ← read_u32 source
    gguf_type ← lift (from_u32 type_code)
    offset ← read_u64 source
    pure (record { key = key; shape = reverse dims; gguf_type = gguf_type; offset = offset })

  -- what the cursor reads before the data: the version, the metadata and the directory
  unfoldable pub read_header : Read (ℕ × List (String × Json) × List TensorDir)
  unfolding read_exact read_metadata read_dir repeat
  read_header = do
    magic ← read_exact source 4
    check (codes_eq magic gguf_magic) not_gguf
    version ← read_u32 source
    check (not (ltb version 2 || ltb 3 version)) (unsupported_version version)
    tensor_count ← read_u64 source
    kv_count ← read_u64 source
    check
        (not (ltb limits.max_tensor_count tensor_count || ltb limits.max_metadata_entries kv_count))
        (counts_exceed_limits tensor_count kv_count)
    metadata ← read_metadata kv_count []
    dirs ← repeat tensor_count read_dir
    pure (version, metadata, dirs)

abbrev pub entry_metadata : GgufType → List (String × Json)
entry_metadata t =
    ("gguf.type", string (name t)) ∷ ("gguf.type_code", number (decimal (code t))) ∷ []

module _ (source : BytesSource) (data_offset alignment : ℕ) where
  unfoldable pub entry_of : TensorDir → Result CheckpointError RawTensorEntry
  unfolding nbytes_for_shape storage_element_type name code
  entry_of dir = Prelude.◌>>=◌ (nbytes_for_shape dir.gguf_type dir.shape) λ nbytes.
      Prelude.◌>>=◌ (ok_or (checked_add data_offset dir.offset) (offset_overflow dir.key)) λ abs.
        Prelude.◌>>◌
          (Prelude.guard (leb (some_or (checked_add abs nbytes) u64_max) (source_len source))
            (data_past_end dir.key))
          (ok (record {
            key = dir.key;
            source_file_index = 0;
            shape = dir.shape;
            storage_type = storage_element_type dir.gguf_type;
            byte_ranges = record { offset = abs; length = nbytes } ∷ [];
            alignment = alignment;
            endianness = little;
            metadata = entry_metadata dir.gguf_type;
          }))

  unfoldable pub entries_of_dirs : List TensorDir → Result CheckpointError (List RawTensorEntry)
  unfolding entry_of
  entries_of_dirs [] = ok []
  entries_of_dirs (dir ∷ dirs) =
      Prelude.◌>>=◌ (entry_of dir) λ e. Prelude.◌>>=◌ (entries_of_dirs dirs) λ es. ok (e ∷ es)

abbrev pub alignment_of : (Json → Option ℕ) → List (String × Json) → ℕ
alignment_of as_u64 metadata = some_or (and_then (get metadata "general.alignment") as_u64) 32

-- what is made of the header, which ends at `pos`
unfoldable pub index_from :
    (Json → Option ℕ)
    → BytesSource
    → ℕ
    → ℕ × List (String × Json) × List TensorDir
    → Result CheckpointError RawCheckpointIndex
unfolding get align_up entries_of_dirs sort
index_from as_u64 source pos (version, metadata, dirs) =
    let alignment = alignment_of as_u64 metadata in
    let data_offset = align_up pos alignment in
    Prelude.◌>>=◌ (entries_of_dirs source data_offset alignment dirs) λ entries. ok (record {
      container = record { format_id = "gguf"; version = some version; magic = some "GGUF" };
      source_files = files_of source;
      metadata = metadata;
      entries = sort entry_leq entries;
      data_offset = data_offset;
    })

abbrev pub index_after :
    (Json → Option ℕ)
    → BytesSource
    → ℕ × Result CheckpointError (ℕ × List (String × Json) × List TensorDir)
    → Result CheckpointError RawCheckpointIndex
index_after as_u64 source (pos, ok header) = index_from as_u64 source pos header
index_after as_u64 source (pos, err e) = err e

-- `as_u64` is serde_json's. Arrays may be nested as deep as the file has bytes.
unfoldable pub index :
    (Json → Option ℕ)
    → FloatReader
    → BytesSource
    → InspectionLimits
    → Result CheckpointError RawCheckpointIndex
unfolding read_header index_from
index as_u64 floats source limits =
    index_after as_u64 source (read_header source limits floats (suc (source_len source)) 0)

abbrev pub runtime_provider_plan : RawCheckpointIndex → RuntimeProviderPlan
runtime_provider_plan i = record {
  kind = "file-mapped-external-parameters";
  scope = "weights";
  file_paths = map (λ f. f.path) i.source_files;
  parameters = [];
  notes = "GGUF tensors addressed by absolute file offsets" ∷ [];
}
