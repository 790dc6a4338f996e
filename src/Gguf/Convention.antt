-- ===== src/Gguf/Convention.antt =====
-- `GgufMixedConvention` of crates/dyninfer-checkpoint-gguf/src/convention.rs: the encoding of each tensor type, and the
-- parameters and the metadata that are made of an index. `as_u64` is serde_json's.
pub mod Layouts
pub mod Known
pub mod Validated
use Prim.Native.String.{◌++◌ as ◌<>◌}
use dyninfer.Prelude.{
  ℕ, ◌+◌, ◌%◌, ◌^◌, String, Bool, true, false, not, ◌&&◌, ◌||◌, ◌==◌, Option, none, some, List, [],
  ◌∷◌, length, is_empty, Result, ok, err, ◌>>=◌, ◌>>◌, guard, ok_or, str_eq, if◌then◌else◌,
}
use dyninfer.Prelude.Json.{Json, number, string, as_array, as_str_value}
use dyninfer.Prelude.Assoc.{get, insert}
use dyninfer.Prelude.Options.{and_then}
use dyninfer.Prelude.Decimal.{decimal}
use dyninfer.Core.Scalar.{ScalarType, StorageElementType, scalar, little, row_major}
use dyninfer.Core.Types.{PhysicalEncoding, plain_of, block_quantized, BlockLayoutField}
use dyninfer.Checkpoint.Errors.{
  CheckpointError, missing_type_code, no_block_layout, no_block_bytes, layout_count_mismatch,
  layout_total_mismatch,
}
use dyninfer.Checkpoint.Catalog.{
  RawTensorEntry, RawCheckpointIndex, LogicalParameter, ParameterCatalog,
}
use dyninfer.Checkpoint.Role.{infer_role}
use dyninfer.Gguf.Types.{GgufType, from_u32, name, block_size, type_size}
use dyninfer.Gguf.Convention.Layouts.{
  layout_components, layout_byte_lengths, layout_storage_type, scalar_of,
}

-- the number of a match of the convention
unfoldable pub match_score : RawCheckpointIndex → ℕ
match_score i = if not (str_eq i.container.format_id "gguf") || is_empty i.entries then 0 else 100

-- the zipped fields and the offset after them
unfoldable pub layout_fields : ℕ → List String → List ℕ → List BlockLayoutField × ℕ
unfolding layout_storage_type
layout_fields offset (n ∷ names) (byte_length ∷ lengths) =
    let (fields, stop) = layout_fields ((offset + byte_length) % 2 ^ 32) names lengths in
    (
      record {
        name = n;
        byte_offset = offset;
        byte_length = byte_length;
        storage_type = layout_storage_type n;
      }
          ∷ fields,
      stop,
    )
layout_fields offset _ _ = ([], offset)

-- `Some(total) == type_size`
abbrev pub is_size : Option ℕ → ℕ → Bool
is_size none total = false
is_size (some n) total = total == n

abbrev pub layout_of_total :
    GgufType → List BlockLayoutField × ℕ → Result CheckpointError (List BlockLayoutField)
layout_of_total t (fields, total) = do
  guard (is_size (type_size t) total) (layout_total_mismatch (name t))
  ok fields

unfoldable pub block_layout : GgufType → Result CheckpointError (List BlockLayoutField)
unfolding layout_fields layout_components layout_byte_lengths type_size name
block_layout t = do
  guard (length (layout_components t) == length (layout_byte_lengths t))
      (layout_count_mismatch (name t))
  layout_of_total t (layout_fields 0 (layout_components t) (layout_byte_lengths t))

abbrev pub encoding_of :
    GgufType → Option ScalarType → Result CheckpointError (PhysicalEncoding × ScalarType)
encoding_of t (some s) = ok (plain_of s, s)
encoding_of t none = do
  block ← ok_or (block_size t) (no_block_layout (name t))
  bytes_per_block ← ok_or (type_size t) (no_block_bytes (name t))
  layout ← block_layout t
  ok (
    block_quantized (record {
      logical_type = ScalarType.f16;
      block_shape = block % 2 ^ 32 ∷ [];
      bytes_per_block = bytes_per_block % 2 ^ 32;
      codec = "gguf." <> name t;
      codec_version = 1;
      components = layout_components t;
      layout = layout;
      order = row_major;
      endianness = little;
    }),
    ScalarType.f16,
  )

unfoldable pub physical_encoding : GgufType → Result CheckpointError (PhysicalEncoding × ScalarType)
unfolding scalar_of block_size type_size block_layout name layout_components
physical_encoding t = encoding_of t (scalar_of t)

-- the entries that the loop copies to the catalog's names
abbrev pub suffixes : List (String × String)
suffixes =
    ("block_count", "num_layers")
    ∷ ("embedding_length", "hidden_size")
    ∷ ("feed_forward_length", "intermediate_size")
    ∷ ("attention.head_count", "num_heads")
    ∷ ("attention.head_count_kv", "num_kv_heads")
    ∷ ("attention.key_length", "head_dim")
    ∷ ("context_length", "context_length")
    ∷ ("attention.layer_norm_rms_epsilon", "rms_norm_eps")
    ∷ ("rope.freq_base", "rope_theta")
    ∷ []

-- `if let Some(value) = value { normalized.insert(destination, value) }`
abbrev pub insert_some : List (String × Json) → String → Option Json → List (String × Json)
insert_some normalized destination none = normalized
insert_some normalized destination (some value) = insert normalized destination value

abbrev pub insert_missing :
    List (String × Json) → String → Option Json → Option Json → List (String × Json)
insert_missing normalized destination value none = insert_some normalized destination value
insert_missing normalized destination value (some present) = normalized

module _ (metadata : List (String × Json)) where
  unfoldable pub copy_suffixes :
      String → List (String × String) → List (String × Json) → List (String × Json)
  unfolding get
  copy_suffixes architecture [] normalized = normalized
  copy_suffixes architecture ((suffix, destination) ∷ rows) normalized =
      copy_suffixes architecture rows
        (insert_some normalized destination (get metadata (architecture <> ("." <> suffix))))

  abbrev pub with_architecture : Option String → List (String × Json)
  with_architecture none = metadata
  with_architecture (some architecture) =
      let normalized =
        copy_suffixes architecture suffixes (insert metadata "model_type" (string architecture)) in
      insert_missing normalized "head_dim" (get metadata (architecture <> ".rope.dimension_count"))
        (get normalized "head_dim")

  abbrev pub with_vocabulary : List (String × Json) → Option (List Json) → List (String × Json)
  with_vocabulary normalized none = normalized
  with_vocabulary normalized (some tokens) =
      insert normalized "vocab_size" (number (decimal (length tokens)))

  unfoldable pub normalized_metadata : List (String × Json)
  unfolding get copy_suffixes decimal
  normalized_metadata =
      with_vocabulary
        (with_architecture (and_then (get metadata "general.architecture") as_str_value))
        (and_then (get metadata "tokenizer.ggml.tokens") as_array)

abbrev pub parameter_of_entry : RawTensorEntry → PhysicalEncoding × ScalarType → LogicalParameter
parameter_of_entry e (encoding, logical_type) = record {
  canonical_name = e.key;
  role = infer_role e.key;
  logical_type = record { shape = record { dims = e.shape }; element_type = logical_type };
  encoding = encoding;
  components =
      record {
        name = "data";
        key = e.key;
        source_file_index = e.source_file_index;
        shape = record { dims = e.shape };
        storage_type = e.storage_type;
        byte_ranges = e.byte_ranges;
        alignment = e.alignment;
        endianness = little;
      }
      ∷ [];
  aliases = e.key ∷ [];
}

module _ (as_u64 : Json → Option ℕ) where
  unfoldable pub entry_gguf_type : RawTensorEntry → Result CheckpointError GgufType
  unfolding get from_u32
  entry_gguf_type e = do
    type_code ← ok_or (and_then (get e.metadata "gguf.type_code") as_u64) (missing_type_code e.key)
    from_u32 (type_code % 2 ^ 32)

  unfoldable pub decode_entries :
      List RawTensorEntry → Result CheckpointError (List LogicalParameter)
  unfolding entry_gguf_type physical_encoding infer_role
  decode_entries [] = ok []
  decode_entries (e ∷ entries) = do
    gguf_type ← entry_gguf_type e
    encoding ← physical_encoding gguf_type
    rest ← decode_entries entries
    ok (parameter_of_entry e encoding ∷ rest)

  unfoldable pub decode_catalog : RawCheckpointIndex → Result CheckpointError ParameterCatalog
  unfolding decode_entries normalized_metadata
  decode_catalog i = do
    parameters ← decode_entries i.entries
    ok (record {
      convention_id = "gguf.mixed";
      parameters = parameters;
      metadata = normalized_metadata i.metadata;
    })
