-- ===== src/Quantization/GgufBlock.antt =====
-- The GGUF block encodings of crates/dyninfer-quantization/src/quantizations: the schema of gguf_block.rs, the
-- executable definitions of q4_0.rs, q4_1.rs, q6_k.rs and q8_0.rs, and the candidates of gguf_codegen.rs.
use Prim.Native.String.{◌++◌ as ◌<>◌}
use dyninfer.Prelude.{
  ℕ, String, Bool, true, false, ◌&&◌, ◌==◌, ◌/◌, ◌%◌, ◌^◌, Option, none, some, List, [], ◌∷◌,
  length, Result, ok, err, ◌>>=◌, ◌>>◌, guard, ok_or, checked_mul, str_eq, codes_eq, ltb, ◌+◌,
  if◌then◌else◌,
}
use dyninfer.Prelude.Decimal.{decimal}
use dyninfer.Core.Scalar.{f16, scalar_beq, little, row_major}
use dyninfer.Core.Shape.{numel}
use dyninfer.Core.Types.{PhysicalEncoding, block_quantized, BlockQuantized, BlockLayoutField}
use dyninfer.Checkpoint.Catalog.{LogicalParameter}
use dyninfer.Kernel.{EncodingKey, KernelCandidateDescriptor}
use dyninfer.Quantization.{
  QuantizationError, unsupported, size_overflow, not_divisible, wrong_bytes, QuantizationDefinition,
  fold_lengths, ranges_of, order_beq, endianness_beq, is_data_component, texts_eq,
}

pub record GgufBlockDefinition : Type 0 where
  pub name : String
  pub type_code : ℕ
  pub block_size : ℕ
  pub bytes_per_block : ℕ
  pub layout_components : List String

abbrev pub block_codec : GgufBlockDefinition → String
block_codec d = "gguf." <> d.name

abbrev pub matches_block : GgufBlockDefinition → PhysicalEncoding → Bool
matches_block d (block_quantized b) = str_eq b.codec (block_codec d) && b.codec_version == 1
matches_block d _ = false

-- the names of the zipped fields
unfoldable pub names_match : List BlockLayoutField → List String → Bool
names_match (field ∷ fields) (name ∷ names) =
    let rest = names_match fields names in str_eq field.name name && rest
names_match _ _ = true

-- `try_fold(offset, |offset, field| (field.byte_offset == offset).then(|| offset.checked_add(..)).flatten())`
-- over 32 bits
unfoldable pub layout_end : ℕ → List BlockLayoutField → Option ℕ
layout_end offset [] = some offset
layout_end offset (field ∷ fields) =
    let rest = layout_end (offset + field.byte_length) fields in
    if field.byte_offset == offset && ltb (offset + field.byte_length) (2 ^ 32) then rest else none

-- `o == Some(n)`
abbrev pub ends_at : Option ℕ → ℕ → Bool
ends_at none n = false
ends_at (some m) n = m == n

unfoldable pub valid_descriptor : GgufBlockDefinition → BlockQuantized → Bool
unfolding texts_eq names_match layout_end
valid_descriptor d b =
    matches_block d (block_quantized b)
    && scalar_beq b.logical_type f16
    && codes_eq b.block_shape (d.block_size % 2 ^ 32 ∷ [])
    && b.bytes_per_block == d.bytes_per_block % 2 ^ 32
    && texts_eq b.components d.layout_components
    && order_beq b.order row_major
    && endianness_beq b.endianness little
    && length b.layout == length d.layout_components
    && names_match b.layout d.layout_components
    && ends_at (layout_end 0 b.layout) (d.bytes_per_block % 2 ^ 32)

-- the checks of the stored bytes
unfoldable pub validate_blocks :
    String → ℕ → ℕ → LogicalParameter → Result QuantizationError (Unit {0})
unfolding numel fold_lengths
validate_blocks codec block_size bytes_per_block p = do
  n ← ok_or (numel p.logical_type.shape) (size_overflow "numel overflow")
  guard (n % block_size == 0) (not_divisible p.canonical_name n block_size)
  expected ←
      ok_or (checked_mul (n / block_size) bytes_per_block) (size_overflow "byte size overflow")
  actual ←
      ok_or (fold_lengths 0 (ranges_of p.components)) (size_overflow "component byte size overflow")
  guard (is_data_component p.components codec && actual == expected)
      (wrong_bytes p.canonical_name expected (length p.components) actual)
  ok tt

abbrev pub validate_block_of :
    GgufBlockDefinition → LogicalParameter → PhysicalEncoding → Result QuantizationError (Unit {0})
validate_block_of d p (block_quantized b) = do
  guard (valid_descriptor d b) (unsupported p.canonical_name "invalid descriptor")
  validate_blocks (block_codec d) d.block_size d.bytes_per_block p
validate_block_of d p _ = err (unsupported p.canonical_name "expected block-quantized storage")

unfoldable pub validate_block :
    GgufBlockDefinition → LogicalParameter → Result QuantizationError (Unit {0})
unfolding valid_descriptor validate_blocks
validate_block d p = validate_block_of d p p.encoding

abbrev pub block_key : GgufBlockDefinition → EncodingKey
block_key d = record { id = block_codec d; version = 1 }

unfoldable pub block_definition :
    GgufBlockDefinition → List KernelCandidateDescriptor → QuantizationDefinition
unfolding validate_block decimal
block_definition d candidates = record {
  descriptor = record {
    key = block_key d;
    external_tags = record { family = "gguf.ggml_type"; value = decimal d.type_code } ∷ [];
  };
  matches = matches_block d;
  validate = validate_block d;
  kernel_candidates = candidates;
}

-- `GgufQ40Definition`
abbrev pub matches_q4_0 : PhysicalEncoding → Bool
matches_q4_0 (block_quantized b) =
    str_eq b.codec "gguf.q4_0" && b.codec_version == 1 && codes_eq b.block_shape (32 ∷ [])
matches_q4_0 _ = false

abbrev pub q4_0_layout : List BlockLayoutField → Bool
q4_0_layout (scale ∷ quants ∷ []) =
    str_eq scale.name "scale_f16"
    && scale.byte_offset == 0
    && scale.byte_length == 2
    && str_eq quants.name "quants_u4"
    && quants.byte_offset == 2
    && quants.byte_length == 16
q4_0_layout _ = false

unfoldable pub q4_0_descriptor : BlockQuantized → Bool
unfolding texts_eq
q4_0_descriptor b =
    scalar_beq b.logical_type f16
    && b.bytes_per_block == 18
    && texts_eq b.components ("scale_f16" ∷ "quants_u4" ∷ [])
    && q4_0_layout b.layout
    && order_beq b.order row_major
    && endianness_beq b.endianness little

abbrev pub validate_q4_0_of :
    LogicalParameter → PhysicalEncoding → Result QuantizationError (Unit {0})
validate_q4_0_of p (block_quantized b) = do
  guard (matches_q4_0 (block_quantized b))
      (unsupported p.canonical_name "invalid Q4_0 encoding descriptor")
  guard (q4_0_descriptor b)
      (unsupported p.canonical_name "Q4_0 requires logical f16 with scale_f16/quants_u4 layout")
  validate_blocks "gguf.q4_0" 32 18 p
validate_q4_0_of p _ = err (unsupported p.canonical_name "invalid Q4_0 encoding descriptor")

unfoldable pub validate_q4_0 : LogicalParameter → Result QuantizationError (Unit {0})
unfolding q4_0_descriptor validate_blocks
validate_q4_0 p = validate_q4_0_of p p.encoding
