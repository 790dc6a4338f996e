-- ===== src/Quantization.antt =====
-- The contract of an encoding definition of crates/dyninfer-quantization/src/lib.rs, and the sums that the
-- definitions share. The trait `QuantizationDefinition` is a record of its operations; those that emit
-- MLIR are not modelled. An error is a value with what its message names.
pub mod Plain
pub mod GgufBlock
pub mod Codegen
pub mod MlxAffine
pub mod Registry
pub mod Stored
pub mod Sound
pub mod Resolved
pub mod Coverage
mod Tests
use Prim.Native.String.{◌++◌ as ◌<>◌}
use dyninfer.Prelude.{
  ℕ, String, Bool, true, false, ◌&&◌, Option, none, some, List, [], ◌∷◌, ◌++◌, Result, checked_add,
  str_eq,
}
use dyninfer.Core.Scalar.{
  ScalarType, f32, f16, bf16, f64, i8, i16, i32, i64, u8, u16, u32, u64, boolean, display,
  TensorOrder, row_major, column_major, Endianness, little, big, native, StorageElementType, opaque,
}
use dyninfer.Core.Shape.{ByteRange}
use dyninfer.Core.Types.{
  PhysicalEncoding, plain, group_quantized, block_quantized, sparse, StorageComponent,
}
use dyninfer.Checkpoint.Catalog.{LogicalParameter}
use dyninfer.Kernel.{EncodingKey, KernelCandidateDescriptor}

pub record ExternalEncodingTag : Type 0 where
  pub family : String
  pub value : String

pub record EncodingDefinitionDescriptor : Type 0 where
  pub key : EncodingKey
  pub external_tags : List ExternalEncodingTag

pub data QuantizationError : Type 0 where
  unsupported : String → String → QuantizationError
  not_divisible : String → ℕ → ℕ → QuantizationError
  wrong_bytes : String → ℕ → ℕ → ℕ → QuantizationError
  size_overflow : String → QuantizationError
  duplicate_definition : EncodingKey → QuantizationError

pub record QuantizationDefinition : Type 0 where
  pub descriptor : EncodingDefinitionDescriptor
  pub matches : PhysicalEncoding → Bool
  pub validate : LogicalParameter → Result QuantizationError (Unit {0})
  pub kernel_candidates : List KernelCandidateDescriptor

unfoldable pub physical_encoding_key : PhysicalEncoding → EncodingKey
unfolding display
physical_encoding_key (plain t o) = record { id = "plain." <> display t; version = 1 }
physical_encoding_key (group_quantized g) = record { id = g.packing; version = 1 }
physical_encoding_key (block_quantized b) = record { id = b.codec; version = b.codec_version }
physical_encoding_key (sparse t format shape) = record { id = format; version = 1 }
physical_encoding_key (PhysicalEncoding.opaque codec version data_value) = record {
  id = codec;
  version = version;
}

-- `try_fold(acc, |total, range| total.checked_add(range.length))`
unfoldable pub fold_lengths : ℕ → List ByteRange → Option ℕ
fold_lengths acc [] = some acc
fold_lengths acc (r ∷ rs) = elim (checked_add acc r.length) [
  | none ↦ none
  | some a ↦ fold_lengths a rs
]

-- `flat_map(|component| &component.byte_ranges)`
abbrev pub ranges_of : List StorageComponent → List ByteRange
ranges_of [] = []
ranges_of (c ∷ cs) = c.byte_ranges ++ ranges_of cs

abbrev pub order_beq : TensorOrder → TensorOrder → Bool
order_beq row_major row_major = true
order_beq column_major column_major = true
order_beq _ _ = false

abbrev pub endianness_beq : Endianness → Endianness → Bool
endianness_beq little little = true
endianness_beq big big = true
endianness_beq native native = true
endianness_beq _ _ = false

-- `matches!(ty, StorageElementType::Opaque { codec } if codec == wanted)`
abbrev pub is_opaque : StorageElementType → String → Bool
is_opaque (opaque codec) wanted = str_eq codec wanted
is_opaque _ _ = false

-- `matches!(components, [component] if component.name == "data" && ...)`
abbrev pub is_data_component : List StorageComponent → String → Bool
is_data_component (c ∷ []) codec = str_eq c.name "data" && is_opaque c.storage_type codec
is_data_component _ codec = false

-- equality of two lists of texts
unfoldable pub texts_eq : List String → List String → Bool
texts_eq [] [] = true
texts_eq (x ∷ xs) (y ∷ ys) = let rest = texts_eq xs ys in str_eq x y && rest
texts_eq _ _ = false
