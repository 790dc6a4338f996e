-- ===== src/Core/Types.antt =====
-- crates/dyninfer-core/src/types.rs: the types of parameters, their storage, and the binding plan.
-- The identifiers of ids.rs are newtypes over text, and are texts here. A digest is the text of a
-- hash that the `sha2` package computes.
use dyninfer.Prelude.{ℕ, String, Bool, Option, List}
use dyninfer.Prelude.Int.{ℤ}
use dyninfer.Prelude.Json.{Json}
use dyninfer.Core.Scalar.{ScalarType, StorageElementType, Endianness, TensorOrder, row_major}
use dyninfer.Core.Shape.{Shape, ByteRange}

pub record SourceFile : Type 0 where
  pub path : String
  pub size_bytes : ℕ
  pub content_digest : Option String

pub data ParameterRole : Type 0 where
  embedding attention_q attention_k attention_v attention_o : ParameterRole
  ffn_gate ffn_up ffn_down norm output bias rope_freqs : ParameterRole
  other : String → ParameterRole

unfoldable pub as_str : ParameterRole → String
as_str embedding = "embedding"
as_str attention_q = "attention.q"
as_str attention_k = "attention.k"
as_str attention_v = "attention.v"
as_str attention_o = "attention.o"
as_str ffn_gate = "ffn.gate"
as_str ffn_up = "ffn.up"
as_str ffn_down = "ffn.down"
as_str norm = "norm"
as_str output = "output"
as_str bias = "bias"
as_str rope_freqs = "rope.freqs"
as_str (other s) = s

pub record LogicalTensorType : Type 0 where
  pub shape : Shape
  pub element_type : ScalarType

pub record LogicalTensorConstraint : Type 0 where
  pub rank : Option ℕ
  pub shape : Option Shape
  pub element_types : List ScalarType

pub data ZeroPointMode : Type 0 where
  absent symmetric : ZeroPointMode
  asymmetric : ScalarType → ZeroPointMode
  constant : ℤ → ZeroPointMode

pub record BlockLayoutField : Type 0 where
  pub name : String
  pub byte_offset : ℕ
  pub byte_length : ℕ
  pub storage_type : StorageElementType

pub record GroupQuantized : Type 0 where
  pub logical_type : ScalarType
  pub storage_bits : ℕ
  pub storage_container : ScalarType
  pub signed : Bool
  pub axis : ℤ
  pub group_size : ℕ
  pub scale_type : ScalarType
  pub bias_type : Option ScalarType
  pub zero_point : ZeroPointMode
  pub packing : String
  pub order : TensorOrder
  pub components : List String

pub record BlockQuantized : Type 0 where
  pub logical_type : ScalarType
  pub block_shape : List ℕ
  pub bytes_per_block : ℕ
  pub codec : String
  pub codec_version : ℕ
  pub components : List String
  pub layout : List BlockLayoutField
  pub order : TensorOrder
  pub endianness : Endianness

pub data PhysicalEncoding : Type 0 where
  plain : ScalarType → TensorOrder → PhysicalEncoding
  group_quantized : GroupQuantized → PhysicalEncoding
  block_quantized : BlockQuantized → PhysicalEncoding
  sparse : ScalarType → String → List ℕ → PhysicalEncoding
  opaque : String → ℕ → Json → PhysicalEncoding

-- `PhysicalEncoding::plain`
abbrev pub plain_of : ScalarType → PhysicalEncoding
plain_of t = plain t row_major

pub record StorageComponent : Type 0 where
  pub name : String
  pub key : String
  pub source_file_index : ℕ
  pub shape : Shape
  pub storage_type : StorageElementType
  pub byte_ranges : List ByteRange
  pub alignment : ℕ
  pub endianness : Endianness

pub record ParameterSlot : Type 0 where
  pub id : String
  pub canonical_name : String
  pub role : ParameterRole
  pub expected_type : LogicalTensorConstraint
  pub optional : Bool
  pub tied_group : Option String

pub data BindingTransform : Type 0 where
  identity rename alias : BindingTransform
  reshape : List ℕ → BindingTransform
  logical_transpose : List ℕ → BindingTransform
  slice : List (ℕ × ℕ) → BindingTransform
  concatenate : ℕ → BindingTransform
  split : ℕ → List ℕ → BindingTransform
  permute : List ℕ → BindingTransform

pub record ParameterComponentBinding : Type 0 where
  pub component_name : String
  pub external_key : String
  pub checkpoint_key : String
  pub source_file_index : ℕ
  pub shape : Shape
  pub storage_type : StorageElementType
  pub byte_lengths : List ℕ
  pub alignment : ℕ
  pub endianness : Endianness

pub record ParameterBinding : Type 0 where
  pub slot_id : String
  pub canonical_name : String
  pub checkpoint_keys : List String
  pub encoding : PhysicalEncoding
  pub logical_shape : Shape
  pub logical_type : ScalarType
  pub components : List ParameterComponentBinding
  pub transform : BindingTransform
  pub scope : String
  pub parameter_key : String
  pub storage_bytes : ℕ
  pub alignment : ℕ

-- `SchemaFingerprint` of fingerprint.rs
pub record SchemaFingerprint : Type 0 where
  pub digest : String
  pub entry_count : ℕ
  pub total_bytes : ℕ

pub record BindingPlan : Type 0 where
  pub architecture_id : String
  pub checkpoint_schema : SchemaFingerprint
  pub bindings : List ParameterBinding
  pub unresolved_optional_slots : List String
