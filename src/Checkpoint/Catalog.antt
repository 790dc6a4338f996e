-- ===== src/Checkpoint/Catalog.antt =====
-- crates/dyninfer-checkpoint/src/catalog.rs: raw tensors, decoded parameters, and the provider plan. A
-- path is a text, and a metadata map a list of its entries.
use dyninfer.Prelude.{ℕ, String, Option, List}
use dyninfer.Prelude.Json.{Json}
use dyninfer.Core.Scalar.{StorageElementType, Endianness}
use dyninfer.Core.Shape.{ByteRange}
use dyninfer.Core.Types.{
  SourceFile, ParameterRole, LogicalTensorType, PhysicalEncoding, StorageComponent,
  SchemaFingerprint,
}

pub record ContainerIdentity : Type 0 where
  pub format_id : String
  pub version : Option ℕ
  pub magic : Option String

pub record RawTensorEntry : Type 0 where
  pub key : String
  pub source_file_index : ℕ
  pub shape : List ℕ
  pub storage_type : StorageElementType
  pub byte_ranges : List ByteRange
  pub alignment : ℕ
  pub endianness : Endianness
  pub metadata : List (String × Json)

pub record RawCheckpointIndex : Type 0 where
  pub container : ContainerIdentity
  pub source_files : List SourceFile
  pub metadata : List (String × Json)
  pub entries : List RawTensorEntry
  pub data_offset : ℕ

pub record LogicalParameter : Type 0 where
  pub canonical_name : String
  pub role : ParameterRole
  pub logical_type : LogicalTensorType
  pub encoding : PhysicalEncoding
  pub components : List StorageComponent
  pub aliases : List String

pub record ParameterCatalog : Type 0 where
  pub convention_id : String
  pub parameters : List LogicalParameter
  pub metadata : List (String × Json)

pub record CheckpointCatalog : Type 0 where
  pub container : ContainerIdentity
  pub convention_id : String
  pub source_files : List SourceFile
  pub metadata : List (String × Json)
  pub raw_entries : List RawTensorEntry
  pub parameters : List LogicalParameter
  pub schema_fingerprint : SchemaFingerprint

pub record ProviderParameterDescriptor : Type 0 where
  pub external_key : String
  pub aliases : List String
  pub source_file_index : ℕ
  pub offset : ℕ
  pub length : ℕ

pub record RuntimeProviderPlan : Type 0 where
  pub kind : String
  pub scope : String
  pub file_paths : List String
  pub parameters : List ProviderParameterDescriptor
  pub notes : List String
