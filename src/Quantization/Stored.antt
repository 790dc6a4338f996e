-- ===== src/Quantization/Stored.antt =====
-- What the storage of a parameter should be, said without the checks of the definitions of
-- crates/dyninfer-quantization: which components there are, and how many bytes each of them takes.
pub mod Sums
use dyninfer.Prelude.{
  ℕ, zero, suc, ◌+◌, ◌*◌, ◌^◌, ◌<◌, ◌≡◌, String, Option, none, some, List, [], ◌∷◌, ◌++◌,
}
use dyninfer.Core.Scalar.{ScalarType, StorageElementType, scalar, opaque, size_bytes, u32}
use dyninfer.Core.Shape.{ByteRange, Shape, numel}
use dyninfer.Core.Types.{
  PhysicalEncoding, plain, group_quantized, block_quantized, sparse, GroupQuantized, BlockQuantized,
  BlockLayoutField, StorageComponent,
}
use dyninfer.Checkpoint.Catalog.{LogicalParameter}

-- the bytes of a list of ranges
unfoldable pub total : List ByteRange → ℕ
total [] = 0
total (r ∷ rs) = r.length + total rs

-- the component's ranges have the bytes of its elements
pub record Sized (t : ScalarType) (shape : Shape) (ranges : List ByteRange) : Type 0 where
  pub count : ℕ
  pub size : ℕ
  pub counted : numel shape ≡ some count
  pub element : size_bytes t ≡ some size
  pub exact : total ranges ≡ count * size

pub record PlainStored (t : ScalarType) (p : LogicalParameter) : Type 0 where
  pub component : StorageComponent
  pub single : p.components ≡ component ∷ []
  pub typed : p.logical_type.element_type ≡ t
  pub sized : Sized t p.logical_type.shape component.byte_ranges

-- The fields follow each other without a gap, from `start` to `stop`.
unfoldable pub Tiles : ℕ → List BlockLayoutField → ℕ → Type 0
Tiles start [] stop = start ≡ stop
Tiles start (field ∷ fields) stop =
    (field.byte_offset ≡ start) × Tiles (start + field.byte_length) fields stop

-- The one component named `data` holds whole blocks, as many as the elements need.
pub record BlockStored (b : BlockQuantized) (p : LogicalParameter) : Type 0 where
  pub component : StorageComponent
  pub block_size : ℕ
  pub blocks : ℕ
  pub single : p.components ≡ component ∷ []
  pub named : component.name ≡ "data"
  pub interleaved : component.storage_type ≡ opaque b.codec
  pub one_axis : b.block_shape ≡ block_size ∷ []
  pub counted : numel p.logical_type.shape ≡ some (blocks * block_size)
  pub exact : total component.byte_ranges ≡ blocks * b.bytes_per_block
  pub layout_tiles : Tiles 0 b.layout b.bytes_per_block

-- The last axis is packed into words of 32 bits, and each group of it has a scale and a bias.
pub record GroupStored (g : GroupQuantized) (p : LogicalParameter) : Type 0 where
  pub packed : StorageComponent
  pub scales : StorageComponent
  pub biases : StorageComponent
  pub front : List ℕ
  pub last_axis : ℕ
  pub words : ℕ
  pub groups : ℕ
  pub three : p.components ≡ packed ∷ scales ∷ biases ∷ []
  pub shaped : p.logical_type.shape.dims ≡ front ++ last_axis ∷ []
  pub packed_shape : packed.shape.dims ≡ front ++ words ∷ []
  pub scales_shape : scales.shape.dims ≡ front ++ groups ∷ []
  pub biases_shape : biases.shape.dims ≡ front ++ groups ∷ []
  pub all_bits : words * 32 ≡ last_axis * g.storage_bits
  pub all_groups : groups * g.group_size ≡ last_axis
  pub packed_sized : Sized u32 packed.shape packed.byte_ranges
  pub scales_sized : Sized g.scale_type scales.shape scales.byte_ranges
  pub biases_sized : Sized g.scale_type biases.shape biases.byte_ranges

abbrev pub StoredAs : PhysicalEncoding → LogicalParameter → Type 0
StoredAs (plain t order) p = PlainStored t p
StoredAs (group_quantized g) p = GroupStored g p
StoredAs (block_quantized b) p = BlockStored b p
StoredAs _ p = ⊥
