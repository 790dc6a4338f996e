-- ===== src/Safetensors/Container.antt =====
-- `SafeTensorsContainer::index` of crates/dyninfer-checkpoint-safetensors/src/container.rs. The JSON
-- reader and the decoding of a tensor's info are serde's: `parse_json` and `tensor_info`. The default
-- map of serde_json has each key once; the loop takes the entries in the map's order.
pub mod Entries
pub mod Overlaps
pub mod Indexed
use dyninfer.Prelude.{
  ℕ, suc, String, ◌+◌, ◌-◌, ◌*◌, ◌^◌, ◌%◌, Bool, true, false, not, ◌||◌, Option, none, some, List,
  [], ◌∷◌, ◌++◌, map, length, first, Result, ok, err, ◌>>=◌, ◌>>◌, guard, ok_or, leb, ltb, ◌==◌,
  str_eq, text_leq, checked_add, checked_mul, saturating_add, u64_max, from_le_bytes, if◌then◌else◌,
}
use dyninfer.Prelude.Assoc.{get, insert}
use dyninfer.Prelude.Json.{Json, as_object}
use dyninfer.Prelude.Sort.{sort}
use dyninfer.Core.Scalar.{
  ScalarType, f32, f16, bf16, f64, i8, i16, i32, i64, u8, u16, u32, u64, boolean, size_bytes,
  scalar, little,
}
use dyninfer.Core.Shape.{ByteRange, fold_mul, end}
use dyninfer.Core.Types.{SourceFile}
use dyninfer.Checkpoint.Errors.{
  CheckpointError, numel_overflow, size_overflow, unsupported_dtype, invalid_header_length,
  header_past_end, header_json_invalid, header_not_object, invalid_tensor_info, offsets_reversed,
  no_fixed_size, length_mismatch, offset_overflow, data_past_end, overlapping_ranges,
  too_many_tensors, too_many_bytes,
}
use dyninfer.Checkpoint.Catalog.{RawTensorEntry, RawCheckpointIndex}
use dyninfer.Checkpoint.Entries.{entry_leq, files_of}
use dyninfer.Checkpoint.Limits.{
  InspectionLimits, validate_key, validate_shape, BytesSource, source_len, read_range,
}

pub record TensorInfo : Type 0 where
  pub dtype : String
  pub shape : List ℕ
  pub start : ℕ
  pub stop : ℕ

-- the arms of the match
abbrev pub dtypes : List (String × ScalarType)
dtypes =
    ("F32", f32)
    ∷ ("F16", f16)
    ∷ ("BF16", bf16)
    ∷ ("F64", f64)
    ∷ ("I8", i8)
    ∷ ("I16", i16)
    ∷ ("I32", i32)
    ∷ ("I64", i64)
    ∷ ("U8", u8)
    ∷ ("U16", u16)
    ∷ ("U32", u32)
    ∷ ("U64", u64)
    ∷ ("BOOL", boolean)
    ∷ []

unfoldable pub parse_dtype : String → Result CheckpointError ScalarType
unfolding get
parse_dtype dtype = ok_or (get dtypes dtype) (unsupported_dtype dtype)

abbrev pub unwrap_or : Option ℕ → ℕ → ℕ
unwrap_or none d = d
unwrap_or (some n) d = n

module _ (tensor_info : Json → Option TensorInfo) (limits : InspectionLimits)
    (data_base size : ℕ) where
  -- one tensor of the header, of a file of `size` bytes
  unfoldable pub entry_of : String → Json → Result CheckpointError RawTensorEntry
  unfolding validate_key validate_shape parse_dtype size_bytes fold_mul
  entry_of key value = do
    validate_key limits key
    info ← ok_or (tensor_info value) (invalid_tensor_info key)
    validate_shape limits info.shape
    guard (leb info.start info.stop) (offsets_reversed key)
    ty ← parse_dtype info.dtype
    elem_size ← ok_or (size_bytes ty) (no_fixed_size key)
    numel ← ok_or (fold_mul 1 info.shape) numel_overflow
    expected_len ← ok_or (checked_mul numel elem_size) size_overflow
    guard (info.stop - info.start == expected_len) (length_mismatch key)
    abs_offset ← ok_or (checked_add data_base info.start) (offset_overflow key)
    guard (leb (unwrap_or (checked_add abs_offset (info.stop - info.start)) u64_max) size)
        (data_past_end key)
    ok (record {
      key = key;
      source_file_index = 0;
      shape = info.shape;
      storage_type = scalar ty;
      byte_ranges = record { offset = abs_offset; length = info.stop - info.start } ∷ [];
      alignment = 1;
      endianness = little;
      metadata = [];
    })

-- the variables of the loop
pub record Scan : Type 0 where
  pub metadata : List (String × Json)
  pub entries : List RawTensorEntry

unfoldable pub insert_all : List (String × Json) → List (String × Json) → List (String × Json)
insert_all m [] = m
insert_all m ((k, v) ∷ rest) = insert_all (insert m k v) rest

-- `if let Some(meta_obj) = value.as_object()`
abbrev pub insert_object :
    List (String × Json) → Option (List (String × Json)) → List (String × Json)
unfolding insert_all
insert_object m none = m
insert_object m (some fields) = insert_all m fields

unfoldable pub scan_field :
    (Json → Option TensorInfo)
    → InspectionLimits
    → ℕ
    → ℕ
    → Scan
    → String
    → Json
    → Result CheckpointError Scan
unfolding entry_of insert_object
scan_field tensor_info limits data_base size s key value =
    if str_eq key "__metadata__"
    then ok (record s { metadata = insert_object s.metadata (as_object value) })
    else (entry_of tensor_info limits data_base size key value >>= λ e.
        ok (record s { entries = s.entries ++ e ∷ [] }))

unfoldable pub scan :
    (Json → Option TensorInfo)
    → InspectionLimits
    → ℕ
    → ℕ
    → List (String × Json)
    → Scan
    → Result CheckpointError Scan
unfolding scan_field
scan tensor_info limits data_base size [] s = ok s
scan tensor_info limits data_base size ((key, value) ∷ rest) s = do
  s' ← scan_field tensor_info limits data_base size s key value
  scan tensor_info limits data_base size rest s'

-- the start, the end and the key of the first byte range
pub record Span : Type 0 where
  pub start : ℕ
  pub stop : ℕ
  pub key : String

unfoldable pub span_of : RawTensorEntry → ByteRange → Span
unfolding end
span_of e r = record { start = r.offset; stop = end r; key = e.key }

-- `filter_map` with `first()?`
abbrev pub cons_span : RawTensorEntry → Option ByteRange → List Span → List Span
cons_span e none rest = rest
cons_span e (some r) rest = span_of e r ∷ rest

unfoldable pub spans : List RawTensorEntry → List Span
spans [] = []
spans (e ∷ es) = cons_span e (first e.byte_ranges) (spans es)

abbrev pub start_leq : Span → Span → Bool
start_leq a b = leb a.start b.start

-- the loop over the windows of two
unfoldable pub check_overlaps : List Span → Result CheckpointError (Unit {0})
check_overlaps [] = ok tt
check_overlaps (a ∷ []) = ok tt
check_overlaps (a ∷ b ∷ rest) = do
  guard (leb a.stop b.start) (overlapping_ranges a.key b.key)
  check_overlaps (b ∷ rest)

unfoldable pub saturating_total : ℕ → List ByteRange → ℕ
saturating_total acc [] = acc
saturating_total acc (r ∷ rs) = saturating_total (saturating_add acc r.length) rs

unfoldable pub all_ranges : List RawTensorEntry → List ByteRange
all_ranges [] = []
all_ranges (e ∷ es) = e.byte_ranges ++ all_ranges es

-- `8 + header_len`, in 64 bits
abbrev pub data_base_of : ℕ → ℕ
data_base_of header_len = (8 + header_len) % 2 ^ 64

unfoldable pub index :
    (List ℕ → Option Json)
    → (Json → Option TensorInfo)
    → BytesSource
    → InspectionLimits
    → Result CheckpointError RawCheckpointIndex
unfolding read_range from_le_bytes scan sort spans check_overlaps saturating_total all_ranges
index parse_json tensor_info source limits = do
  prefix ← read_range source 0 8
  guard (not (from_le_bytes prefix == 0 || ltb limits.max_header_bytes (from_le_bytes prefix)))
      (invalid_header_length (from_le_bytes prefix))
  guard (leb (data_base_of (from_le_bytes prefix)) (source_len source)) header_past_end
  header ← read_range source 8 (from_le_bytes prefix)
  value ← ok_or (parse_json header) header_json_invalid
  obj ← ok_or (as_object value) header_not_object
  s ←
      scan tensor_info limits (data_base_of (from_le_bytes prefix)) (source_len source) obj
        (record { metadata = []; entries = [] })
  guard (leb (length s.entries) limits.max_tensor_count)
      (too_many_tensors (length s.entries) limits.max_tensor_count)
  check_overlaps (sort start_leq (spans s.entries))
  guard (leb (saturating_total 0 (all_ranges s.entries)) limits.max_total_declared_bytes)
      (too_many_bytes (saturating_total 0 (all_ranges s.entries)) limits.max_total_declared_bytes)
  ok (record {
    container = record { format_id = "safetensors"; version = some 1; magic = some "safetensors" };
    source_files = files_of source;
    metadata = s.metadata;
    entries = sort entry_leq s.entries;
    data_offset = data_base_of (from_le_bytes prefix);
  })
