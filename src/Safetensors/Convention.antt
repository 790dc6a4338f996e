-- ===== src/Safetensors/Convention.antt =====
-- The decoders of crates/dyninfer-checkpoint-safetensors/src: `DenseSafetensorsConvention` of convention.rs and
-- `MlxSafeTensorsConvention` of mlx.rs. What `load_hf_config_metadata` reads beside the first source file is an
-- argument, and so is serde_json's `as_u64`.
mod Tests
use Prim.Native.String.{◌++◌ as ◌<>◌}
use dyninfer.Prelude.{
  ℕ, ◌+◌, ◌*◌, ◌/◌, ◌%◌, ◌^◌, min, String, Bool, true, false, not, ◌&&◌, ◌||◌, ◌==◌, Option, none,
  some, List, [], ◌∷◌, ◌++◌, length, is_empty, any, filter, map, Result, ok, err, ◌>>=◌, ◌>>◌,
  guard, ok_or, str_eq, checked_mul, codes_eq, ltb, if◌then◌else◌,
}
use dyninfer.Prelude.Eq.{contains, string_eq}
use dyninfer.Prelude.Int.{negsuc}
use dyninfer.Prelude.Json.{Json, as_str_value}
use dyninfer.Prelude.Assoc.{get, or_insert}
use dyninfer.Prelude.Options.{and_then, map_some}
use dyninfer.Prelude.Decimal.{decimal}
use dyninfer.Prelude.Strings.{
  starts_with, ends_with, strip_suffix, contains_text, eq_ignore_ascii_case,
}
use dyninfer.Core.Scalar.{
  ScalarType, f32, f16, bf16, u32, scalar_beq, StorageElementType, scalar, little, row_major,
}
use dyninfer.Core.Types.{PhysicalEncoding, plain_of, group_quantized, absent, StorageComponent}
use dyninfer.Checkpoint.Catalog.{
  RawTensorEntry, RawCheckpointIndex, LogicalParameter, ParameterCatalog,
}
use dyninfer.Checkpoint.Role.{infer_role}
use dyninfer.Quantization.MlxAffine.{last, set_last, is_scalar}

pub data ConventionError : Type 0 where
  not_scalar unsupported_float : String → ConventionError
  unsupported_affine : ℕ → ℕ → ConventionError
  unpaired_component : String → ConventionError
  orphan_components : List String → ConventionError
  scalar_weight packed_not_u32 scale_types_differ not_expandable not_grouped wrong_group_shape :
      String → ConventionError
  shape_overflow : ConventionError
  missing_metadata : String → ConventionError

abbrev pub is_float : ScalarType → Bool
is_float f32 = true
is_float f16 = true
is_float bf16 = true
is_float _ = false

abbrev pub scalar_type : RawTensorEntry → Result ConventionError ScalarType
scalar_type e = elim e.storage_type [ scalar t ↦ ok t | _ ↦ err (not_scalar e.key) ]

abbrev pub component_of : String → RawTensorEntry → StorageComponent
component_of name e = record {
  name = name;
  key = e.key;
  source_file_index = e.source_file_index;
  shape = record { dims = e.shape };
  storage_type = e.storage_type;
  byte_ranges = e.byte_ranges;
  alignment = e.alignment;
  endianness = e.endianness;
}

abbrev pub plain_parameter : RawTensorEntry → ScalarType → StorageComponent → LogicalParameter
plain_parameter e t c = record {
  canonical_name = e.key;
  role = infer_role e.key;
  logical_type = record { shape = record { dims = e.shape }; element_type = t };
  encoding = plain_of t;
  components = c ∷ [];
  aliases = e.key ∷ [];
}

-- caches, which are no weights
abbrev pub is_cache : String → Bool
is_cache key = contains_text key "rotary_emb" || ends_with key ".inv_freq"

-- `metadata.entry(key).or_insert(value)` for each value
unfoldable pub merge_metadata : List (String × Json) → List (String × Json) → List (String × Json)
unfolding or_insert
merge_metadata metadata [] = metadata
merge_metadata metadata ((key, value) ∷ rest) = merge_metadata (or_insert metadata key value) rest

-- the loop of the dense decoder
unfoldable pub decode_dense : List RawTensorEntry → Result ConventionError (List LogicalParameter)
unfolding infer_role
decode_dense [] = ok []
decode_dense (e ∷ entries) = do
  t ← scalar_type e
  guard (is_float t) (unsupported_float e.key)
  rest ← decode_dense entries
  ok (
      if is_cache e.key
      then rest
      else plain_parameter e t (record (component_of "data" e) { endianness = little }) ∷ rest)

abbrev pub is_dense : RawTensorEntry → Bool
is_dense e = elim e.storage_type [ scalar t ↦ true | _ ↦ false ]

unfoldable pub dense_match_score : RawCheckpointIndex → ℕ
dense_match_score i =
    let dense_count = length (filter is_dense i.entries) in
    let preferred =
      any (λ e. starts_with e.key "model." || str_eq e.key "lm_head.weight") i.entries in
    if not (starts_with i.container.format_id "safetensors") || dense_count == 0
    then 0
    else 50 + min dense_count 40 + (if preferred then 20 else 0)

abbrev pub is_companion : RawTensorEntry → Bool
is_companion e = ends_with e.key ".scales" || ends_with e.key ".biases"

abbrev pub declares_mlx : Option String → Bool
declares_mlx none = false
declares_mlx (some format) = eq_ignore_ascii_case format "mlx"

unfoldable pub mlx_match_score : RawCheckpointIndex → ℕ
unfolding get
mlx_match_score i =
    if starts_with i.container.format_id "safetensors"
      && declares_mlx (and_then (get i.metadata "format") as_str_value)
      && any is_companion i.entries
    then 150
    else 0

unfoldable pub decode_affine_weight :
    RawTensorEntry
    → RawTensorEntry
    → RawTensorEntry
    → ℕ
    → ℕ
    → Result ConventionError LogicalParameter
unfolding last set_last infer_role decimal
decode_affine_weight weight scales biases bits group_size = do
  packed_last ← ok_or (last weight.shape) (scalar_weight weight.key)
  guard (is_scalar weight.storage_type u32) (packed_not_u32 weight.key)
  scale_type ← scalar_type scales
  bias_type ← scalar_type biases
  guard (scalar_beq scale_type bias_type && is_float scale_type) (scale_types_differ weight.key)
  logical_numerator ← ok_or (checked_mul packed_last 32) shape_overflow
  guard (logical_numerator % bits == 0) (not_expandable weight.key)
  guard (logical_numerator / bits % group_size == 0) (not_grouped weight.key)
  guard
      (codes_eq scales.shape (set_last weight.shape (logical_numerator / bits / group_size))
        && codes_eq biases.shape (set_last weight.shape (logical_numerator / bits / group_size)))
      (wrong_group_shape weight.key)
  ok (record {
    canonical_name = weight.key;
    role = infer_role weight.key;
    logical_type = record {
      shape = record { dims = set_last weight.shape (logical_numerator / bits) };
      element_type = scale_type;
    };
    encoding = group_quantized (record {
      logical_type = scale_type;
      storage_bits = bits % 2 ^ 8;
      storage_container = u32;
      signed = false;
      axis = negsuc 0;
      group_size = group_size;
      scale_type = scale_type;
      bias_type = some bias_type;
      zero_point = absent;
      packing = "mlx.affine.u" <> decimal bits;
      order = row_major;
      components = "packed" ∷ "scales" ∷ "biases" ∷ [];
    });
    components =
        component_of "packed" weight
        ∷ component_of "scales" scales
        ∷ component_of "biases" biases
        ∷ [];
    aliases = weight.key ∷ [];
  })

unfoldable pub decode_plain : RawTensorEntry → Result ConventionError LogicalParameter
unfolding infer_role
decode_plain e = do
  t ← scalar_type e
  guard (is_float t) (unsupported_float e.key)
  ok (plain_parameter e t (component_of "data" e))

-- the entry of a key: the last one, as the map of the entries overwrites
unfoldable pub entry_by_key : List RawTensorEntry → String → Option RawTensorEntry
entry_by_key [] key = none
entry_by_key (e ∷ entries) key = elim (entry_by_key entries key) [
  | some later ↦ some later
  | none ↦ if str_eq e.key key then some e else none
]

-- the match on the companions of a weight: the parameter and the keys that it consumes
abbrev pub decode_paired :
    ℕ
    → ℕ
    → RawTensorEntry
    → Option RawTensorEntry
    → Option RawTensorEntry
    → Result ConventionError (LogicalParameter × List String)
decode_paired bits group_size e (some scale) (some bias) = do
  p ← decode_affine_weight e scale bias bits group_size
  ok (p, scale.key ∷ bias.key ∷ [])
decode_paired bits group_size e none none = do p ← decode_plain e; ok (p, [])
decode_paired bits group_size e _ _ = err (unpaired_component e.key)

module _ (bits group_size : ℕ) (all_entries : List RawTensorEntry) where
  abbrev pub companion : RawTensorEntry → String → Option RawTensorEntry
  companion e suffix =
      and_then (strip_suffix e.key ".weight") (λ base. entry_by_key all_entries (base <> suffix))

  -- the loop over the entries: the parameters and the consumed keys
  unfoldable pub decode_mlx_entries :
      List RawTensorEntry → Result ConventionError (List LogicalParameter × List String)
  unfolding entry_by_key decode_affine_weight decode_plain strip_suffix
  decode_mlx_entries [] = ok ([], [])
  decode_mlx_entries (e ∷ entries) =
      let rest = decode_mlx_entries entries in
      if is_companion e || is_cache e.key
      then rest
      else decode_paired bits group_size e (companion e ".scales") (companion e ".biases")
        >>= λ (p, used). rest >>= λ (ps, consumed). ok (p ∷ ps, used ++ consumed)

unfoldable pub orphans : List String → List RawTensorEntry → List String
orphans consumed entries =
    map (λ e. e.key) (filter (λ e. is_companion e && not (contains consumed e.key)) entries)

abbrev pub check_orphans : List String → Result ConventionError (Unit {0})
check_orphans [] = ok tt
check_orphans (k ∷ ks) = err (orphan_components (k ∷ ks))

-- `u32::try_from(value).ok()`
abbrev pub to_u32 : ℕ → Option ℕ
to_u32 n = if ltb n (2 ^ 32) then some n else none

abbrev pub is_width : ℕ → Bool
is_width bits = bits == 2 || bits == 3 || bits == 4 || bits == 6 || bits == 8

module _ (as_u64 : Json → Option ℕ) (config : List (String × Json)) where
  unfoldable pub required_u32 : List (String × Json) → String → Result ConventionError ℕ
  unfolding get
  required_u32 metadata key =
      ok_or (and_then (and_then (get metadata key) as_u64) to_u32) (missing_metadata key)

  -- the metadata of the index with what is beside its first file
  abbrev pub metadata_of : RawCheckpointIndex → List (String × Json)
  metadata_of i = if is_empty i.source_files then i.metadata else merge_metadata i.metadata config

  unfoldable pub decode_dense_catalog : RawCheckpointIndex → Result ConventionError ParameterCatalog
  unfolding decode_dense merge_metadata
  decode_dense_catalog i = do
    parameters ← decode_dense i.entries
    ok (record {
      convention_id = "safetensors.dense";
      parameters = parameters;
      metadata = metadata_of i;
    })

  unfoldable pub decode_mlx_catalog : RawCheckpointIndex → Result ConventionError ParameterCatalog
  unfolding required_u32 decode_mlx_entries orphans merge_metadata
  decode_mlx_catalog i = required_u32 (metadata_of i) "mlx.quantization.bits" >>= λ bits.
      required_u32 (metadata_of i) "mlx.quantization.group_size" >>= λ group_size.
      guard (is_width bits && not (group_size == 0)) (unsupported_affine bits group_size)
      >> (decode_mlx_entries bits group_size i.entries i.entries >>= λ (parameters, consumed).
          check_orphans (orphans consumed i.entries)
          >> ok (record {
            convention_id = "safetensors.mlx.mixed";
            parameters = parameters;
            metadata = metadata_of i;
          }))
