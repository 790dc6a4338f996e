-- ===== src/Safetensors/Convention/Tests.antt =====
-- Runs of the decoders on small entries, the MLX ones against the definition that takes their encoding.
use dyninfer.Prelude.{ℕ, ◌≡◌, refl, String, Bool, true, false, List, [], ◌∷◌, Result, ok, err}
use dyninfer.Core.Scalar.{f16, u32, scalar, little, scalar_index, StorageElementType}
use dyninfer.Checkpoint.Catalog.{RawTensorEntry, LogicalParameter}
use dyninfer.Quantization.MlxAffine.{validate_group}
use dyninfer.Safetensors.Convention.{
  ConventionError, unpaired_component, decode_affine_weight, decode_mlx_entries,
}

abbrev entry : String → StorageElementType → List ℕ → ℕ → RawTensorEntry
entry key t shape bytes = record {
  key = key;
  source_file_index = 0;
  shape = shape;
  storage_type = t;
  byte_ranges = record { offset = 0; length = bytes } ∷ [];
  alignment = 4;
  endianness = little;
  metadata = [];
}

abbrev weight : RawTensorEntry
weight = entry "w.weight" (scalar u32) (2 ∷ 8 ∷ []) 64

abbrev scales : RawTensorEntry
scales = entry "w.scales" (scalar f16) (2 ∷ 2 ∷ []) 8

abbrev biases : RawTensorEntry
biases = entry "w.biases" (scalar f16) (2 ∷ 2 ∷ []) 8

abbrev accepts : Result ConventionError LogicalParameter → Bool
accepts (ok p) = elim (validate_group 4 p) [ ok u ↦ true | err e ↦ false ]
accepts (err e) = false

-- the parameter that is decoded is one that the definition accepts
decoded_is_valid : accepts (decode_affine_weight weight scales biases 4 32) ≡ true
unfolding decode_affine_weight validate_group scalar_index
decoded_is_valid = refl

-- a weight with scales and no biases is refused
unpaired :
    decode_mlx_entries 4 32 (weight ∷ scales ∷ []) (weight ∷ [])
    ≡ err (unpaired_component "w.weight")
unfolding decode_mlx_entries scalar_index
unpaired = refl
