-- ===== src/Gguf/Convention/Known.antt =====
-- Every block type of GGUF but q4_0, whose definition is its own, has a definition in the registry of
-- crates/dyninfer-quantization that takes the encoding made by crates/dyninfer-checkpoint-gguf/src/convention.rs.
use dyninfer.Prelude.{◌≡◌, refl, Bool, true, false, some, List, [], ◌∷◌, ok}
use dyninfer.Core.Scalar.{ScalarType, opaque, scalar_index}
use dyninfer.Core.Types.{block_quantized, BlockQuantized}
use dyninfer.Kernel.{KernelCandidateDescriptor}
use dyninfer.Gguf.Types.{
  GgufType, block_size, type_size, storage_element_type, f32, f16, q4_0, q4_1, q5_0, q5_1, q8_0,
  q8_1, q2_k, q3_k, q4_k, q5_k, q6_k, q8_k, iq2_xxs, iq2_xs, iq3_xxs, iq1_s, iq4_nl, iq3_s, iq2_s,
  iq4_xs, i8, i16, i32, i64, f64, iq1_m, bf16, tq1_0, tq2_0, mxfp4,
}
use dyninfer.Gguf.Convention.{physical_encoding}
use dyninfer.Quantization.Codegen.{q41, q80, q6k, block_candidates}
use dyninfer.Quantization.GgufBlock.{
  GgufBlockDefinition, block_definition, block_codec, valid_descriptor, matches_q4_0,
  q4_0_descriptor,
}
use dyninfer.Quantization.Registry.{
  resolve, builtin_registry, builtin_definitions, q4_0_definition, block, q4_1_schema, q6_k_schema,
  q8_0_schema,
}

abbrev pub is_schema : GgufType → Bool
is_schema f32 = false
is_schema f16 = false
is_schema bf16 = false
is_schema i8 = false
is_schema i16 = false
is_schema i32 = false
is_schema i64 = false
is_schema f64 = false
is_schema q4_0 = false
is_schema _ = true

pub block_type-Known :
    (t : GgufType)
    → is_schema t ≡ true
    → (d : GgufBlockDefinition) × (cs : List KernelCandidateDescriptor) × (b : BlockQuantized)
      × (physical_encoding t ≡ ok (block_quantized b, ScalarType.f16))
      × (resolve builtin_registry (block_quantized b) ≡ some (block_definition d cs))
      × (valid_descriptor d b ≡ true)
      × (storage_element_type t ≡ opaque (block_codec d))
      × (block_size t ≡ some d.block_size)
      × (type_size t ≡ some d.bytes_per_block)
unfolding physical_encoding resolve builtin_definitions valid_descriptor storage_element_type
    scalar_index block_definition
block_type-Known q4_1 h =
    (q4_1_schema, (block_candidates q41 "gguf.q4_1"), _, refl, refl, refl, refl, refl, refl)
block_type-Known q6_k h =
    (q6_k_schema, (block_candidates q6k "gguf.q6_k"), _, refl, refl, refl, refl, refl, refl)
block_type-Known q8_0 h =
    (q8_0_schema, (block_candidates q80 "gguf.q8_0"), _, refl, refl, refl, refl, refl, refl)
block_type-Known q5_0 h = (
  block "q5_0" 6 32 22 ("scale_f16" ∷ "high_bits" ∷ "quants_u4" ∷ []),
  [],
  _,
  refl,
  refl,
  refl,
  refl,
  refl,
  refl,
)
block_type-Known q5_1 h = (
  block "q5_1" 7 32 24 ("scale_f16" ∷ "minimum_f16" ∷ "high_bits" ∷ "quants_u4" ∷ []),
  [],
  _,
  refl,
  refl,
  refl,
  refl,
  refl,
  refl,
)
block_type-Known q8_1 h = (
  block "q8_1" 9 32 36 ("scale_f16" ∷ "sum_f16" ∷ "quants_i8" ∷ []),
  [],
  _,
  refl,
  refl,
  refl,
  refl,
  refl,
  refl,
)
block_type-Known q2_k h = (
  block "q2_k" 10 256 84 ("scales_and_mins_u4" ∷ "quants_u2" ∷ "scale_min_f16" ∷ []),
  [],
  _,
  refl,
  refl,
  refl,
  refl,
  refl,
  refl,
)
block_type-Known q3_k h = (
  block "q3_k" 11 256 110 ("high_bits" ∷ "quants_u2" ∷ "scales_u6" ∷ "scale_f16" ∷ []),
  [],
  _,
  refl,
  refl,
  refl,
  refl,
  refl,
  refl,
)
block_type-Known q4_k h = (
  block "q4_k" 12 256 144 ("scale_min_f16" ∷ "scales_and_mins_u6" ∷ "quants_u4" ∷ []),
  [],
  _,
  refl,
  refl,
  refl,
  refl,
  refl,
  refl,
)
block_type-Known q5_k h = (
  block "q5_k" 13 256 176 ("scale_min_f16" ∷ "scales_and_mins_u6" ∷ "high_bits" ∷ "quants_u4" ∷ []),
  [],
  _,
  refl,
  refl,
  refl,
  refl,
  refl,
  refl,
)
block_type-Known q8_k h = (
  block "q8_k" 15 256 292 ("scale_f32" ∷ "quants_i8" ∷ "block_sums_i16" ∷ []),
  [],
  _,
  refl,
  refl,
  refl,
  refl,
  refl,
  refl,
)
block_type-Known iq2_xxs h = (
  block "iq2_xxs" 16 256 66 ("scale_f16" ∷ "grid_indices_and_signs_u16" ∷ []),
  [],
  _,
  refl,
  refl,
  refl,
  refl,
  refl,
  refl,
)
block_type-Known iq2_xs h = (
  block "iq2_xs" 17 256 74 ("scale_f16" ∷ "grid_indices_and_signs_u16" ∷ "scales_u8" ∷ []),
  [],
  _,
  refl,
  refl,
  refl,
  refl,
  refl,
  refl,
)
block_type-Known iq3_xxs h = (
  block "iq3_xxs" 18 256 98 ("scale_f16" ∷ "grid_indices_and_signs_u8" ∷ []),
  [],
  _,
  refl,
  refl,
  refl,
  refl,
  refl,
  refl,
)
block_type-Known iq1_s h = (
  block "iq1_s" 19 256 50 ("scale_f16" ∷ "grid_indices_u8" ∷ "high_bits_and_delta_u16" ∷ []),
  [],
  _,
  refl,
  refl,
  refl,
  refl,
  refl,
  refl,
)
block_type-Known iq4_nl h = (
  block "iq4_nl" 20 32 18 ("scale_f16" ∷ "nonlinear_quants_u4" ∷ []),
  [],
  _,
  refl,
  refl,
  refl,
  refl,
  refl,
  refl,
)
block_type-Known iq3_s h = (
  block "iq3_s" 21 256 110 (
      "scale_f16" ∷ "grid_indices_low_u8" ∷ "grid_indices_high_u8" ∷ "signs_u8" ∷ "scales_u8" ∷ []),
  [],
  _,
  refl,
  refl,
  refl,
  refl,
  refl,
  refl,
)
block_type-Known iq2_s h = (
  block "iq2_s" 22 256 82
      ("scale_f16" ∷ "grid_indices_low_u8" ∷ "grid_indices_high_u8" ∷ "scales_u8" ∷ []),
  [],
  _,
  refl,
  refl,
  refl,
  refl,
  refl,
  refl,
)
block_type-Known iq4_xs h = (
  block "iq4_xs" 23 256 136
      ("scale_f16" ∷ "scales_high_u16" ∷ "scales_low_u8" ∷ "nonlinear_quants_u4" ∷ []),
  [],
  _,
  refl,
  refl,
  refl,
  refl,
  refl,
  refl,
)
block_type-Known iq1_m h = (
  block "iq1_m" 29 256 56 ("grid_indices_u8" ∷ "high_bits_and_delta_u8" ∷ "scales_u8" ∷ []),
  [],
  _,
  refl,
  refl,
  refl,
  refl,
  refl,
  refl,
)
block_type-Known tq1_0 h = (
  block "tq1_0" 34 256 54 ("scale_f16" ∷ "block_scales_u8" ∷ "ternary_quants_base3" ∷ []),
  [],
  _,
  refl,
  refl,
  refl,
  refl,
  refl,
  refl,
)
block_type-Known tq2_0 h = (
  block "tq2_0" 35 256 66 ("scale_f16" ∷ "ternary_quants_u2" ∷ []),
  [],
  _,
  refl,
  refl,
  refl,
  refl,
  refl,
  refl,
)
block_type-Known mxfp4 h = (
  block "mxfp4" 39 32 17 ("e8m0_scale_u8" ∷ "mxfp4_quants_u4" ∷ []),
  [],
  _,
  refl,
  refl,
  refl,
  refl,
  refl,
  refl,
)
block_type-Known f32 h = absurd (cc)
block_type-Known f16 h = absurd (cc)
block_type-Known bf16 h = absurd (cc)
block_type-Known i8 h = absurd (cc)
block_type-Known i16 h = absurd (cc)
block_type-Known i32 h = absurd (cc)
block_type-Known i64 h = absurd (cc)
block_type-Known f64 h = absurd (cc)
block_type-Known q4_0 h = absurd (cc)

pub q4_0_type-Known :
    (b : BlockQuantized) × (physical_encoding q4_0 ≡ ok (block_quantized b, ScalarType.f16))
    × (resolve builtin_registry (block_quantized b) ≡ some q4_0_definition)
    × (matches_q4_0 (block_quantized b) ≡ true)
    × (q4_0_descriptor b ≡ true)
unfolding physical_encoding resolve builtin_definitions q4_0_descriptor scalar_index
q4_0_type-Known = (_, refl, refl, refl, refl)
