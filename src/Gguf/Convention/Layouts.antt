-- ===== src/Gguf/Convention/Layouts.antt =====
-- The tables of crates/dyninfer-checkpoint-gguf/src/convention.rs: the components of a block of each type.
use Prim.Native.String.{◌++◌ as ◌<>◌}
use dyninfer.Prelude.{ℕ, String, Option, none, some, List, [], ◌∷◌, if◌then◌else◌}
use dyninfer.Prelude.Strings.{ends_with}
use dyninfer.Core.Scalar.{ScalarType, StorageElementType, scalar, opaque}
use dyninfer.Gguf.Types.{GgufType}
use dyninfer.Gguf.Types.{
  f32, f16, q4_0, q4_1, q5_0, q5_1, q8_0, q8_1, q2_k, q3_k, q4_k, q5_k, q6_k, q8_k, iq2_xxs, iq2_xs,
  iq3_xxs, iq1_s, iq4_nl, iq3_s, iq2_s, iq4_xs, i8, i16, i32, i64, f64, iq1_m, bf16, tq1_0, tq2_0,
  mxfp4,
}

-- the scalar of a plain type
unfoldable pub scalar_of : GgufType → Option ScalarType
scalar_of f32 = some ScalarType.f32
scalar_of f16 = some ScalarType.f16
scalar_of bf16 = some ScalarType.bf16
scalar_of f64 = some ScalarType.f64
scalar_of i8 = some ScalarType.i8
scalar_of i16 = some ScalarType.i16
scalar_of i32 = some ScalarType.i32
scalar_of i64 = some ScalarType.i64
scalar_of _ = none

unfoldable pub layout_components : GgufType → List String
layout_components q4_0 = "scale_f16" ∷ "quants_u4" ∷ []
layout_components q4_1 = "scale_f16" ∷ "minimum_f16" ∷ "quants_u4" ∷ []
layout_components q5_0 = "scale_f16" ∷ "high_bits" ∷ "quants_u4" ∷ []
layout_components q5_1 = "scale_f16" ∷ "minimum_f16" ∷ "high_bits" ∷ "quants_u4" ∷ []
layout_components q8_0 = "scale_f16" ∷ "quants_i8" ∷ []
layout_components q8_1 = "scale_f16" ∷ "sum_f16" ∷ "quants_i8" ∷ []
layout_components q2_k = "scales_and_mins_u4" ∷ "quants_u2" ∷ "scale_min_f16" ∷ []
layout_components q3_k = "high_bits" ∷ "quants_u2" ∷ "scales_u6" ∷ "scale_f16" ∷ []
layout_components q4_k = "scale_min_f16" ∷ "scales_and_mins_u6" ∷ "quants_u4" ∷ []
layout_components q5_k = "scale_min_f16" ∷ "scales_and_mins_u6" ∷ "high_bits" ∷ "quants_u4" ∷ []
layout_components q6_k = "quants_low_u4" ∷ "quants_high_u2" ∷ "scales_i8" ∷ "scale_f16" ∷ []
layout_components q8_k = "scale_f32" ∷ "quants_i8" ∷ "block_sums_i16" ∷ []
layout_components iq2_xxs = "scale_f16" ∷ "grid_indices_and_signs_u16" ∷ []
layout_components iq2_xs = "scale_f16" ∷ "grid_indices_and_signs_u16" ∷ "scales_u8" ∷ []
layout_components iq3_xxs = "scale_f16" ∷ "grid_indices_and_signs_u8" ∷ []
layout_components iq1_s = "scale_f16" ∷ "grid_indices_u8" ∷ "high_bits_and_delta_u16" ∷ []
layout_components iq4_nl = "scale_f16" ∷ "nonlinear_quants_u4" ∷ []
layout_components iq3_s =
    "scale_f16" ∷ "grid_indices_low_u8" ∷ "grid_indices_high_u8" ∷ "signs_u8" ∷ "scales_u8" ∷ []
layout_components iq2_s =
    "scale_f16" ∷ "grid_indices_low_u8" ∷ "grid_indices_high_u8" ∷ "scales_u8" ∷ []
layout_components iq4_xs =
    "scale_f16" ∷ "scales_high_u16" ∷ "scales_low_u8" ∷ "nonlinear_quants_u4" ∷ []
layout_components iq1_m = "grid_indices_u8" ∷ "high_bits_and_delta_u8" ∷ "scales_u8" ∷ []
layout_components tq1_0 = "scale_f16" ∷ "block_scales_u8" ∷ "ternary_quants_base3" ∷ []
layout_components tq2_0 = "scale_f16" ∷ "ternary_quants_u2" ∷ []
layout_components mxfp4 = "e8m0_scale_u8" ∷ "mxfp4_quants_u4" ∷ []
layout_components _ = []

unfoldable pub layout_byte_lengths : GgufType → List ℕ
layout_byte_lengths q4_0 = 2 ∷ 16 ∷ []
layout_byte_lengths q4_1 = 2 ∷ 2 ∷ 16 ∷ []
layout_byte_lengths q5_0 = 2 ∷ 4 ∷ 16 ∷ []
layout_byte_lengths q5_1 = 2 ∷ 2 ∷ 4 ∷ 16 ∷ []
layout_byte_lengths q8_0 = 2 ∷ 32 ∷ []
layout_byte_lengths q8_1 = 2 ∷ 2 ∷ 32 ∷ []
layout_byte_lengths q2_k = 16 ∷ 64 ∷ 4 ∷ []
layout_byte_lengths q3_k = 32 ∷ 64 ∷ 12 ∷ 2 ∷ []
layout_byte_lengths q4_k = 4 ∷ 12 ∷ 128 ∷ []
layout_byte_lengths q5_k = 4 ∷ 12 ∷ 32 ∷ 128 ∷ []
layout_byte_lengths q6_k = 128 ∷ 64 ∷ 16 ∷ 2 ∷ []
layout_byte_lengths q8_k = 4 ∷ 256 ∷ 32 ∷ []
layout_byte_lengths iq2_xxs = 2 ∷ 64 ∷ []
layout_byte_lengths iq2_xs = 2 ∷ 64 ∷ 8 ∷ []
layout_byte_lengths iq3_xxs = 2 ∷ 96 ∷ []
layout_byte_lengths iq1_s = 2 ∷ 32 ∷ 16 ∷ []
layout_byte_lengths iq4_nl = 2 ∷ 16 ∷ []
layout_byte_lengths iq3_s = 2 ∷ 64 ∷ 8 ∷ 32 ∷ 4 ∷ []
layout_byte_lengths iq2_s = 2 ∷ 64 ∷ 8 ∷ 8 ∷ []
layout_byte_lengths iq4_xs = 2 ∷ 2 ∷ 4 ∷ 128 ∷ []
layout_byte_lengths iq1_m = 32 ∷ 16 ∷ 8 ∷ []
layout_byte_lengths tq1_0 = 2 ∷ 4 ∷ 48 ∷ []
layout_byte_lengths tq2_0 = 2 ∷ 64 ∷ []
layout_byte_lengths mxfp4 = 1 ∷ 16 ∷ []
layout_byte_lengths _ = []

unfoldable pub layout_storage_type : String → StorageElementType
layout_storage_type n =
    if ends_with n "f16"
    then scalar ScalarType.f16
    else if ends_with n "f32"
    then scalar ScalarType.f32
    else if ends_with n "i8"
    then scalar ScalarType.i8
    else if ends_with n "i16"
    then scalar ScalarType.i16
    else if ends_with n "u8"
    then scalar ScalarType.u8
    else if ends_with n "u16"
    then scalar ScalarType.u16
    else opaque ("packed." <> n)
