-- ===== src/Quantization/Registry.antt =====
-- `QuantizationRegistry` and `register_all` of crates/dyninfer-quantization/src/lib.rs, with the tables of
-- definitions of gguf_block.rs and mlx_affine.rs.
use dyninfer.Prelude.{
  ℕ, String, Option, List, [], ◌∷◌, ◌++◌, Result, ok, err, ◌>>=◌, any, find, map, if◌then◌else◌,
}
use dyninfer.Prelude.Eq.{eq}
use dyninfer.Core.Scalar.{f32, f16, bf16}
use dyninfer.Core.Types.{PhysicalEncoding}
use dyninfer.Kernel.{encoding_eq, KernelCandidateDescriptor}
use dyninfer.Kernel.Registry.{KernelError, KernelRegistry, register as register_candidate}
use dyninfer.Quantization.{QuantizationError, duplicate_definition, QuantizationDefinition}
use dyninfer.Quantization.Plain.{plain_definition}
use dyninfer.Quantization.Codegen.{q40, q41, q80, q6k, block_candidates}
use dyninfer.Quantization.GgufBlock.{
  GgufBlockDefinition, block_definition, matches_q4_0, validate_q4_0,
}
use dyninfer.Quantization.MlxAffine.{mlx_definition}

pub record QuantizationRegistry : Type 0 where
  pub definitions : List QuantizationDefinition

abbrev pub new_registry : QuantizationRegistry
new_registry = record { definitions = [] }

unfoldable pub register_definition :
    QuantizationRegistry → QuantizationDefinition → Result QuantizationError QuantizationRegistry
register_definition r d =
    if any (λ existing. eq existing.descriptor.key d.descriptor.key) r.definitions
    then err (duplicate_definition d.descriptor.key)
    else ok (record { definitions = r.definitions ++ d ∷ [] })

unfoldable pub register_definitions :
    QuantizationRegistry
    → List QuantizationDefinition
    → Result QuantizationError QuantizationRegistry
unfolding register_definition
register_definitions r [] = ok r
register_definitions r (d ∷ ds) = do next ← register_definition r d; register_definitions next ds

unfoldable pub resolve : QuantizationRegistry → PhysicalEncoding → Option QuantizationDefinition
resolve r e = find (λ d. d.matches e) r.definitions

-- the inner and the outer loop of `register_kernel_candidates`
unfoldable pub register_candidates :
    KernelRegistry → List KernelCandidateDescriptor → Result KernelError KernelRegistry
unfolding register_candidate
register_candidates kernels [] = ok kernels
register_candidates kernels (c ∷ cs) = do
  next ← register_candidate kernels c
  register_candidates next cs

unfoldable pub register_all_candidates :
    KernelRegistry → List QuantizationDefinition → Result KernelError KernelRegistry
unfolding register_candidates
register_all_candidates kernels [] = ok kernels
register_all_candidates kernels (d ∷ ds) = do
  next ← register_candidates kernels d.kernel_candidates
  register_all_candidates next ds

abbrev pub register_kernel_candidates :
    QuantizationRegistry → KernelRegistry → Result KernelError KernelRegistry
register_kernel_candidates r kernels = register_all_candidates kernels r.definitions

abbrev pub block : String → ℕ → ℕ → ℕ → List String → GgufBlockDefinition
block name type_code block_size bytes_per_block layout_components = record {
  name = name;
  type_code = type_code;
  block_size = block_size;
  bytes_per_block = bytes_per_block;
  layout_components = layout_components;
}

abbrev pub q4_1_schema : GgufBlockDefinition
q4_1_schema = block "q4_1" 3 32 20 ("scale_f16" ∷ "minimum_f16" ∷ "quants_u4" ∷ [])

abbrev pub q6_k_schema : GgufBlockDefinition
q6_k_schema =
    block "q6_k" 14 256 210 ("quants_low_u4" ∷ "quants_high_u2" ∷ "scales_i8" ∷ "scale_f16" ∷ [])

abbrev pub q8_0_schema : GgufBlockDefinition
q8_0_schema = block "q8_0" 8 32 34 ("scale_f16" ∷ "quants_i8" ∷ [])

abbrev pub q4_0_definition : QuantizationDefinition
q4_0_definition = record {
  descriptor = record {
    key = record { id = "gguf.q4_0"; version = 1 };
    external_tags = record { family = "gguf.ggml_type"; value = "2" } ∷ [];
  };
  matches = matches_q4_0;
  validate = validate_q4_0;
  kernel_candidates = block_candidates q40 "gguf.q4_0";
}

abbrev pub schema_only_definitions : List GgufBlockDefinition
schema_only_definitions =
    block "q5_0" 6 32 22 ("scale_f16" ∷ "high_bits" ∷ "quants_u4" ∷ [])
    ∷ block "q5_1" 7 32 24 ("scale_f16" ∷ "minimum_f16" ∷ "high_bits" ∷ "quants_u4" ∷ [])
    ∷ block "q8_1" 9 32 36 ("scale_f16" ∷ "sum_f16" ∷ "quants_i8" ∷ [])
    ∷ block "q2_k" 10 256 84 ("scales_and_mins_u4" ∷ "quants_u2" ∷ "scale_min_f16" ∷ [])
    ∷ block "q3_k" 11 256 110 ("high_bits" ∷ "quants_u2" ∷ "scales_u6" ∷ "scale_f16" ∷ [])
    ∷ block "q4_k" 12 256 144 ("scale_min_f16" ∷ "scales_and_mins_u6" ∷ "quants_u4" ∷ [])
    ∷ block "q5_k" 13 256 176
        ("scale_min_f16" ∷ "scales_and_mins_u6" ∷ "high_bits" ∷ "quants_u4" ∷ [])
    ∷ block "q8_k" 15 256 292 ("scale_f32" ∷ "quants_i8" ∷ "block_sums_i16" ∷ [])
    ∷ block "iq2_xxs" 16 256 66 ("scale_f16" ∷ "grid_indices_and_signs_u16" ∷ [])
    ∷ block "iq2_xs" 17 256 74 ("scale_f16" ∷ "grid_indices_and_signs_u16" ∷ "scales_u8" ∷ [])
    ∷ block "iq3_xxs" 18 256 98 ("scale_f16" ∷ "grid_indices_and_signs_u8" ∷ [])
    ∷ block "iq1_s" 19 256 50 ("scale_f16" ∷ "grid_indices_u8" ∷ "high_bits_and_delta_u16" ∷ [])
    ∷ block "iq4_nl" 20 32 18 ("scale_f16" ∷ "nonlinear_quants_u4" ∷ [])
    ∷ block "iq3_s" 21 256 110 (
        "scale_f16" ∷ "grid_indices_low_u8" ∷ "grid_indices_high_u8" ∷ "signs_u8" ∷ "scales_u8"
        ∷ [])
    ∷ block "iq2_s" 22 256 82
        ("scale_f16" ∷ "grid_indices_low_u8" ∷ "grid_indices_high_u8" ∷ "scales_u8" ∷ [])
    ∷ block "iq4_xs" 23 256 136
        ("scale_f16" ∷ "scales_high_u16" ∷ "scales_low_u8" ∷ "nonlinear_quants_u4" ∷ [])
    ∷ block "iq1_m" 29 256 56 ("grid_indices_u8" ∷ "high_bits_and_delta_u8" ∷ "scales_u8" ∷ [])
    ∷ block "tq1_0" 34 256 54 ("scale_f16" ∷ "block_scales_u8" ∷ "ternary_quants_base3" ∷ [])
    ∷ block "tq2_0" 35 256 66 ("scale_f16" ∷ "ternary_quants_u2" ∷ [])
    ∷ block "mxfp4" 39 32 17 ("e8m0_scale_u8" ∷ "mxfp4_quants_u4" ∷ [])
    ∷ []

abbrev pub mlx_bits : List ℕ
mlx_bits = 2 ∷ 3 ∷ 4 ∷ 6 ∷ 8 ∷ []

-- what `register_all` registers, in its order
unfoldable pub builtin_definitions : List QuantizationDefinition
unfolding block_definition
builtin_definitions =
    plain_definition f32
      ∷ plain_definition f16
      ∷ plain_definition bf16
      ∷ q4_0_definition
      ∷ block_definition q4_1_schema (block_candidates q41 "gguf.q4_1")
      ∷ block_definition q6_k_schema (block_candidates q6k "gguf.q6_k")
      ∷ block_definition q8_0_schema (block_candidates q80 "gguf.q8_0")
      ∷ map (λ d. block_definition d []) schema_only_definitions
    ++ map mlx_definition mlx_bits

unfoldable pub register_all : QuantizationRegistry → Result QuantizationError QuantizationRegistry
unfolding register_definitions builtin_definitions
register_all r = register_definitions r builtin_definitions

abbrev pub builtin_registry : QuantizationRegistry
builtin_registry = record { definitions = builtin_definitions }
