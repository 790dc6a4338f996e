-- ===== src/Quantization/MlxAffine.antt =====
-- `MlxAffineDefinition` of crates/dyninfer-quantization/src/quantizations/mlx_affine.rs.
use Prim.Native.String.{◌++◌ as ◌<>◌}
use dyninfer.Prelude.{
  ℕ, String, Bool, true, false, not, ◌&&◌, ◌==◌, ◌/◌, ◌%◌, Option, none, some, List, [], ◌∷◌, ◌++◌,
  length, Result, ok, err, ◌>>=◌, ◌>>◌, guard, ok_or, checked_mul, str_eq, codes_eq, if◌then◌else◌,
}
use dyninfer.Prelude.Eq.{eq, option_eq}
use dyninfer.Prelude.Int.{ℤ, pos, negsuc}
use dyninfer.Prelude.Decimal.{decimal}
use dyninfer.Prelude.Options.{and_then}
use dyninfer.Core.Scalar.{
  ScalarType, f32, u32, scalar_beq, scalar_eq, size_bytes, row_major, StorageElementType, scalar,
}
use dyninfer.Core.Shape.{numel}
use dyninfer.Core.Ir.{prefill, decode}
use dyninfer.Core.Types.{
  PhysicalEncoding, group_quantized, GroupQuantized, ZeroPointMode, absent, StorageComponent,
}
use dyninfer.Checkpoint.Catalog.{LogicalParameter}
use dyninfer.Kernel.{
  EncodingKey, KernelCandidateDescriptor, KernelOperationKind, embedding, linear, output_projection,
  TargetConstraint, native, production,
}
use dyninfer.Quantization.{
  QuantizationError, unsupported, size_overflow, QuantizationDefinition, fold_lengths, order_beq,
  texts_eq,
}

abbrev pub mlx_id : ℕ → String
mlx_id bits = "mlx.affine.u" <> decimal bits

abbrev pub matches_group : ℕ → PhysicalEncoding → Bool
matches_group bits (group_quantized g) = g.storage_bits == bits && str_eq g.packing (mlx_id bits)
matches_group bits _ = false

abbrev pub is_absent : ZeroPointMode → Bool
is_absent absent = true
is_absent _ = false

-- `axis == -1`
abbrev pub is_last_axis : ℤ → Bool
is_last_axis (pos n) = false
is_last_axis (negsuc n) = n == 0

unfoldable pub valid_group : ℕ → GroupQuantized → Bool
unfolding texts_eq decimal
valid_group bits g =
    matches_group bits (group_quantized g)
    && scalar_beq g.logical_type g.scale_type
    && scalar_beq g.storage_container u32
    && not g.signed
    && is_last_axis g.axis
    && not (g.group_size == 0)
    && eq g.bias_type (some g.scale_type)
    && is_absent g.zero_point
    && order_beq g.order row_major
    && texts_eq g.components ("packed" ∷ "scales" ∷ "biases" ∷ [])

-- equality with `StorageElementType::scalar(t)`
abbrev pub is_scalar : StorageElementType → ScalarType → Bool
is_scalar (scalar s) t = scalar_beq s t
is_scalar _ t = false

abbrev pub scalar_size : StorageElementType → Option ℕ
scalar_size (scalar t) = size_bytes t
scalar_size _ = none

-- one turn of the loop over the components: the stored bytes
unfoldable pub validate_component : String → StorageComponent → Result QuantizationError (Unit {0})
unfolding numel fold_lengths size_bytes
validate_component key c = do
  element_bytes ←
      ok_or (scalar_size c.storage_type) (unsupported key "component has unsized storage type")
  expected ←
      ok_or (and_then (numel c.shape) (λ n. checked_mul n element_bytes))
        (size_overflow "MLX component byte size overflow")
  actual ← ok_or (fold_lengths 0 c.byte_ranges) (size_overflow "MLX byte range size overflow")
  guard (actual == expected) (unsupported key "MLX component byte length is invalid")
  ok tt

-- `*dims.last().unwrap()` and `*dims.last_mut().unwrap() = value`
unfoldable pub last : List ℕ → Option ℕ
last [] = none
last (d ∷ []) = some d
last (d ∷ e ∷ ds) = last (e ∷ ds)

unfoldable pub set_last : List ℕ → ℕ → List ℕ
set_last [] value = []
set_last (d ∷ []) value = value ∷ []
set_last (d ∷ e ∷ ds) value = d ∷ set_last (e ∷ ds) value

-- the checks of the three components' shapes
unfoldable pub validate_shapes :
    ℕ
    → ℕ
    → String
    → List ℕ
    → StorageComponent
    → StorageComponent
    → StorageComponent
    → Result QuantizationError (Unit {0})
unfolding last set_last
validate_shapes bits group_size key dims packed scales biases = do
  guard (length packed.shape.dims == length dims)
      (unsupported key "MLX affine logical/packed ranks differ")
  logical_last ← ok_or (last dims) (unsupported key "MLX affine logical/packed ranks differ")
  packed_numerator ←
      ok_or (checked_mul logical_last bits) (size_overflow "MLX packed shape overflow")
  guard (packed_numerator % 32 == 0)
      (unsupported key "MLX logical axis cannot be packed into complete u32 words")
  guard (logical_last % group_size == 0) (unsupported key "MLX logical axis is not group divisible")
  guard
      (codes_eq packed.shape.dims (set_last dims (packed_numerator / 32))
        && codes_eq scales.shape.dims (set_last dims (logical_last / group_size))
        && codes_eq biases.shape.dims (set_last dims (logical_last / group_size)))
      (unsupported key "MLX affine component shapes are invalid")
  ok tt

unfoldable pub validate_components :
    ℕ
    → GroupQuantized
    → LogicalParameter
    → List StorageComponent
    → Result QuantizationError (Unit {0})
unfolding validate_component validate_shapes
validate_components bits g p (packed ∷ scales ∷ biases ∷ []) = do
  guard (str_eq packed.name "packed" && str_eq scales.name "scales" && str_eq biases.name "biases")
      (unsupported p.canonical_name "MLX affine component names are invalid")
  guard
      (is_scalar packed.storage_type u32
        && is_scalar scales.storage_type g.scale_type
        && is_scalar biases.storage_type g.scale_type)
      (unsupported p.canonical_name "MLX affine component dtypes are invalid")
  validate_shapes bits g.group_size p.canonical_name p.logical_type.shape.dims packed scales biases
  validate_component p.canonical_name packed
  validate_component p.canonical_name scales
  validate_component p.canonical_name biases
validate_components bits g p _ =
    err
      (unsupported p.canonical_name "MLX affine parameter requires packed/scales/biases components")

abbrev pub validate_group_of :
    ℕ → LogicalParameter → PhysicalEncoding → Result QuantizationError (Unit {0})
validate_group_of bits p (group_quantized g) = do
  guard (valid_group bits g) (unsupported p.canonical_name "invalid MLX affine encoding descriptor")
  validate_components bits g p p.components
validate_group_of bits p _ = err (unsupported p.canonical_name "expected group-quantized encoding")

unfoldable pub validate_group : ℕ → LogicalParameter → Result QuantizationError (Unit {0})
unfolding valid_group validate_components
validate_group bits p = validate_group_of bits p p.encoding

abbrev pub mlx_key : ℕ → EncodingKey
mlx_key bits = record { id = mlx_id bits; version = 1 }

abbrev pub mlx_targets : List (String × TargetConstraint)
mlx_targets =
    (
      "cpu",
      record {
        backends = "local-task" ∷ "local-sync" ∷ [];
        exact_architectures = [];
        required_features = "avx2" ∷ [];
      },
    )
    ∷ (
      "hip",
      record { backends = "hip" ∷ "rocm" ∷ []; exact_architectures = []; required_features = [] },
    )
    ∷ []

abbrev pub mlx_operations : List (KernelOperationKind × String × String)
mlx_operations =
    (embedding, "embedding", "mlx.affine.u4.gather.iree_grouped")
    ∷ (linear, "matmul", "mlx.affine.u4.matmul.iree_grouped")
    ∷ (output_projection, "output", "mlx.affine.u4.matmul.iree_grouped")
    ∷ []

abbrev pub mlx_candidate :
    KernelOperationKind → String → String → String → TargetConstraint → KernelCandidateDescriptor
mlx_candidate operation suffix lowering backend target = record {
  id = "mlx.affine.u4." <> (suffix <> (".iree_grouped_" <> backend));
  operation = operation;
  encoding = some (record { id = "mlx.affine.u4"; version = 1 });
  input_types = f32 ∷ [];
  output_types = f32 ∷ [];
  accumulator_types = f32 ∷ [];
  shape = record {
    logical_rank = some 2;
    axis_multiples = record { axis = 1; multiple_of = 32 } ∷ [];
  };
  orientations = native ∷ [];
  target = target;
  modes = prefill ∷ decode ∷ [];
  lowering = if str_eq backend "cpu" then lowering else lowering <> "_gpu";
  deterministic_score = pos 300;
  readiness = production;
  notes =
      "Direct MLX U4 words with groupwise scale/bias on "
      <> (backend
          <> "; CPU permits fused dequantization while GPU uses an on-device dequantization boundary before contraction");
}

abbrev pub mlx_row :
    KernelOperationKind × String × String
    → List (String × TargetConstraint)
    → List KernelCandidateDescriptor
mlx_row row [] = []
mlx_row (operation, suffix, lowering) ((backend, target) ∷ targets) =
    mlx_candidate operation suffix lowering backend target
    ∷ mlx_row (operation, suffix, lowering) targets

abbrev pub mlx_rows : List (KernelOperationKind × String × String) → List KernelCandidateDescriptor
mlx_rows [] = []
mlx_rows (row ∷ rows) = mlx_row row mlx_targets ++ mlx_rows rows

unfoldable pub mlx_candidates : ℕ → List KernelCandidateDescriptor
mlx_candidates bits = if bits == 4 then mlx_rows mlx_operations else []

abbrev pub mlx_definition : ℕ → QuantizationDefinition
mlx_definition bits = record {
  descriptor = record {
    key = mlx_key bits;
    external_tags = record { family = "mlx.quantization.bits"; value = decimal bits } ∷ [];
  };
  matches = matches_group bits;
  validate = validate_group bits;
  kernel_candidates = mlx_candidates bits;
}
