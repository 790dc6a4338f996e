-- ===== src/Quantization/Plain.antt =====
-- `PlainDefinition` of crates/dyninfer-quantization/src/quantizations/plain.rs. `new` panics for a storage
-- type other than f32, f16 and bf16, and is called with these three.
use Prim.Native.String.{◌++◌ as ◌<>◌}
use dyninfer.Prelude.{
  ℕ, String, Bool, false, ◌&&◌, ◌==◌, Option, none, some, List, [], ◌∷◌, ◌++◌, length, Result, ok,
  ◌>>=◌, ◌>>◌, guard, ok_or, checked_mul,
}
use dyninfer.Prelude.Options.{and_then, map_some, list_of}
use dyninfer.Prelude.Int.{pos}
use dyninfer.Core.Scalar.{ScalarType, f32, f16, bf16, scalar_beq, size_bytes, display}
use dyninfer.Core.Shape.{Shape, numel}
use dyninfer.Core.Ir.{prefill, decode}
use dyninfer.Core.Types.{PhysicalEncoding, plain}
use dyninfer.Checkpoint.Catalog.{LogicalParameter}
use dyninfer.Kernel.{
  EncodingKey, KernelCandidateDescriptor, KernelOperationKind, embedding, linear, rms_norm,
  per_head_rms_norm, output_projection, short_conv, any_target, native, production,
}
use dyninfer.Quantization.{
  QuantizationError, unsupported, size_overflow, wrong_bytes, QuantizationDefinition, fold_lengths,
  ranges_of,
}

abbrev pub plain_id : ScalarType → String
plain_id t = "plain." <> display t

abbrev pub plain_key : ScalarType → EncodingKey
plain_key t = record { id = plain_id t; version = 1 }

-- the rank of the parameter that an operation consumes
unfoldable pub logical_rank : KernelOperationKind → ℕ
logical_rank rms_norm = 1
logical_rank per_head_rms_norm = 1
logical_rank short_conv = 3
logical_rank _ = 2

unfoldable pub candidate :
    ScalarType → KernelOperationKind → String → String → KernelCandidateDescriptor
unfolding logical_rank display
candidate t operation suffix lowering = record {
  id = "dense." <> (suffix <> ("." <> (display t <> ".portable_f32")));
  operation = operation;
  encoding = some (plain_key t);
  input_types = f32 ∷ [];
  output_types = f32 ∷ [];
  accumulator_types = f32 ∷ [];
  shape = record { logical_rank = some (logical_rank operation); axis_multiples = [] };
  orientations = native ∷ [];
  target = any_target;
  modes = prefill ∷ decode ∷ [];
  lowering = lowering;
  deterministic_score = pos 100;
  readiness = production;
  notes =
      "Consumes plain " <> (display t <> " storage directly and computes conservatively in f32");
}

-- the feature that the native path of a storage type needs
abbrev pub native_feature : ScalarType → Option String
native_feature f16 = some "native_f16"
native_feature bf16 = some "native_bf16"
native_feature _ = none

-- The suffix is that of the caller's row, which the code finds again by the operation.
unfoldable pub native_candidate :
    ScalarType → KernelOperationKind → String → Option KernelCandidateDescriptor
unfolding logical_rank display
native_candidate t operation suffix =
    map_some
      (λ feature. record {
        id = "dense." <> (suffix <> ("." <> (display t <> ".native")));
        operation = operation;
        encoding = some (plain_key t);
        input_types = t ∷ [];
        output_types = t ∷ [];
        accumulator_types = f32 ∷ [];
        shape = record { logical_rank = some (logical_rank operation); axis_multiples = [] };
        orientations = native ∷ [];
        target = record {
          backends = "any" ∷ [];
          exact_architectures = [];
          required_features = feature ∷ [];
        };
        modes = prefill ∷ decode ∷ [];
        lowering = "dense." <> (suffix <> ".native");
        deterministic_score = pos 200;
        readiness = production;
        notes = "Native " <> (display t <> " activation path gated by verified target capability");
      })
      (native_feature t)

abbrev pub plain_operations : List (KernelOperationKind × String × String)
plain_operations =
    (embedding, "gather", "dense.gather.linalg")
    ∷ (linear, "matmul", "dense.matmul.linalg")
    ∷ (rms_norm, "rms_norm", "dense.rms_norm.generated")
    ∷ (per_head_rms_norm, "per_head_rms_norm", "dense.per_head_rms_norm.generated")
    ∷ (output_projection, "output_projection", "dense.matmul.linalg")
    ∷ (short_conv, "short_conv", "short_conv.gated.generated")
    ∷ []

unfoldable pub candidates_of :
    ScalarType → List (KernelOperationKind × String × String) → List KernelCandidateDescriptor
unfolding candidate native_candidate
candidates_of t [] = []
candidates_of t ((operation, suffix, lowering) ∷ rows) =
    candidate t operation suffix lowering ∷ list_of (native_candidate t operation suffix)
    ++ candidates_of t rows

abbrev pub matches_plain : ScalarType → PhysicalEncoding → Bool
matches_plain t (plain storage_type order) = scalar_beq storage_type t
matches_plain t _ = false

-- the exact size of the elements of a shape
unfoldable pub plain_bytes : ScalarType → Shape → Option ℕ
unfolding numel size_bytes
plain_bytes t shape =
    and_then (numel shape) (λ n. and_then (size_bytes t) (λ size. checked_mul n size))

unfoldable pub validate_plain : ScalarType → LogicalParameter → Result QuantizationError (Unit {0})
unfolding plain_bytes fold_lengths
validate_plain t p = do
  guard (matches_plain t p.encoding)
      (unsupported p.canonical_name "parameter does not use the storage type")
  guard (scalar_beq p.logical_type.element_type t)
      (unsupported p.canonical_name "plain logical and storage scalar types differ")
  expected ←
      ok_or (plain_bytes t p.logical_type.shape)
        (size_overflow "plain parameter byte size overflow")
  actual ←
      ok_or (fold_lengths 0 (ranges_of p.components))
        (size_overflow "plain component byte size overflow")
  guard (length p.components == 1 && actual == expected)
      (wrong_bytes p.canonical_name expected (length p.components) actual)
  ok tt

abbrev pub plain_definition : ScalarType → QuantizationDefinition
plain_definition t = record {
  descriptor = record {
    key = plain_key t;
    external_tags = record { family = "scalar"; value = display t } ∷ [];
  };
  matches = matches_plain t;
  validate = validate_plain t;
  kernel_candidates = candidates_of t plain_operations;
}
