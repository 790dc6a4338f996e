-- ===== src/Quantization/Codegen.antt =====
-- `BlockLayout` and `kernel_candidates` of crates/dyninfer-quantization/src/quantizations/gguf_codegen.rs.
use Prim.Native.String.{◌++◌ as ◌<>◌}
use dyninfer.Prelude.{ℕ, String, some, List, [], ◌∷◌, ◌++◌}
use dyninfer.Prelude.Int.{pos}
use dyninfer.Core.Scalar.{f32}
use dyninfer.Core.Ir.{prefill, decode}
use dyninfer.Kernel.{
  KernelCandidateDescriptor, KernelOperationKind, embedding, linear, output_projection,
  TargetConstraint, native, production,
}

pub data BlockLayout : Type 0 where
  q40 q41 q80 q6k : BlockLayout

unfoldable pub layout_block_size : BlockLayout → ℕ
layout_block_size q6k = 256
layout_block_size _ = 32

unfoldable pub layout_bytes_per_block : BlockLayout → ℕ
layout_bytes_per_block q40 = 18
layout_bytes_per_block q41 = 20
layout_bytes_per_block q80 = 34
layout_bytes_per_block q6k = 210

abbrev pub block_operations : List (KernelOperationKind × String)
block_operations = (embedding, "gather") ∷ (linear, "matmul") ∷ (output_projection, "output") ∷ []

abbrev pub block_targets : List (String × TargetConstraint)
block_targets =
    (
      "cpu",
      record {
        backends = "local-task" ∷ "local-sync" ∷ [];
        exact_architectures = [];
        required_features = "avx2" ∷ [];
      },
    )
    ∷ (
      "hip",
      record { backends = "hip" ∷ "rocm" ∷ []; exact_architectures = []; required_features = [] },
    )
    ∷ []

module _ (layout : BlockLayout) (codec : String) where
  unfoldable pub block_candidate :
      KernelOperationKind → String → String → TargetConstraint → KernelCandidateDescriptor
  unfolding layout_block_size
  block_candidate operation suffix backend target = record {
    id = codec <> ("." <> (suffix <> (".iree_block_" <> backend)));
    operation = operation;
    encoding = some (record { id = codec; version = 1 });
    input_types = f32 ∷ [];
    output_types = f32 ∷ [];
    accumulator_types = f32 ∷ [];
    shape = record {
      logical_rank = some 2;
      axis_multiples = record { axis = 1; multiple_of = layout_block_size layout } ∷ [];
    };
    orientations = native ∷ [];
    target = target;
    modes = prefill ∷ decode ∷ [];
    lowering = codec <> ("." <> (suffix <> ".iree_block"));
    deterministic_score = pos 300;
    readiness = production;
    notes =
        "Consumes official GGML "
        <> (codec
            <> " interleaved blocks directly; dequantization remains adjacent to gather/matmul");
  }

  abbrev pub block_row :
      KernelOperationKind × String
      → List (String × TargetConstraint)
      → List KernelCandidateDescriptor
  block_row row [] = []
  block_row (operation, suffix) ((backend, target) ∷ targets) =
      block_candidate operation suffix backend target ∷ block_row (operation, suffix) targets

  abbrev pub block_rows : List (KernelOperationKind × String) → List KernelCandidateDescriptor
  block_rows [] = []
  block_rows (row ∷ rows) = block_row row block_targets ++ block_rows rows

  abbrev pub block_candidates : List KernelCandidateDescriptor
  block_candidates = block_rows block_operations
