-- ===== src/Quantization/Tests.antt =====
-- Runs of the encoding definitions on small parameters.
use dyninfer.Prelude.{ℕ, ◌≡◌, refl, String, true, false, none, some, List, [], ◌∷◌, ok, err, Memᴰ}
use dyninfer.Prelude.Int.{negsuc}
use dyninfer.Core.Scalar.{
  ScalarType, scalar_index, f16, u32, row_major, little, StorageElementType, scalar, opaque,
}
use dyninfer.Core.Shape.{Shape}
use dyninfer.Core.Types.{
  PhysicalEncoding, group_quantized, block_quantized, GroupQuantized, BlockQuantized,
  StorageComponent, norm, absent,
}
use dyninfer.Checkpoint.Catalog.{LogicalParameter}
use dyninfer.Quantization.{wrong_bytes}
use dyninfer.Quantization.GgufBlock.{validate_q4_0}
use dyninfer.Quantization.MlxAffine.{validate_group}
use dyninfer.Quantization.Registry.{resolve, builtin_registry, builtin_definitions, q4_0_definition}
use dyninfer.Core.Ir.{decode, conservative_sensitive_ops}
use dyninfer.Core.Graph.{
  OperationKind, ArchitectureOperation, ArchitectureExport, ArchitectureGraph,
}
use dyninfer.Core.Target.{TargetProfile}
use dyninfer.Core.Types.{BindingPlan, ParameterBinding, identity}
use dyninfer.Kernel.{operation_index, is_precision_sensitive}
use dyninfer.Kernel.Registry.{KernelRegistry}
use dyninfer.Quantization.Codegen.{q40, block_candidates, block_candidate}
use dyninfer.Quantization.Coverage.{
  CoverageReport, require_complete, is_complete, selected_kernels, dry_run_coverage,
}
use dyninfer.Quantization.Coverage.Complete.{Supported, require_complete-Supported}

abbrev shape_of : List ℕ → Shape
shape_of ds = record { dims = ds }

abbrev stored : String → StorageElementType → List ℕ → ℕ → StorageComponent
stored name t ds n = record {
  name = name;
  key = name;
  source_file_index = 0;
  shape = shape_of ds;
  storage_type = t;
  byte_ranges = record { offset = 0; length = n } ∷ [];
  alignment = 32;
  endianness = little;
}

abbrev parameter : ScalarType → List ℕ → PhysicalEncoding → List StorageComponent → LogicalParameter
parameter t ds e cs = record {
  canonical_name = "w";
  role = norm;
  logical_type = record { shape = shape_of ds; element_type = t };
  encoding = e;
  components = cs;
  aliases = [];
}

abbrev q4_0_encoding : BlockQuantized
q4_0_encoding = record {
  logical_type = f16;
  block_shape = 32 ∷ [];
  bytes_per_block = 18;
  codec = "gguf.q4_0";
  codec_version = 1;
  components = "scale_f16" ∷ "quants_u4" ∷ [];
  layout =
      record { name = "scale_f16"; byte_offset = 0; byte_length = 2; storage_type = scalar f16 }
      ∷ record { name = "quants_u4"; byte_offset = 2; byte_length = 16; storage_type = opaque "u4" }
      ∷ [];
  order = row_major;
  endianness = little;
}

abbrev q4_0_parameter : ℕ → LogicalParameter
q4_0_parameter bytes =
    parameter f16 (2 ∷ 32 ∷ []) (block_quantized q4_0_encoding)
      (stored "data" (opaque "gguf.q4_0") (bytes ∷ []) bytes ∷ [])

abbrev mlx_encoding : GroupQuantized
mlx_encoding = record {
  logical_type = f16;
  storage_bits = 4;
  storage_container = u32;
  signed = false;
  axis = negsuc 0;
  group_size = 32;
  scale_type = f16;
  bias_type = some f16;
  zero_point = absent;
  packing = "mlx.affine.u4";
  order = row_major;
  components = "packed" ∷ "scales" ∷ "biases" ∷ [];
}

abbrev mlx_parameter : LogicalParameter
mlx_parameter = parameter f16 (2 ∷ 64 ∷ []) (group_quantized mlx_encoding) (
    stored "packed" (scalar u32) (2 ∷ 8 ∷ []) 64
    ∷ stored "scales" (scalar f16) (2 ∷ 2 ∷ []) 8
    ∷ stored "biases" (scalar f16) (2 ∷ 2 ∷ []) 8
    ∷ [])

two_blocks : validate_q4_0 (q4_0_parameter 36) ≡ ok tt
unfolding validate_q4_0 scalar_index
two_blocks = refl

short_blocks : validate_q4_0 (q4_0_parameter 35) ≡ err (wrong_bytes "w" 36 1 35)
unfolding validate_q4_0 scalar_index
short_blocks = refl

groups_of_mlx : validate_group 4 mlx_parameter ≡ ok tt
unfolding validate_group scalar_index
groups_of_mlx = refl

q4_0_resolved : resolve builtin_registry (block_quantized q4_0_encoding) ≡ some q4_0_definition
unfolding resolve builtin_definitions
q4_0_resolved = refl

abbrev device : TargetProfile
device = record {
  driver = "local-task";
  device_id = none;
  triple = none;
  architecture = none;
  features = "avx2" ∷ [];
  capability_fingerprint = "";
  device_uri = none;
  device_name = none;
  subgroup_size = none;
  max_workgroup_invocations = none;
  executable_target_flags = [];
  verified = true;
}

abbrev bound_parameter : ParameterBinding
bound_parameter = record {
  slot_id = "slot";
  canonical_name = "w";
  checkpoint_keys = "w" ∷ [];
  encoding = block_quantized q4_0_encoding;
  logical_shape = shape_of (2 ∷ 32 ∷ []);
  logical_type = f16;
  components = [];
  transform = identity;
  scope = "weights";
  parameter_key = "w";
  storage_bytes = 36;
  alignment = 32;
}

abbrev plan : BindingPlan
plan = record {
  architecture_id = "a";
  checkpoint_schema = record { digest = ""; entry_count = 1; total_bytes = 36 };
  bindings = bound_parameter ∷ [];
  unresolved_optional_slots = [];
}

abbrev projection : ArchitectureOperation Unit
projection = record {
  id = "projection";
  kind = OperationKind.linear norm;
  inputs = "x" ∷ [];
  outputs = "y" ∷ [];
  parameters = "slot" ∷ [];
}

abbrev export_of_decode : ArchitectureExport
export_of_decode = record { name = "decode"; mode = decode; inputs = "x" ∷ []; outputs = "y" ∷ [] }

abbrev graph : ArchitectureGraph Unit
graph = record {
  version = 1;
  architecture_id = "a";
  values = [];
  operations = projection ∷ [];
  parameter_slots = [];
  exports = export_of_decode ∷ [];
}

abbrev kernels : KernelRegistry
kernels = record { candidates = block_candidates q40 "gguf.q4_0" }

abbrev report_for : ℕ → CoverageReport
report_for bytes =
    dry_run_coverage graph (q4_0_parameter bytes ∷ []) plan builtin_registry kernels device
      conservative_sensitive_ops

complete_report : require_complete (report_for 36) ≡ ok tt
unfolding require_complete dry_run_coverage builtin_definitions scalar_index block_candidate
    operation_index is_precision_sensitive validate_q4_0
complete_report = refl

-- a parameter of the wrong size leaves the report incomplete, although a kernel is selected
incomplete_report : is_complete (report_for 35) ≡ false
unfolding dry_run_coverage builtin_definitions scalar_index block_candidate operation_index
    is_precision_sensitive validate_q4_0
incomplete_report = refl

require_complete-Supported_example :
    Supported
      (q4_0_parameter 36 ∷ [])
      plan
      kernels
      device
      conservative_sensitive_ops
      (selected_kernels (report_for 36))
      projection
      decode
require_complete-Supported_example =
    require_complete-Supported graph (q4_0_parameter 36 ∷ []) plan kernels device
      conservative_sensitive_ops projection export_of_decode (Memᴰ.head refl) (Memᴰ.head refl)
      complete_report
