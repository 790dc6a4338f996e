-- ===== src/Quantization/Coverage.antt =====
-- The dry run of the kernel selection of crates/dyninfer-quantization/src/lib.rs, and `from_semantic` of
-- crates/dyninfer-kernel-registry/src/lib.rs. Maps that are only looked up are lists of entries, and a validation
-- error is a value. The diagnostics of an incomplete report are its uncovered operations.
pub mod Slots
pub mod Requests
pub mod Storage
pub mod Complete
use dyninfer.Prelude.{
  ℕ, String, Bool, true, false, not, ◌&&◌, ◌||◌, Option, none, some, List, [], ◌∷◌, ◌++◌, Result,
  ok, err, all, any, first, find, filter, is_empty, map, str_eq, if◌then◌else◌,
}
use dyninfer.Prelude.Eq.{eq}
use dyninfer.Prelude.Assoc.{get, insert}
use dyninfer.Prelude.Options.{and_then, map_some, some_or}
use dyninfer.Core.Shape.{Shape}
use dyninfer.Core.Ir.{ExecutionMode, prefill, decode, mode_eq, PrecisionPolicy, SelectedKernel}
use dyninfer.Core.Graph
use dyninfer.Core.Graph.{
  OperationKind, ArchitectureOperation, ArchitectureExport, ArchitectureGraph,
}
use dyninfer.Core.Target.{TargetProfile}
use dyninfer.Core.Types.{BindingPlan, ParameterBinding, BindingTransform, logical_transpose}
use dyninfer.Checkpoint.Catalog.{LogicalParameter}
use dyninfer.Kernel
use dyninfer.Kernel.{
  KernelOperationKind, EncodingKey, ParameterOrientation, native, KernelRequest, CandidateRejection,
  SelectedKernelCandidate, SelectionReport,
}
use dyninfer.Kernel.Registry.{
  KernelError, KernelRegistry, KernelCostModel, select, deterministic_cost_model,
}
use dyninfer.Quantization.{QuantizationError, physical_encoding_key}
use dyninfer.Quantization.Registry.{QuantizationRegistry, resolve}

module _ {F : Type 0} where
  unfoldable pub from_semantic : OperationKind F → KernelOperationKind
  from_semantic OperationKind.input = Kernel.input
  from_semantic OperationKind.embedding = Kernel.embedding
  from_semantic (OperationKind.linear role) = Kernel.linear
  from_semantic (OperationKind.rms_norm epsilon) = Kernel.rms_norm
  from_semantic (OperationKind.per_head_rms_norm epsilon heads dim) = Kernel.per_head_rms_norm
  from_semantic (OperationKind.rope heads dim theta) = Kernel.rope
  from_semantic (OperationKind.kv_cache_write layer component) = Kernel.kv_cache_write
  from_semantic (OperationKind.kv_cache_read layer component) = Kernel.kv_cache_read
  from_semantic (OperationKind.attention heads kv_heads dim causal) = Kernel.attention
  from_semantic (OperationKind.short_conv layer channels kernel) = Kernel.short_conv
  from_semantic (OperationKind.elementwise Graph.silu) = Kernel.silu
  from_semantic (OperationKind.elementwise Graph.multiply) = Kernel.multiply
  from_semantic OperationKind.residual = Kernel.residual
  from_semantic OperationKind.output_projection = Kernel.output_projection

pub data CoverageError : Type 0 where
  invalid_parameter : QuantizationError → CoverageError
  unregistered_encoding : EncodingKey → CoverageError
  unbound_parameter : CoverageError
  selection_failed : KernelError → CoverageError

pub record OperationCoverage : Type 0 where
  pub operation_id : String
  pub operation : KernelOperationKind
  pub mode : ExecutionMode
  pub encoding : Option EncodingKey
  pub selected : Option SelectedKernelCandidate
  pub rejected : List CandidateRejection
  pub logical_shape : Option Shape
  pub parameter_slots : List String
  pub checkpoint_component_keys : List String
  pub validation_error : Option CoverageError

pub record CoverageReport : Type 0 where
  pub target : TargetProfile
  pub target_fingerprint : String
  pub precision_policy : PrecisionPolicy
  pub operations : List OperationCoverage

abbrev pub is_covered : OperationCoverage → Bool
is_covered o = elim o.selected [
  | none ↦ false
  | some s ↦ elim o.validation_error [ none ↦ true | some e ↦ false ]
]

abbrev pub is_complete : CoverageReport → Bool
is_complete report = all is_covered report.operations

abbrev pub kernel_of : OperationCoverage → SelectedKernelCandidate → SelectedKernel
kernel_of o s = record {
  operation_id = o.operation_id;
  mode = o.mode;
  kernel_id = s.descriptor.id;
  lowering_id = s.descriptor.lowering;
  parameter_slots = o.parameter_slots;
  input_type = s.input_type;
  output_type = s.output_type;
  activation_type = s.activation_type;
  accumulator_type = s.accumulator_type;
}

unfoldable pub selected_of : List OperationCoverage → List SelectedKernel
selected_of [] = []
selected_of (o ∷ os) =
    let rest = selected_of os in elim o.selected [ none ↦ rest | some s ↦ kernel_of o s ∷ rest ]

abbrev pub selected_kernels : CoverageReport → List SelectedKernel
selected_kernels report = selected_of report.operations

unfoldable pub require_complete : CoverageReport → Result (List OperationCoverage) (Unit {0})
require_complete report =
    if is_complete report then ok tt else err (filter (λ o. not (is_covered o)) report.operations)

-- the entries of the later bindings, and then a binding's own
abbrev pub entry_before :
    List (String × LogicalParameter)
    → String
    → Option LogicalParameter
    → List (String × LogicalParameter)
entry_before rest slot none = rest
entry_before rest slot (some p) = rest ++ (slot, p) ∷ []

-- the map from a slot to the catalog's parameter, where it has one
unfoldable pub definitions_by_slot :
    List LogicalParameter → List ParameterBinding → List (String × LogicalParameter)
definitions_by_slot parameters [] = []
definitions_by_slot parameters (bound ∷ bindings) =
    entry_before (definitions_by_slot parameters bindings) bound.slot_id
      (find (λ p. str_eq p.canonical_name bound.canonical_name) parameters)

-- the entry of a later binding stands first, as it overwrites an earlier one
unfoldable pub bindings_by_slot : List ParameterBinding → List (String × ParameterBinding)
bindings_by_slot [] = []
bindings_by_slot (bound ∷ bindings) = bindings_by_slot bindings ++ (bound.slot_id, bound) ∷ []

-- the set of the exports' modes, in its order
unfoldable pub modes_of : List ArchitectureExport → List ExecutionMode
modes_of exports =
    (if any (λ e. eq e.mode prefill) exports then prefill ∷ [] else [])
    ++ (if any (λ e. eq e.mode decode) exports then decode ∷ [] else [])

abbrev pub orientation_of : Option ParameterBinding → ParameterOrientation
orientation_of none = native
orientation_of (some bound) = elim bound.transform [
  | logical_transpose axes ↦ ParameterOrientation.logical_transpose
  | _ ↦ native
]

abbrev pub component_keys : Option ParameterBinding → List String
component_keys none = []
component_keys (some bound) = map (λ c. c.external_key) bound.components

-- the first of the errors, before the selection
unfoldable pub parameter_error :
    QuantizationRegistry → List String → Option LogicalParameter → Option CoverageError
unfolding resolve physical_encoding_key
parameter_error encodings slots none = if is_empty slots then none else some unbound_parameter
parameter_error encodings slots (some p) = elim (resolve encodings p.encoding) [
  | none ↦ some (unregistered_encoding (physical_encoding_key p.encoding))
  | some definition ↦ elim (definition.validate p) [
    | ok u ↦ none
    | err e ↦ some (invalid_parameter e)
  ]
]

abbrev pub selection_of : Result KernelError SelectionReport → SelectionReport
selection_of (ok s) = s
selection_of (err e) = record { selected = none; rejected = [] }

-- An error of the selection overwrites one of the parameter.
abbrev pub selection_error :
    Result KernelError SelectionReport → Option CoverageError → Option CoverageError
selection_error (ok s) before = before
selection_error (err e) before = some (selection_failed e)

module _ {F : Type 0} (encodings : QuantizationRegistry) (kernels : KernelRegistry)
    (target : TargetProfile) (policy : PrecisionPolicy)
    (definitions : List (String × LogicalParameter))
    (bindings : List (String × ParameterBinding)) where
  abbrev pub parameter_of : ArchitectureOperation F → Option LogicalParameter
  parameter_of op = and_then (first op.parameters) (λ slot. get definitions slot)

  abbrev pub bound_of : ArchitectureOperation F → Option ParameterBinding
  bound_of op = and_then (first op.parameters) (λ slot. get bindings slot)

  abbrev pub request_of : ArchitectureOperation F → ExecutionMode → KernelRequest
  request_of op mode = record {
    operation_id = op.id;
    operation = from_semantic op.kind;
    encoding = map_some (λ p. physical_encoding_key p.encoding) (parameter_of op);
    logical_shape = map_some (λ b. b.logical_shape) (bound_of op);
    orientation = orientation_of (bound_of op);
    mode = mode;
    precision_policy = policy;
    parameter_slots = op.parameters;
    checkpoint_component_keys = component_keys (bound_of op);
  }

  -- the body of the loops
  unfoldable pub cover : ArchitectureOperation F → ExecutionMode → OperationCoverage
  unfolding from_semantic physical_encoding_key get parameter_error select deterministic_cost_model
  cover op mode =
      let request = request_of op mode in
      let selection = select deterministic_cost_model kernels request target in
      record {
        operation_id = op.id;
        operation = request.operation;
        mode = mode;
        encoding = request.encoding;
        selected = (selection_of selection).selected;
        rejected = (selection_of selection).rejected;
        logical_shape = request.logical_shape;
        parameter_slots = request.parameter_slots;
        checkpoint_component_keys = request.checkpoint_component_keys;
        validation_error =
            selection_error selection (parameter_error encodings op.parameters (parameter_of op));
      }

  unfoldable pub cover_all :
      List ExecutionMode → List (ArchitectureOperation F) → List OperationCoverage
  unfolding cover
  cover_all modes [] = []
  cover_all modes (op ∷ ops) = map (λ mode. cover op mode) modes ++ cover_all modes ops

unfoldable pub dry_run_coverage :
    {F : Type 0}
    → ArchitectureGraph F
    → List LogicalParameter
    → BindingPlan
    → QuantizationRegistry
    → KernelRegistry
    → TargetProfile
    → PrecisionPolicy
    → CoverageReport
unfolding definitions_by_slot bindings_by_slot modes_of cover_all
dry_run_coverage graph parameters binding encodings kernels target policy = record {
  target = target;
  target_fingerprint = target.capability_fingerprint;
  precision_policy = policy;
  operations =
      cover_all encodings kernels target policy (definitions_by_slot parameters binding.bindings)
        (bindings_by_slot binding.bindings) (modes_of graph.exports) graph.operations;
}
