-- ===== src/Quantization/Coverage/Complete.antt =====
-- A complete dry run of crates/dyninfer-quantization/src/lib.rs supports every operation of the graph.
use dyninfer.Quantization.Coverage.Storage.{request_for, request-storage}
use dyninfer.Quantization.Coverage.Requests.{Asks}
use dyninfer.Prelude.{
  ◌≡◌, refl, sym, ap, ◌∙◌, true, Option, none, some, List, [], ◌∷◌, Memᴰ, inl, inr, Bool-cases,
  Option-cases, arith, Result, ok, err, map,
}
use dyninfer.Prelude.Membership.{mem-append_left, mem-append_right}
use dyninfer.Core.Ir.{ExecutionMode, PrecisionPolicy, SelectedKernel}
use dyninfer.Core.Graph.{ArchitectureOperation, ArchitectureExport, ArchitectureGraph}
use dyninfer.Core.Target.{TargetProfile}
use dyninfer.Core.Types.{BindingPlan}
use dyninfer.Checkpoint.Catalog.{LogicalParameter}
use dyninfer.Kernel.{KernelRequest, SelectedKernelCandidate, SelectionReport}
use dyninfer.Kernel.Reasons.Eligible.{IsEligible}
use dyninfer.Kernel.Registry.{KernelError, KernelRegistry, select, deterministic_cost_model}
use dyninfer.Kernel.Registry.Selection.{select-best}
use dyninfer.Quantization.Registry.{builtin_registry}
use dyninfer.Quantization.Coverage.{
  OperationCoverage, selected_of, CoverageError, CoverageReport, is_covered, is_complete,
  selected_kernels, require_complete, definitions_by_slot, bindings_by_slot, modes_of, selection_of,
  selection_error, cover, cover_all, dry_run_coverage, from_semantic,
}
use dyninfer.Quantization.Coverage.Slots.{all-mem, mem-map, modes_of-mem, selected_of-mem}

-- both tests of a covered operation
is_covered-parts :
    (o : OperationCoverage)
    → is_covered o ≡ true
    → (s : SelectedKernelCandidate) × (o.selected ≡ some s) × (o.validation_error ≡ none)
is_covered-parts o h = elim (Option-cases o.selected) [
  | inl q ↦ absurd (ground arith)
  | inr (s, q) ↦ elim (Option-cases o.validation_error) [
    | inl r ↦ (s, q, r)
    | inr (e, r) ↦ absurd (ground arith)
  ]
]

selection_error-none :
    (r : Result KernelError SelectionReport) (before : Option CoverageError)
    → selection_error r before ≡ none
    → (report : SelectionReport) × (r ≡ ok report) × (before ≡ none)
selection_error-none (ok report) before h = (report, refl, h)
selection_error-none (err e) before h = absurd (cc)

-- What a complete report says of an operation in a mode: the kernel that the registry selects for the request
-- of the operation, which is registered, for the operation and eligible, and is the one that is recorded.
pub record Supported {F : Type 0} (parameters : List LogicalParameter) (binding : BindingPlan)
    (kernels : KernelRegistry) (target : TargetProfile) (policy : PrecisionPolicy)
    (kept : List SelectedKernel) (op : ArchitectureOperation F) (mode : ExecutionMode)
    : Type 0 where
  pub request : KernelRequest
  pub asks : Asks parameters binding.bindings policy op mode request
  pub report : SelectionReport
  pub selected : SelectedKernelCandidate
  pub reported : select deterministic_cost_model kernels request target ≡ ok report
  pub chosen : report.selected ≡ some selected
  pub listed : Memᴰ selected.descriptor kernels.candidates
  pub for_operation : selected.descriptor.operation ≡ from_semantic op.kind
  pub eligible : IsEligible selected.descriptor request target
  pub kept_as :
      Memᴰ
        (record {
          operation_id = op.id;
          mode = mode;
          kernel_id = selected.descriptor.id;
          lowering_id = selected.descriptor.lowering;
          parameter_slots = op.parameters;
          input_type = selected.input_type;
          output_type = selected.output_type;
          activation_type = selected.activation_type;
          accumulator_type = selected.accumulator_type;
        })
        kept

module _ {F : Type 0} (parameters : List LogicalParameter) (binding : BindingPlan)
    (kernels : KernelRegistry) (target : TargetProfile) (policy : PrecisionPolicy) where
  abbrev covered : ArchitectureOperation F → ExecutionMode → OperationCoverage
  covered op mode =
      cover builtin_registry kernels target policy (definitions_by_slot parameters binding.bindings)
        (bindings_by_slot binding.bindings) op mode

  covered-Supported :
      (op : ArchitectureOperation F) (mode : ExecutionMode) (os : List OperationCoverage)
      → Memᴰ (covered op mode) os
      → is_covered (covered op mode) ≡ true
      → Supported parameters binding kernels target policy (selected_of os) op mode
  unfolding cover
  covered-Supported op mode os m h =
      let (s, chosen, clean) = is_covered-parts (covered op mode) h in
      let (report, made, before) =
        selection_error-none
          (select deterministic_cost_model kernels
            (request_for parameters binding kernels target policy op mode) target)
          _ clean in
      let picked : report.selected ≡ some s =
        ap (λ r. (selection_of r).selected) (sym made) ∙ chosen in
      let best =
        (select-best deterministic_cost_model
          (request_for parameters binding kernels target policy op mode) target kernels made
          picked).0 in
      record {
        request = request_for parameters binding kernels target policy op mode;
        asks = record {
          operation_id = refl;
          operation = refl;
          in_mode = refl;
          precision = refl;
          slots = refl;
          storage = request-storage parameters binding kernels target policy op mode before;
        };
        report = report;
        selected = s;
        reported = made;
        chosen = picked;
        listed = best.0;
        for_operation = best.1;
        eligible = best.2;
        kept_as = selected_of-mem os m chosen;
      }

  cover_all-mem :
      (modes : List ExecutionMode) (ops : List (ArchitectureOperation F))
      {op : ArchitectureOperation F} {mode : ExecutionMode}
      → Memᴰ op ops
      → Memᴰ mode modes
      → Memᴰ (covered op mode) (
          cover_all builtin_registry kernels target policy
            (definitions_by_slot parameters binding.bindings)
            (bindings_by_slot binding.bindings)
            modes
            ops)
  unfolding cover_all
  cover_all-mem modes [] m n = elim m [ ]
  cover_all-mem modes (o ∷ ops) {mode = mode} (Memᴰ.head q) n =
      mem-append_left (map (λ k. covered o k) modes)
        (cover_all builtin_registry kernels target policy
          (definitions_by_slot parameters binding.bindings) (bindings_by_slot binding.bindings)
          modes ops)
        (rw q (mem-map (λ k. covered o k) modes n))
  cover_all-mem modes (o ∷ ops) (Memᴰ.tail m) n = mem-append_right _ _ (cover_all-mem modes ops m n)

require_complete-all :
    (report : CoverageReport) → require_complete report ≡ ok tt → is_complete report ≡ true
unfolding require_complete
require_complete-all report h = elim (Bool-cases (is_complete report)) [
  | inl q ↦ q
  | inr q ↦ absurd (ground arith)
]

-- Of a graph, a catalog's parameters, a binding plan and a registry of kernels, with the built-in encodings:
-- where the dry run's report is complete, every operation of the graph is supported in the mode of every
-- export. For the operation's request, the registry selects a kernel, which is registered, is for the operation
-- and is eligible for the request on the target, and which is listed among the selected kernels with the
-- operation's id and parameters, the mode, and the selected types. The request names the operation's id, kind
-- and parameters, the mode and the precision policy. Where the operation has no parameters, it names no encoding
-- and no shape, and the native orientation. Otherwise the first parameter's slot is bound to a parameter of the
-- catalog, whose storage has the components and the exact bytes that its encoding says; the request is for this
-- encoding, and for the shape, the components and the orientation of the last binding of the slot.
pub require_complete-Supported :
    {F : Type 0} (graph : ArchitectureGraph F) (parameters : List LogicalParameter)
    (binding : BindingPlan) (kernels : KernelRegistry) (target : TargetProfile)
    (policy : PrecisionPolicy) (op : ArchitectureOperation F) (export : ArchitectureExport)
    → Memᴰ op graph.operations
    → Memᴰ export graph.exports
    → require_complete
        (dry_run_coverage graph parameters binding builtin_registry kernels target policy)
      ≡ ok tt
    → Supported parameters binding kernels target policy
        (selected_kernels
          (dry_run_coverage graph parameters binding builtin_registry kernels target policy))
        op
        export.mode
unfolding dry_run_coverage
require_complete-Supported graph parameters binding kernels target policy op export m n h =
    let report = dry_run_coverage graph parameters binding builtin_registry kernels target policy in
    let member =
      cover_all-mem parameters binding kernels target policy (modes_of graph.exports)
        graph.operations m (modes_of-mem graph.exports n) in
    covered-Supported parameters binding kernels target policy op export.mode report.operations
      member (all-mem is_covered report.operations (require_complete-all report h) member)
