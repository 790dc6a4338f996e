-- ===== src/Quantization/Coverage/Storage.antt =====
-- The storage that the requests of the dry run of crates/dyninfer-quantization/src/lib.rs ask for.
use mathlib.Core.Path.{subst}
use dyninfer.Quantization.Coverage.Requests.{
  Weightless, Weighted, Turned, orientation_of-Turned, Bound-LastFor,
}
use dyninfer.Quantization.Coverage.{orientation_of, component_keys}
use dyninfer.Prelude.{
  ◌≡◌, refl, sym, ap, ◌∙◌, String, Option, none, some, List, [], ◌∷◌, ◌⊎◌, inl, inr, Option-cases,
  arith, Result, ok, err, first,
}
use dyninfer.Prelude.Assoc.{get}
use dyninfer.Prelude.Options.{and_then, map_some}
use dyninfer.Core.Ir.{ExecutionMode, PrecisionPolicy}
use dyninfer.Core.Graph.{ArchitectureOperation}
use dyninfer.Core.Target.{TargetProfile}
use dyninfer.Core.Types.{BindingPlan, ParameterBinding}
use dyninfer.Checkpoint.Catalog.{LogicalParameter}
use dyninfer.Kernel.{KernelRequest}
use dyninfer.Kernel.Registry.{KernelRegistry}
use dyninfer.Quantization.{QuantizationDefinition, physical_encoding_key}
use dyninfer.Quantization.Registry.{resolve, builtin_registry}
use dyninfer.Quantization.Stored.{StoredAs}
use dyninfer.Quantization.Resolved.{resolve-StoredAs}
use dyninfer.Quantization.Coverage.{
  definitions_by_slot, bindings_by_slot, parameter_error, request_of,
}
use dyninfer.Quantization.Coverage.Slots.{mem-get, definitions_by_slot-Bound}

-- the first slot's parameter is stored as its encoding says
parameter_error-none :
    (slots : List String) (o : Option LogicalParameter)
    → parameter_error builtin_registry slots o ≡ none
    → ((o ≡ none) × (slots ≡ [])) ⊎ ((p : LogicalParameter) × (o ≡ some p) × StoredAs p.encoding p)
unfolding parameter_error
parameter_error-none [] none h = inl (refl, refl)
parameter_error-none (s ∷ slots) none h = absurd (cc)
parameter_error-none slots (some p) h = elim (Option-cases (resolve builtin_registry p.encoding)) [
  | inl q ↦ absurd (ground arith)
  | inr (d, q) ↦ at d q (d.validate p) refl
]
  where
    at :
        (d : QuantizationDefinition)
        → resolve builtin_registry p.encoding ≡ some d
        → (r : Result _ (Unit {0})) → d.validate p ≡ r
        → ((some p ≡ none) × (slots ≡ []))
          ⊎ ((q : LogicalParameter) × (some p ≡ some q) × StoredAs q.encoding q)
    at d q (ok u) e = inr (p, refl, (resolve-StoredAs p d q e).3)
    at d q (err x) e = absurd (ground arith)

-- the catalog's parameter and the last binding of a slot
abbrev pub looked_up :
    List LogicalParameter → List ParameterBinding → Option String → Option LogicalParameter
looked_up parameters bindings o = and_then o (λ k. get (definitions_by_slot parameters bindings) k)

abbrev bound_for : List ParameterBinding → Option String → Option ParameterBinding
bound_for bindings o = and_then o (λ k. get (bindings_by_slot bindings) k)

module _ {F : Type 0} (parameters : List LogicalParameter) (binding : BindingPlan)
    (kernels : KernelRegistry) (target : TargetProfile) (policy : PrecisionPolicy) where
  abbrev pub request_for : ArchitectureOperation F → ExecutionMode → KernelRequest
  request_for op mode =
      request_of builtin_registry kernels target policy
        (definitions_by_slot parameters binding.bindings) (bindings_by_slot binding.bindings) op
        mode

  request-Weightless :
      (op : ArchitectureOperation F) (mode : ExecutionMode)
      → op.parameters ≡ []
      → Weightless op.parameters (request_for op mode)
  request-Weightless op mode e = record {
    no_slots = e;
    encoding = rw e refl;
    shape = rw e refl;
    orientation = rw e refl;
    components = rw e refl;
  }

  request-Weighted :
      (op : ArchitectureOperation F) (mode : ExecutionMode) (slot : String) (p : LogicalParameter)
      → first op.parameters ≡ some slot
      → looked_up parameters binding.bindings (first op.parameters) ≡ some p
      → StoredAs p.encoding p
      → Weighted parameters binding.bindings op.parameters (request_for op mode)
  request-Weighted op mode slot p q r stored =
      let found = ap (looked_up parameters binding.bindings) (sym q) ∙ r in
      let known =
        definitions_by_slot-Bound parameters binding.bindings
          (mem-get (definitions_by_slot parameters binding.bindings) slot found) in
      let (b, e, last) = Bound-LastFor binding.bindings slot known in
      let bound = ap (bound_for binding.bindings) q ∙ e in
      record {
        slot = slot;
        parameter = p;
        bound = b;
        first_slot = q;
        in_catalog = known;
        stored = stored;
        last_binding = last;
        encoding = ap (map_some (λ (x : LogicalParameter). physical_encoding_key x.encoding)) r;
        shape = ap (map_some (λ (x : ParameterBinding). x.logical_shape)) bound;
        orientation =
            subst (Turned b.transform) (ap orientation_of (sym bound)) (orientation_of-Turned b);
        components = ap component_keys bound;
      }

  -- the storage that the request of an operation without an error of its parameter asks for
  pub request-storage :
      (op : ArchitectureOperation F) (mode : ExecutionMode)
      → parameter_error builtin_registry op.parameters
          (looked_up parameters binding.bindings (first op.parameters))
        ≡ none
      → Weightless op.parameters (request_for op mode)
        ⊎ Weighted parameters binding.bindings op.parameters (request_for op mode)
  request-storage op mode h = elim (parameter_error-none op.parameters _ h) [
    | inl r ↦ inl (request-Weightless op mode r.1)
    | inr (p, r, stored) ↦ elim (Option-cases (first op.parameters)) [
      | inl q ↦ absurd (ground arith)
      | inr (slot, q) ↦ inr (request-Weighted op mode slot p q r stored)
    ]
  ]
