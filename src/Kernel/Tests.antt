-- ===== src/Kernel/Tests.antt =====
-- The theorems on the kernel registry at concrete candidates.
use dyninfer.Prelude.{
  ◌≡◌, ◌≢◌, ◌⊎◌, ◌↔◌, refl, sym, ◌∙◌, true, some, none, List, [], ◌∷◌, Memᴰ, ok, err, Option,
  text_leq,
}
use dyninfer.Prelude.Int.{ℤ, pos, ◌≤ℤ◌}
use dyninfer.Core.Scalar.{f32}
use dyninfer.Core.Ir.{decode, conservative_sensitive_ops}
use dyninfer.Core.Target.{TargetProfile}
use dyninfer.Kernel.{
  silu, operation_index, is_precision_sensitive, native, prototype, not_production_ready,
  KernelCandidateDescriptor, KernelRequest, SelectedKernelCandidate, SelectionReport,
  CandidateRejection,
}
use dyninfer.Kernel.Builtin.{
  semantic, register_builtin_semantic_candidates, builtin_semantic_candidates,
}
use dyninfer.Kernel.Builtin.Supplies.{distinct-Apart, register_builtin-Supplies}
use dyninfer.Kernel.Reasons.{rejection_reasons}
use dyninfer.Kernel.Reasons.Eligible.{IsEligible, rejection_reasons-eq-nil}
use dyninfer.Kernel.Registry.{
  KernelRegistry, register, deterministic_cost_model, select, require, duplicate_candidate,
  no_production_kernel,
}
use dyninfer.Kernel.Registry.Registration.{HasUniqueIds, register-HasUniqueIds, register-duplicate}
use dyninfer.Kernel.Registry.Selection.{select-best, select_total}
use dyninfer.Kernel.Registry.Require.{Rejects, IsBest, require_exact}
use dyninfer.Kernel.Registry.Determinism.{select_order_irrelevant}

abbrev fast : KernelCandidateDescriptor
fast = semantic silu "silu.fast" "silu" f32 (pos 100) "fast"

abbrev slow : KernelCandidateDescriptor
slow = semantic silu "silu.slow" "silu" f32 (pos 90) "slow"

abbrev request : KernelRequest
request = record {
  operation_id = "layer.0.silu";
  operation = silu;
  encoding = none;
  logical_shape = none;
  orientation = native;
  mode = decode;
  precision_policy = conservative_sensitive_ops;
  parameter_slots = [];
  checkpoint_component_keys = [];
}

abbrev target : TargetProfile
target = record {
  driver = "local-task";
  device_id = none;
  triple = none;
  architecture = none;
  features = [];
  capability_fingerprint = "";
  device_uri = none;
  device_name = none;
  subgroup_size = none;
  max_workgroup_invocations = none;
  executable_target_flags = [];
  verified = true;
}

abbrev draft : KernelCandidateDescriptor
draft = record fast { readiness = prototype }

abbrev both : KernelRegistry
both = record { candidates = slow ∷ fast ∷ [] }

abbrev swapped : KernelRegistry
swapped = record { candidates = fast ∷ slow ∷ [] }

abbrev drafts : KernelRegistry
drafts = record { candidates = draft ∷ [] }

abbrev chosen : SelectedKernelCandidate
chosen = record {
  descriptor = fast;
  input_type = f32;
  output_type = f32;
  activation_type = f32;
  accumulator_type = f32;
  score = pos 100;
}

abbrev report : SelectionReport
report = record { selected = some chosen; rejected = [] }

abbrev no_report : SelectionReport
no_report = record {
  selected = none;
  rejected = record { candidate_id = "silu.fast"; reasons = not_production_ready ∷ [] } ∷ [];
}

selects_both : select deterministic_cost_model both request target ≡ ok report
unfolding select deterministic_cost_model operation_index is_precision_sensitive
selects_both = refl

selects_swapped : select deterministic_cost_model swapped request target ≡ ok report
unfolding select deterministic_cost_model operation_index is_precision_sensitive
selects_swapped = refl

costs_fast : deterministic_cost_model fast request target ≡ ok (pos 100)
unfolding deterministic_cost_model
costs_fast = refl

scores :
    (c : KernelCandidateDescriptor) → (v : ℤ) × (deterministic_cost_model c request target ≡ ok v)
unfolding deterministic_cost_model
scores c = (_, refl)

registers : register (record { candidates = slow ∷ [] }) fast ≡ ok both
unfolding register
registers = refl

one-HasUniqueIds : HasUniqueIds (slow ∷ [])
one-HasUniqueIds c d (Memᴰ.head p) (Memᴰ.head q) e = p ∙ sym q
one-HasUniqueIds c d (Memᴰ.head p) (Memᴰ.tail q) e = elim q [ ]
one-HasUniqueIds c d (Memᴰ.tail p) q e = elim p [ ]

both-HasUniqueIds : HasUniqueIds both.candidates
both-HasUniqueIds =
    (register-HasUniqueIds (record { candidates = slow ∷ [] }) fast {reg' = both} one-HasUniqueIds
      registers).0

swap : (c : KernelCandidateDescriptor) → Memᴰ c both.candidates → Memᴰ c swapped.candidates
swap c (Memᴰ.head p) = Memᴰ.tail (Memᴰ.head p)
swap c (Memᴰ.tail (Memᴰ.head p)) = Memᴰ.head p
swap c (Memᴰ.tail (Memᴰ.tail p)) = elim p [ ]

swap_back : (c : KernelCandidateDescriptor) → Memᴰ c swapped.candidates → Memᴰ c both.candidates
swap_back c (Memᴰ.head p) = Memᴰ.tail (Memᴰ.head p)
swap_back c (Memᴰ.tail (Memᴰ.head p)) = Memᴰ.head p
swap_back c (Memᴰ.tail (Memᴰ.tail p)) = elim p [ ]

rejection_reasons-eq-nil_example :
    (rejection_reasons fast request target ≡ []) ↔ IsEligible fast request target
rejection_reasons-eq-nil_example = rejection_reasons-eq-nil fast request target

select-best_example :
    (Memᴰ fast both.candidates
      × (silu ≡ silu)
      × IsEligible fast request target
      × (deterministic_cost_model fast request target ≡ ok (pos 100)))
    × ((c : KernelCandidateDescriptor) (v : ℤ)
        → Memᴰ c both.candidates
        → c.operation ≡ silu
        → IsEligible c request target
        → deterministic_cost_model c request target ≡ ok v
        → (v ≤ℤ pos 100) × (pos 100 ≡ v → text_leq "silu.fast" c.id ≡ true))
select-best_example =
    select-best deterministic_cost_model request target both {report = report} {s = chosen}
      selects_both refl

select_total_example :
    (r : SelectionReport) × (select deterministic_cost_model both request target ≡ ok r)
select_total_example = select_total deterministic_cost_model request target both scores

require_exact_example :
    ((s : SelectedKernelCandidate) × (require deterministic_cost_model drafts request target ≡ ok s)
      × IsBest deterministic_cost_model request target drafts s)
    ⊎ ((rejected : List CandidateRejection) × (require deterministic_cost_model drafts request
            target
          ≡ err (no_production_kernel request rejected))
        × ((c : KernelCandidateDescriptor)
            → Memᴰ c drafts.candidates
            → c.operation ≡ silu
            → (¬ IsEligible c request target)
              × ((x : CandidateRejection) × Memᴰ x rejected × Rejects request target c x)))
require_exact_example = require_exact deterministic_cost_model request target drafts scores

select_order_irrelevant_example :
    ◌≡◌ {A = Option SelectedKernelCandidate} (some chosen) (some chosen)
select_order_irrelevant_example =
    select_order_irrelevant deterministic_cost_model request target both swapped {report = report}
      {report' = report} both-HasUniqueIds swap swap_back selects_both selects_swapped

register-duplicate_example :
    (register both slow ≡ err (duplicate_candidate "silu.slow"))
    ↔ ((d : KernelCandidateDescriptor) × Memᴰ d (slow ∷ fast ∷ []) × (d.id ≡ "silu.slow"))
register-duplicate_example = register-duplicate both slow

slow-Apart :
    (c d : KernelCandidateDescriptor)
    → Memᴰ c (slow ∷ [])
    → Memᴰ d builtin_semantic_candidates
    → c.id ≢ d.id
slow-Apart c d (Memᴰ.head p) m =
    let apart = distinct-Apart slow builtin_semantic_candidates refl m in rw p apart
slow-Apart c d (Memᴰ.tail p) m = elim p [ ]

register_builtin-Supplies_example :
    (reg' : KernelRegistry) × (register_builtin_semantic_candidates
        (record { candidates = slow ∷ [] })
      ≡ ok reg')
    × HasUniqueIds reg'.candidates
    × (reg'.candidates ≡ slow ∷ builtin_semantic_candidates)
    × ((c : KernelCandidateDescriptor) × Memᴰ c reg'.candidates
        × (c.operation ≡ silu)
        × IsEligible c request target)
register_builtin-Supplies_example =
    register_builtin-Supplies (record { candidates = slow ∷ [] }) request target one-HasUniqueIds
      slow-Apart refl refl refl refl
