-- ===== src/Kernel/Registry/Determinism.antt =====
-- The selection of crates/dyninfer-kernel-registry/src/lib.rs does not depend on the order in which
-- the candidates were registered.
use dyninfer.Prelude.{
  ◌≡◌, sym, ap, ◌∙◌, some, Memᴰ, ok, inl, inr, Option-cases, arith, text_leq_antisym,
}
use dyninfer.Prelude.Int.{ℤ, ◌≤ℤ◌}
use dyninfer.Core.Target.{TargetProfile}
use dyninfer.Kernel.{KernelCandidateDescriptor, KernelRequest, SelectionReport}
use dyninfer.Kernel.Registry.{KernelCostModel, KernelRegistry, select, accept}
use dyninfer.Kernel.Registry.Registration.{HasUniqueIds}
use dyninfer.Kernel.Registry.Selection.{select-best, select-none, selected-IsAccepted}

≤ℤ_antisym : (a b : ℤ) → a ≤ℤ b → b ≤ℤ a → a ≡ b
≤ℤ_antisym a b h k = ground arith

module _ (cost : KernelCostModel) (r : KernelRequest) (t : TargetProfile) where
  -- Two registries that hold the same candidates, under unique ids, select the same candidate with the
  -- same types and score, or both select none.
  pub select_order_irrelevant :
      (reg reg' : KernelRegistry) {report report' : SelectionReport}
      → HasUniqueIds reg.candidates
      → ((c : KernelCandidateDescriptor) → Memᴰ c reg.candidates → Memᴰ c reg'.candidates)
      → ((c : KernelCandidateDescriptor) → Memᴰ c reg'.candidates → Memᴰ c reg.candidates)
      → select cost reg r t ≡ ok report
      → select cost reg' r t ≡ ok report'
      → report.selected ≡ report'.selected
  select_order_irrelevant reg reg' {report} {report'} unique there back h h' =
      elim (Option-cases report.selected) [
        | inl e ↦ elim (Option-cases report'.selected) [
          | inl e' ↦ e ∙ sym e'
          | inr (s', e') ↦
              let ((m, op, good, scored), _) = select-best cost r t reg' h' e' in
              absurd (select-none cost r t reg s'.descriptor h e (back _ m) op scored good)
        ]
        | inr (s, e) ↦ elim (Option-cases report'.selected) [
          | inl e' ↦
              let ((m, op, good, scored), _) = select-best cost r t reg h e in
              absurd (select-none cost r t reg' s.descriptor h' e' (there _ m) op scored good)
          | inr (s', e') ↦
              let ((m, op, good, scored), best) = select-best cost r t reg h e in
              let ((m', op', good', scored'), best') = select-best cost r t reg' h' e' in
              let (below, first_id) = best s'.descriptor s'.score (back _ m') op' good' scored' in
              let (below', first_id') = best' s.descriptor s.score (there _ m) op good scored in
              let same = ≤ℤ_antisym s.score s'.score below' below in
              let d =
                unique _ _ m (back _ m')
                  (text_leq_antisym _ _ (first_id same) (first_id' (sym same))) in
              let a = selected-IsAccepted cost r t reg h e in
              let a' = selected-IsAccepted cost r t reg' h' e' in
              e ∙ ap some (cc (a.accepted, a'.accepted, ap (accept cost r t) d)) ∙ sym e'
        ]
      ]
