-- ===== src/Kernel/Registry/Selection.antt =====
-- What `select` of crates/dyninfer-kernel-registry/src/lib.rs chooses.
use mathlib.Core.Path.{subst}
use dyninfer.Prelude.{
  ◌≡◌, ◌∙◌, sym, true, false, none, some, Memᴰ, All-mem, ok, >>=-eq-ok, first, arith, text_leq,
  text_leq_total, text_leq_trans,
}
use dyninfer.Prelude.Int.{ℤ, ◌≤ℤ◌}
use dyninfer.Prelude.Sort.{sort, first-sort, first-sort-none}
use dyninfer.Core.Target.{TargetProfile}
use dyninfer.Kernel.{
  KernelCandidateDescriptor, KernelRequest, SelectedKernelCandidate, SelectionReport,
}
use dyninfer.Kernel.Reasons.Eligible.{IsEligible, rejection_reasons-eq-nil}
use dyninfer.Kernel.Registry.{
  KernelCostModel, KernelRegistry, Judged, judge_all, ranks_before, select,
}
use dyninfer.Kernel.Registry.Accepted.{
  IsAccepted, judge_all-accepted, mem-accepted, accept-descriptor, accept-score, accept-eligible,
  judge_all-ok,
}

ranks_before_total :
    (a b : SelectedKernelCandidate) → ranks_before a b ≡ false → ranks_before b a ≡ true
unfolding ranks_before
ranks_before_total a b h = ground (arith, text_leq_total a.descriptor.id b.descriptor.id)

ranks_before_trans :
    (a b c : SelectedKernelCandidate)
    → ranks_before a b ≡ true
    → ranks_before b c ≡ true
    → ranks_before a c ≡ true
unfolding ranks_before
ranks_before_trans a b c h k =
    ground (arith, text_leq_trans a.descriptor.id b.descriptor.id c.descriptor.id)

-- `a` has the higher score, or the same score and an id that is not greater.
abbrev pub Precedes : SelectedKernelCandidate → SelectedKernelCandidate → Type 0
Precedes a b =
    (b.score ≤ℤ a.score) × (a.score ≡ b.score → text_leq a.descriptor.id b.descriptor.id ≡ true)

Precedes-ranks : (a b : SelectedKernelCandidate) → ranks_before a b ≡ true → Precedes a b
unfolding ranks_before
Precedes-ranks a b h = (ground arith, λ e. ground arith)

module _ (cost : KernelCostModel) (r : KernelRequest) (t : TargetProfile) where
  -- the judged candidates behind a report
  select-ok :
      (reg : KernelRegistry) {report : SelectionReport}
      → select cost reg r t ≡ ok report
      → (j : Judged) × (judge_all cost r t reg.candidates ≡ ok j)
        × (report.selected ≡ first (sort ranks_before j.accepted))
        × (report.rejected ≡ j.rejected)
  unfolding select
  select-ok reg {report} h =
      let (j, judged, made) = >>=-eq-ok (judge_all cost r t reg.candidates) _ h in
      (j, judged, ground arith, ground arith)

  pub selected-IsAccepted :
      (reg : KernelRegistry) {report : SelectionReport} {s : SelectedKernelCandidate}
      → select cost reg r t ≡ ok report
      → report.selected ≡ some s
      → IsAccepted cost r t reg.candidates s
  selected-IsAccepted reg h e =
      let (j, judged, f, _) = select-ok reg h in
      let (m, _) =
        first-sort ranks_before ranks_before_total ranks_before_trans j.accepted (sym f ∙ e) in
      All-mem (IsAccepted cost r t reg.candidates)
        (judge_all-accepted cost r t reg.candidates judged) m

  -- A selected candidate is registered for the operation and eligible, carries the score of the cost
  -- model, and precedes every other eligible candidate of the operation: none has a higher score, and
  -- one with the same score does not have a lesser id.
  pub select-best :
      (reg : KernelRegistry) {report : SelectionReport} {s : SelectedKernelCandidate}
      → select cost reg r t ≡ ok report
      → report.selected ≡ some s
      → (Memᴰ s.descriptor reg.candidates
          × (s.descriptor.operation ≡ r.operation)
          × IsEligible s.descriptor r t
          × (cost s.descriptor r t ≡ ok s.score))
        × ((c : KernelCandidateDescriptor) (v : ℤ)
            → Memᴰ c reg.candidates
            → c.operation ≡ r.operation
            → IsEligible c r t
            → cost c r t ≡ ok v
            → (v ≤ℤ s.score) × (s.score ≡ v → text_leq s.descriptor.id c.id ≡ true))
  select-best reg {report} {s} h e =
      let (j, judged, f, _) = select-ok reg h in
      let (m, least) =
        first-sort ranks_before ranks_before_total ranks_before_trans j.accepted (sym f ∙ e) in
      let a =
        All-mem (IsAccepted cost r t reg.candidates)
          (judge_all-accepted cost r t reg.candidates judged) m in
      (
        (
          a.listed,
          a.operation,
          (rejection_reasons-eq-nil s.descriptor r t).0 a.eligible,
          accept-score cost r t a.accepted,
        ),
        λ c v k op ok_c scored.
            let (b, made, same) = accept-eligible cost r t c ok_c scored in
            let d = accept-descriptor cost r t c made in
            let n =
              mem-accepted cost r t c k judged op ((rejection_reasons-eq-nil c r t).1 ok_c) made in
            let p = Precedes-ranks s b (All-mem (λ y. ranks_before s y ≡ true) least n) in
            (
              subst (λ w. w ≤ℤ s.score) same p.0,
              λ q. subst (λ x. text_leq s.descriptor.id x.id ≡ true) d (p.1 (q ∙ sym same)),
            ),
      )

  pub select-none :
      (reg : KernelRegistry) {report : SelectionReport} (c : KernelCandidateDescriptor) {v : ℤ}
      → select cost reg r t ≡ ok report
      → report.selected ≡ none
      → Memᴰ c reg.candidates
      → c.operation ≡ r.operation
      → cost c r t ≡ ok v
      → ¬ IsEligible c r t
  select-none reg c h e m op scored good =
      let (j, judged, f, _) = select-ok reg h in
      let (b, made, _) = accept-eligible cost r t c good scored in
      first-sort-none ranks_before ranks_before_total ranks_before_trans j.accepted (sym f ∙ e)
        (mem-accepted cost r t c m judged op ((rejection_reasons-eq-nil c r t).1 good) made)

  -- Where the cost model always returns a score, `select` returns a report: it does not panic.
  pub select_total :
      (reg : KernelRegistry)
      → ((c : KernelCandidateDescriptor) → (v : ℤ) × (cost c r t ≡ ok v))
      → (report : SelectionReport) × (select cost reg r t ≡ ok report)
  unfolding select
  select_total reg scores =
      let (j, judged) = judge_all-ok cost r t scores reg.candidates in
      (record { selected = first (sort ranks_before j.accepted); rejected = j.rejected }, rw judged)
