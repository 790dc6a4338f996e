-- ===== src/Kernel/Registry/Require.antt =====
-- What `require` of crates/dyninfer-kernel-registry/src/lib.rs returns, on each outcome.
use dyninfer.Prelude.{
  ◌≡◌, ◌≢◌, ◌⊎◌, refl, ap, sym, ◌∙◌, true, Option-cases, List, [], ◌∷◌, Memᴰ, Result, ok, err,
  >>=-eq-ok, arith, Bool-cases, inl, inr, text_leq,
}
use dyninfer.Prelude.Eq.{eq}
use dyninfer.Prelude.Int.{ℤ, ◌≤ℤ◌}
use dyninfer.Core.Target.{TargetProfile}
use dyninfer.Kernel.{
  operation_eq, operation_beq_iff, KernelCandidateDescriptor, KernelRequest, CandidateRejection,
  CandidateRejectionReason, SelectedKernelCandidate, SelectionReport,
}
use dyninfer.Kernel.Reasons.{rejection_reasons}
use dyninfer.Kernel.Reasons.Eligible.{IsEligible, rejection_reasons-eq-nil}
use dyninfer.Kernel.Registry.{
  KernelError, KernelCostModel, KernelRegistry, Judged, accept, judge, judge_all, select, require,
  no_production_kernel,
}
use dyninfer.Kernel.Registry.Selection.{select-best, select-none, select_total}

-- a candidate's id and its rejection reasons
abbrev pub Rejects :
    KernelRequest → TargetProfile → KernelCandidateDescriptor → CandidateRejection → Type 0
Rejects r t c x = (x.candidate_id ≡ c.id) × (x.reasons ≡ rejection_reasons c r t)

-- what one step adds to the rejected candidates
judge-rejected :
    (a : Result KernelError SelectedKernelCandidate) (c : KernelCandidateDescriptor)
    (xs : List CandidateRejectionReason) (rest : Result KernelError Judged) {j : Judged}
    → judge a c xs rest ≡ ok j
    → (k : Judged) × (rest ≡ ok k)
      × (((xs ≡ []) × (j.rejected ≡ k.rejected))
          ⊎ (j.rejected ≡ record { candidate_id = c.id; reasons = xs } ∷ k.rejected))
judge-rejected (ok s) c [] (ok k) h = (k, refl, inl (refl, ground arith))
judge-rejected (ok s) c [] (err e) h = absurd (cc)
judge-rejected (err e) c [] rest h = absurd (cc)
judge-rejected a c (x ∷ xs) (ok k) h = (k, refl, inr (ground arith))
judge-rejected a c (x ∷ xs) (err e) h = absurd (cc)

module _ (cost : KernelCostModel) (r : KernelRequest) (t : TargetProfile) where
  -- Every candidate of the operation that is not eligible is listed, with its reasons.
  mem-rejected :
      (c : KernelCandidateDescriptor) {cs : List KernelCandidateDescriptor} {j : Judged}
      → Memᴰ c cs
      → judge_all cost r t cs ≡ ok j
      → c.operation ≡ r.operation
      → rejection_reasons c r t ≢ []
      → (x : CandidateRejection) × Memᴰ x j.rejected × Rejects r t c x
  unfolding judge_all
  mem-rejected c {j = j} (Memᴰ.head {x = x} {xs = xs} e) h op bad =
      let same : eq x.operation r.operation ≡ true =
        rw (← e) ((operation_beq_iff c.operation r.operation).1 op) in
      let g : judge (accept cost r t x) x (rejection_reasons x r t) (judge_all cost r t xs) ≡ ok j =
        rw same at h in
      let (k, below, cases) = judge-rejected _ x _ _ g in
      elim cases [
        | inl (clean, _) ↦ absurd (bad (ap (λ y. rejection_reasons y r t) e ∙ clean))
        | inr f ↦ (
          record { candidate_id = x.id; reasons = rejection_reasons x r t },
          rw f (Memᴰ.head refl),
          (
            sym (ap (λ (y : KernelCandidateDescriptor). y.id) e),
            sym (ap (λ y. rejection_reasons y r t) e),
          ),
        )
      ]
  mem-rejected c {j = j} (Memᴰ.tail {x = x} {xs = xs} m) h op bad =
      elim (Bool-cases (eq x.operation r.operation)) [
        | inl same ↦
            let g : judge (accept cost r t x) x (rejection_reasons x r t) (judge_all cost r t xs)
                ≡ ok j =
              rw same at h in
            let (k, below, cases) = judge-rejected _ x _ _ g in
            let (y, old, named) = mem-rejected c m below op bad in
            elim cases [
              | inl (_, f) ↦ (y, rw f old, named)
              | inr f ↦ (y, rw f (Memᴰ.tail old), named)
            ]
        | inr other ↦ mem-rejected c m (rw other at h) op bad
      ]

  select-rejected :
      (reg : KernelRegistry) {report : SelectionReport} (c : KernelCandidateDescriptor)
      → select cost reg r t ≡ ok report
      → Memᴰ c reg.candidates
      → c.operation ≡ r.operation
      → ¬ IsEligible c r t
      → (x : CandidateRejection) × Memᴰ x report.rejected × Rejects r t c x
  unfolding select
  select-rejected reg {report} c h m op bad =
      let (j, judged, made) = >>=-eq-ok (judge_all cost r t reg.candidates) _ h in
      let same : j.rejected ≡ report.rejected = ground arith in
      let (x, old, named) =
        mem-rejected c m judged op (λ clean. bad ((rejection_reasons-eq-nil c r t).0 clean)) in
      (x, rw (← same) old, named)

  -- the best of the registered candidates that are eligible
  pub record IsBest (reg : KernelRegistry) (s : SelectedKernelCandidate) : Type 0 where
    pub listed : Memᴰ s.descriptor reg.candidates
    pub operation : s.descriptor.operation ≡ r.operation
    pub eligible : IsEligible s.descriptor r t
    pub scored : cost s.descriptor r t ≡ ok s.score
    pub unsurpassed :
        (c : KernelCandidateDescriptor) (v : ℤ)
        → Memᴰ c reg.candidates
        → c.operation ≡ r.operation
        → IsEligible c r t
        → cost c r t ≡ ok v
        → (v ≤ℤ s.score) × (s.score ≡ v → text_leq s.descriptor.id c.id ≡ true)

  -- Where the cost model always returns a score, `require` has two outcomes. It returns a registered candidate of
  -- the operation that is eligible, has the model's score and is not surpassed by another eligible candidate, by
  -- a higher score or by the same score and a lesser id. Or it fails for want of a kernel; then no registered
  -- candidate of the operation is eligible, and the error lists each of them with its rejection reasons.
  pub require_exact :
      (reg : KernelRegistry)
      → ((c : KernelCandidateDescriptor) → (v : ℤ) × (cost c r t ≡ ok v))
      → ((s : SelectedKernelCandidate) × (require cost reg r t ≡ ok s) × IsBest reg s)
        ⊎ ((rejected : List CandidateRejection) × (require cost reg r t
              ≡ err (no_production_kernel r rejected))
            × ((c : KernelCandidateDescriptor)
                → Memᴰ c reg.candidates
                → c.operation ≡ r.operation
                → (¬ IsEligible c r t)
                  × ((x : CandidateRejection) × Memᴰ x rejected × Rejects r t c x)))
  unfolding require
  require_exact reg scores =
      let (report, made) = select_total cost r t reg scores in
      elim (Option-cases report.selected) [
        | inl nothing ↦ inr (
          report.rejected,
          rw (made, nothing) refl,
          λ c m op.
              let bad = select-none cost r t reg c made nothing m op (scores c).1 in
              (bad, select-rejected reg c made m op bad),
        )
        | inr (s, found) ↦
            let (a, least) = select-best cost r t reg made found in
            inl (
              s,
              rw (made, found) refl,
              record {
                listed = a.0;
                operation = a.1;
                eligible = a.2;
                scored = a.3;
                unsurpassed = least;
              },
            )
      ]
