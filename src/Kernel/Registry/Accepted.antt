-- ===== src/Kernel/Registry/Accepted.antt =====
-- Which candidates `select` accepts, and that it never panics.
use dyninfer.Prelude.{
  ◌≡◌, ◌≢◌, ◌⊎◌, refl, ap, ◌∙◌, true, false, List, [], ◌∷◌, Memᴰ, All, All-imp, Result, ok, err,
  is_empty, arith, Bool-cases, inl, inr,
}
use dyninfer.Prelude.Eq.{eq}
use dyninfer.Prelude.Int.{ℤ}
use dyninfer.Core.Scalar.{ScalarType}
use dyninfer.Core.Target.{TargetProfile}
use dyninfer.Kernel.{
  operation_eq, operation_beq_iff, KernelCandidateDescriptor, KernelRequest,
  SelectedKernelCandidate, CandidateRejectionReason, is_precision_sensitive,
}
use dyninfer.Kernel.Reasons.{rejection_reasons}
use dyninfer.Kernel.Reasons.Eligible.{IsEligible, rejection_reasons-eq-nil}
use dyninfer.Kernel.Registry.{
  KernelError, KernelCostModel, index_zero, accumulator_of, accept, Judged, judge, judge_all,
}

index_zero-ok :
    (xs : List ScalarType) → is_empty xs ≡ false → (x : ScalarType) × (index_zero xs ≡ ok x)
index_zero-ok [] h = absurd (cc)
index_zero-ok (x ∷ xs) h = (x, refl)

accumulator_of-ok :
    (c : KernelCandidateDescriptor) (r : KernelRequest)
    → is_empty c.accumulator_types ≡ false
    → (x : ScalarType) × (accumulator_of c r ≡ ok x)
accumulator_of-ok c r h = elim (Bool-cases (is_precision_sensitive r.operation)) [
  | inl e ↦ (r.precision_policy.sensitive_internal_type, rw e)
  | inr e ↦ let (x, p) = index_zero-ok c.accumulator_types h in (x, rw e p)
]

module _ (cost : KernelCostModel) (r : KernelRequest) (t : TargetProfile) where
  -- the candidate `c` of the list is accepted as `s`
  pub record IsAccepted (cs : List KernelCandidateDescriptor) (s : SelectedKernelCandidate)
      : Type 0 where
    pub listed : Memᴰ s.descriptor cs
    pub operation : s.descriptor.operation ≡ r.operation
    pub eligible : rejection_reasons s.descriptor r t ≡ []
    pub accepted : accept cost r t s.descriptor ≡ ok s

  pub accept-descriptor :
      (c : KernelCandidateDescriptor) {s : SelectedKernelCandidate}
      → accept cost r t c ≡ ok s
      → s.descriptor ≡ c
  unfolding accept
  accept-descriptor c h = ground arith

  pub accept-score :
      {c : KernelCandidateDescriptor} {s : SelectedKernelCandidate}
      → accept cost r t c ≡ ok s
      → cost c r t ≡ ok s.score
  unfolding accept
  accept-score h = ground arith

  -- what one step adds to the accepted candidates
  judge-ok :
      (a : Result KernelError SelectedKernelCandidate) (c : KernelCandidateDescriptor)
      (xs : List CandidateRejectionReason) (rest : Result KernelError Judged) {j : Judged}
      → judge a c xs rest ≡ ok j
      → (k : Judged) × (rest ≡ ok k)
        × (((xs ≢ []) × (j.accepted ≡ k.accepted))
            ⊎ ((s : SelectedKernelCandidate) × (xs ≡ [])
                × (a ≡ ok s)
                × (j.accepted ≡ s ∷ k.accepted)))
  judge-ok (ok s) c [] (ok k) h = (k, refl, inr (s, refl, refl, ground arith))
  judge-ok (ok s) c [] (err e) h = absurd (cc)
  judge-ok (err e) c [] rest h = absurd (cc)
  judge-ok a c (x ∷ xs) (ok k) h = (k, refl, inl (λ e. absurd (cc), ground arith))
  judge-ok a c (x ∷ xs) (err e) h = absurd (cc)

  IsAccepted-tail :
      {cs : List KernelCandidateDescriptor} {s : SelectedKernelCandidate}
      (c : KernelCandidateDescriptor)
      → IsAccepted cs s
      → IsAccepted (c ∷ cs) s
  IsAccepted-tail c h = record {
    listed = Memᴰ.tail h.listed;
    operation = h.operation;
    eligible = h.eligible;
    accepted = h.accepted;
  }

  -- Everything accepted is an eligible candidate of the list.
  pub judge_all-accepted :
      (cs : List KernelCandidateDescriptor) {j : Judged}
      → judge_all cost r t cs ≡ ok j
      → All (IsAccepted cs) j.accepted
  unfolding judge_all
  judge_all-accepted [] {j} h = let e : j.accepted ≡ [] = ground arith in rw e tt
  judge_all-accepted (c ∷ cs) {j} h = elim (Bool-cases (eq c.operation r.operation)) [
    | inl same ↦
        let g : judge (accept cost r t c) c (rejection_reasons c r t) (judge_all cost r t cs)
            ≡ ok j =
          rw same at h in
        let (k, below, cases) = judge-ok _ c _ _ g in
        let old =
          All-imp (IsAccepted cs) (IsAccepted (c ∷ cs)) (λ s. IsAccepted-tail c) k.accepted
            (judge_all-accepted cs below) in
        elim cases [
          | inl (_, e) ↦ rw e old
          | inr (s, clean, made, e) ↦
              let d = accept-descriptor c made in
              rw e (
                record {
                  listed = Memᴰ.head d;
                  operation = rw d ((operation_beq_iff c.operation r.operation).0 same);
                  eligible = ap (λ x. rejection_reasons x r t) d ∙ clean;
                  accepted = ap (accept cost r t) d ∙ made;
                },
                old,
              )
        ]
    | inr other ↦
        let g : judge_all cost r t cs ≡ ok j = rw other at h in
        All-imp (IsAccepted cs) (IsAccepted (c ∷ cs)) (λ s. IsAccepted-tail c) j.accepted
          (judge_all-accepted cs g)
  ]

  -- Every eligible candidate of the list is accepted.
  pub mem-accepted :
      (c : KernelCandidateDescriptor) {s : SelectedKernelCandidate}
      {cs : List KernelCandidateDescriptor} {j : Judged}
      → Memᴰ c cs
      → judge_all cost r t cs ≡ ok j
      → c.operation ≡ r.operation
      → rejection_reasons c r t ≡ []
      → accept cost r t c ≡ ok s
      → Memᴰ s j.accepted
  unfolding judge_all
  mem-accepted c {s} {j = j} (Memᴰ.head {x = x} {xs = xs} e) h op clean made =
      let same : eq x.operation r.operation ≡ true =
        rw (← e) ((operation_beq_iff c.operation r.operation).1 op) in
      let g : judge (accept cost r t x) x (rejection_reasons x r t) (judge_all cost r t xs) ≡ ok j =
        rw same at h in
      let (k, below, cases) = judge-ok _ x _ _ g in
      elim cases [
        | inl (some_reason, _) ↦ absurd (some_reason (rw (← e) clean))
        | inr (s', _, made', f) ↦
            let p : s ≡ s' = cc (made, made', ap (accept cost r t) e) in rw f (Memᴰ.head p)
      ]
  mem-accepted c {j = j} (Memᴰ.tail {x = x} {xs = xs} m) h op clean made =
      elim (Bool-cases (eq x.operation r.operation)) [
        | inl same ↦
            let g : judge (accept cost r t x) x (rejection_reasons x r t) (judge_all cost r t xs)
                ≡ ok j =
              rw same at h in
            let (k, below, cases) = judge-ok _ x _ _ g in
            let old = mem-accepted c m below op clean made in
            elim cases [ inl (_, f) ↦ rw f old | inr (_, _, _, f) ↦ rw f (Memᴰ.tail old) ]
        | inr other ↦ mem-accepted c m (rw other at h) op clean made
      ]

  -- Where the cost model returns a score, an eligible candidate is accepted with that score: the type
  -- lists that are indexed are not empty.
  pub accept-eligible :
      (c : KernelCandidateDescriptor) {v : ℤ}
      → IsEligible c r t
      → cost c r t ≡ ok v
      → (s : SelectedKernelCandidate) × (accept cost r t c ≡ ok s) × (s.score ≡ v)
  unfolding accept
  accept-eligible c {v} h e =
      let (a, pa) = accumulator_of-ok c r h.types.2 in
      let (i, pi) = index_zero-ok c.input_types h.types.0 in
      let (o, po) = index_zero-ok c.output_types h.types.1 in
      (
        record {
          descriptor = c;
          input_type = i;
          output_type = o;
          activation_type = i;
          accumulator_type = a;
          score = v;
        },
        rw (pa, pi, po, e),
        refl,
      )

  judge-ok_iff :
      (c : KernelCandidateDescriptor) (xs : List CandidateRejectionReason) (k : Judged)
      → rejection_reasons c r t ≡ xs
      → (v : ℤ) × (cost c r t ≡ ok v)
      → (j : Judged) × (judge (accept cost r t c) c xs (ok k) ≡ ok j)
  judge-ok_iff c [] k e (v, p) =
      let (s, made, _) = accept-eligible c ((rejection_reasons-eq-nil c r t).0 e) p in
      (record k { accepted = s ∷ k.accepted }, rw made)
  judge-ok_iff c (x ∷ xs) k e p =
      (record k { rejected = record { candidate_id = c.id; reasons = x ∷ xs } ∷ k.rejected }, refl)

  -- Where the cost model always returns a score, so does the judgement of every list.
  pub judge_all-ok :
      ((c : KernelCandidateDescriptor) → (v : ℤ) × (cost c r t ≡ ok v))
      → (cs : List KernelCandidateDescriptor) → (j : Judged) × (judge_all cost r t cs ≡ ok j)
  unfolding judge_all
  judge_all-ok scores [] = (record { accepted = []; rejected = [] }, refl)
  judge_all-ok scores (c ∷ cs) =
      let (k, below) = judge_all-ok scores cs in
      elim (Bool-cases (eq c.operation r.operation)) [
        | inl same ↦ rw (same, below) (judge-ok_iff c (rejection_reasons c r t) k refl (scores c))
        | inr other ↦ (k, rw other below)
      ]
