-- ===== src/Kernel/Registry.antt =====
-- `KernelRegistry`, the cost model and the selection of crates/dyninfer-kernel-registry/src/lib.rs.
-- An index out of range is a panic, which is an outcome of its own beside the errors.
pub mod Accepted
pub mod Selection
pub mod Require
pub mod Registration
pub mod Determinism
use dyninfer.Prelude.{
  ℕ, String, Bool, true, false, ◌||◌, Option, none, some, List, [], ◌∷◌, ◌++◌, any, first, is_empty,
  Result, ok, err, ◌>>=◌, ok_or, str_eq, text_leq, if◌then◌else◌,
}
use dyninfer.Prelude.Int.{ℤ, pos, ◌+ℤ◌, leb_ℤ}
use dyninfer.Prelude.Eq.{eq}
use dyninfer.Prelude.Sort.{sort}
use dyninfer.Core.Scalar.{ScalarType}
use dyninfer.Core.Target.{TargetProfile}
use dyninfer.Kernel.{
  operation_eq, is_precision_sensitive, KernelCandidateDescriptor, KernelRequest,
  CandidateRejectionReason, CandidateRejection, SelectedKernelCandidate, SelectionReport,
}
use dyninfer.Kernel.Reasons.{rejection_reasons}

pub data KernelError : Type 0 where
  duplicate_candidate : String → KernelError
  no_production_kernel : KernelRequest → List CandidateRejection → KernelError
  cost_model_error : String → KernelError
  index_panic : KernelError

-- `trait KernelCostModel`
abbrev pub KernelCostModel : Type 0
KernelCostModel = KernelCandidateDescriptor → KernelRequest → TargetProfile → Result KernelError ℤ

-- `DeterministicCostModel::score`. The sum is exact: it leaves `i64` only for a score within 1000 of
-- its end.
unfoldable pub deterministic_cost_model : KernelCostModel
deterministic_cost_model c r t =
    let exact_backend_bonus =
      if any (λ b. str_eq b t.driver) c.target.backends then pos 1000 else pos 0 in
    ok (c.deterministic_score +ℤ exact_backend_bonus)

pub record KernelRegistry : Type 0 where
  pub candidates : List KernelCandidateDescriptor

abbrev pub new : KernelRegistry
new = record { candidates = [] }

unfoldable pub register :
    KernelRegistry → KernelCandidateDescriptor → Result KernelError KernelRegistry
register reg c =
    if any (λ e. str_eq e.id c.id) reg.candidates
    then err (duplicate_candidate c.id)
    else ok (record { candidates = reg.candidates ++ c ∷ [] })

-- `v[0]`
abbrev pub index_zero : List ScalarType → Result KernelError ScalarType
index_zero xs = ok_or (first xs) index_panic

-- `policy.sensitive_internal_type` or `candidate.accumulator_types[0]`
abbrev pub accumulator_of :
    KernelCandidateDescriptor → KernelRequest → Result KernelError ScalarType
accumulator_of c r =
    if is_precision_sensitive r.operation
    then ok r.precision_policy.sensitive_internal_type
    else index_zero c.accumulator_types

-- the record of an accepted candidate
unfoldable pub accept :
    KernelCostModel
    → KernelRequest
    → TargetProfile
    → KernelCandidateDescriptor
    → Result KernelError SelectedKernelCandidate
accept cost r t c = do
  accumulator_type ← accumulator_of c r
  input_type ← index_zero c.input_types
  output_type ← index_zero c.output_types
  score ← cost c r t
  ok (record {
    descriptor = c;
    input_type = input_type;
    output_type = output_type;
    activation_type = input_type;
    accumulator_type = accumulator_type;
    score = score;
  })

-- the vectors `accepted` and `rejected`
pub record Judged : Type 0 where
  pub accepted : List SelectedKernelCandidate
  pub rejected : List CandidateRejection

-- one candidate of the request's operation, before those that follow it
abbrev pub judge :
    Result KernelError SelectedKernelCandidate
    → KernelCandidateDescriptor
    → List CandidateRejectionReason
    → Result KernelError Judged
    → Result KernelError Judged
judge accepted c [] rest = do s ← accepted; j ← rest; ok (record j { accepted = s ∷ j.accepted })
judge accepted c (x ∷ xs) rest = do
  j ← rest
  ok (record j { rejected = record { candidate_id = c.id; reasons = x ∷ xs } ∷ j.rejected })

unfoldable pub judge_all :
    KernelCostModel
    → KernelRequest
    → TargetProfile
    → List KernelCandidateDescriptor
    → Result KernelError Judged
unfolding accept rejection_reasons
judge_all cost r t [] = ok (record { accepted = []; rejected = [] })
judge_all cost r t (c ∷ cs) =
    let rest = judge_all cost r t cs in
    if eq c.operation r.operation
    then judge (accept cost r t c) c (rejection_reasons c r t) rest
    else rest

-- the comparison of `sort_by`: the higher score first, then the lesser id
unfoldable pub ranks_before : SelectedKernelCandidate → SelectedKernelCandidate → Bool
unfolding text_leq
ranks_before a b =
    if leb_ℤ a.score b.score
    then (if leb_ℤ b.score a.score then text_leq a.descriptor.id b.descriptor.id else false)
    else true

unfoldable pub select :
    KernelCostModel
    → KernelRegistry
    → KernelRequest
    → TargetProfile
    → Result KernelError SelectionReport
unfolding judge_all ranks_before sort
select cost reg r t = do
  j ← judge_all cost r t reg.candidates
  ok (record { selected = first (sort ranks_before j.accepted); rejected = j.rejected })

abbrev pub selected_or :
    KernelRequest
    → SelectionReport
    → Option SelectedKernelCandidate
    → Result KernelError SelectedKernelCandidate
selected_or r report none = err (no_production_kernel r report.rejected)
selected_or r report (some s) = ok s

unfoldable pub require :
    KernelCostModel
    → KernelRegistry
    → KernelRequest
    → TargetProfile
    → Result KernelError SelectedKernelCandidate
unfolding select
require cost reg r t = do report ← select cost reg r t; selected_or r report report.selected
