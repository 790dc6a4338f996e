-- ===== src/Kernel/Reasons.antt =====
-- `rejection_reasons` of crates/dyninfer-kernel-registry/src/lib.rs: the checks in their order.
pub mod Eligible
use dyninfer.Prelude.{
  ℕ, ◌%◌, String, Bool, true, false, not, ◌&&◌, ◌||◌, Option, none, some, List, [], ◌∷◌, ◌++◌, any,
  is_empty, get_elem?, str_eq, ◌==◌, if◌then◌else◌,
}
use dyninfer.Prelude.Eq.{eq, contains, nat_eq, string_eq, option_eq}
use dyninfer.Core.Scalar.{ScalarType, scalar_eq}
use dyninfer.Core.Shape.{Shape, rank}
use dyninfer.Core.Ir.{mode_eq}
use dyninfer.Core.Target.{TargetProfile}
use dyninfer.Kernel.{
  encoding_eq, orientation_eq, is_precision_sensitive, AxisMultiple, is_production,
  KernelCandidateDescriptor, KernelRequest, CandidateRejectionReason, encoding_mismatch,
  not_production_ready, mode_mismatch, backend_mismatch, architecture_mismatch,
  missing_target_feature, rank_mismatch, axis_not_divisible, orientation_mismatch,
  missing_type_choice, precision_floor,
}

-- `if !b { reasons.push(r); }`
abbrev pub unless : Bool → CandidateRejectionReason → List CandidateRejectionReason
unless true r = []
unless false r = r ∷ []

abbrev pub backend_matches : KernelCandidateDescriptor → TargetProfile → Bool
backend_matches c t = any (λ b. str_eq b "any" || str_eq b t.driver) c.target.backends

-- `is_some_and(|architecture| exact_architectures.contains(architecture))`
abbrev pub architecture_listed : List String → Option String → Bool
architecture_listed exact none = false
architecture_listed exact (some a) = contains exact a

abbrev pub architecture_matches : KernelCandidateDescriptor → TargetProfile → Bool
architecture_matches c t =
    is_empty c.target.exact_architectures
    || architecture_listed c.target.exact_architectures t.architecture

unfoldable pub feature_reasons : List String → List String → List CandidateRejectionReason
feature_reasons features [] = []
feature_reasons features (f ∷ fs) =
    unless (contains features f) (missing_target_feature f) ++ feature_reasons features fs

unfoldable pub rank_reasons : Option Shape → Option ℕ → List CandidateRejectionReason
rank_reasons none expected = []
rank_reasons (some s) none = []
rank_reasons (some s) (some expected) =
    unless (rank s == expected) (rank_mismatch expected (rank s))

-- one axis: an axis that the shape lacks is passed over
abbrev pub axis_reason : AxisMultiple → Option ℕ → List CandidateRejectionReason
axis_reason m none = []
axis_reason m (some dimension) =
    unless (not (m.multiple_of == 0) && dimension % m.multiple_of == 0)
      (axis_not_divisible m.axis dimension m.multiple_of)

unfoldable pub multiple_reasons : List ℕ → List AxisMultiple → List CandidateRejectionReason
multiple_reasons dims [] = []
multiple_reasons dims (m ∷ ms) = axis_reason m (get_elem? dims m.axis) ++ multiple_reasons dims ms

unfoldable pub axis_reasons : Option Shape → List AxisMultiple → List CandidateRejectionReason
unfolding multiple_reasons
axis_reasons none ms = []
axis_reasons (some s) ms = multiple_reasons s.dims ms

unfoldable pub type_reasons :
    KernelCandidateDescriptor → KernelRequest → List CandidateRejectionReason
type_reasons c r =
    if is_empty c.input_types || is_empty c.output_types || is_empty c.accumulator_types
    then missing_type_choice ∷ []
    else unless
        (not (is_precision_sensitive r.operation)
          || contains c.accumulator_types r.precision_policy.sensitive_internal_type)
        (precision_floor r.precision_policy.sensitive_internal_type c.accumulator_types)

unfoldable pub rejection_reasons :
    KernelCandidateDescriptor → KernelRequest → TargetProfile → List CandidateRejectionReason
unfolding feature_reasons rank_reasons axis_reasons type_reasons
rejection_reasons c r t =
    unless (eq c.encoding r.encoding) encoding_mismatch
    ++ (unless (is_production c.readiness) not_production_ready
        ++ (unless (contains c.modes r.mode) mode_mismatch
            ++ (unless (backend_matches c t) (backend_mismatch t.driver)
                ++ (unless (architecture_matches c t) (architecture_mismatch t.architecture)
                    ++ (feature_reasons t.features c.target.required_features
                        ++ (rank_reasons r.logical_shape c.shape.logical_rank
                            ++ (axis_reasons r.logical_shape c.shape.axis_multiples
                                ++ (unless
                                      (is_empty c.orientations
                                        || contains c.orientations r.orientation)
                                      orientation_mismatch
                                    ++ type_reasons c r))))))))
