-- ===== src/Kernel.antt =====
-- crates/dyninfer-kernel-registry/src/lib.rs: the types of the kernel registry.
pub mod Reasons
pub mod Registry
pub mod Builtin
mod Tests
use dyninfer.Prelude.{
  ℕ, String, Bool, true, false, ◌&&◌, Option, List, [], ◌∷◌, ◌≡◌, ◌↔◌, refl, arith, str_eq,
  str_eq_iff, ◌==◌, ==_iff, ap,
}
use dyninfer.Prelude.Eq.{Eq}
use dyninfer.Prelude.Int.{ℤ}
use dyninfer.Core.Scalar.{ScalarType}
use dyninfer.Core.Shape.{Shape}
use dyninfer.Core.Ir.{ExecutionMode, PrecisionPolicy, SelectedKernel}

pub data KernelOperationKind : Type 0 where
  input embedding linear rms_norm per_head_rms_norm rope kv_cache_write : KernelOperationKind
  kv_cache_read attention short_conv silu multiply residual output_projection : KernelOperationKind

unfoldable pub operation_index : KernelOperationKind → ℕ
operation_index input = 0
operation_index embedding = 1
operation_index linear = 2
operation_index rms_norm = 3
operation_index per_head_rms_norm = 4
operation_index rope = 5
operation_index kv_cache_write = 6
operation_index kv_cache_read = 7
operation_index attention = 8
operation_index short_conv = 9
operation_index silu = 10
operation_index multiply = 11
operation_index residual = 12
operation_index output_projection = 13

operation_index_injective :
    (a b : KernelOperationKind) → operation_index a ≡ operation_index b → a ≡ b
unfolding operation_index
operation_index_injective a b h = ground arith

abbrev pub operation_beq : KernelOperationKind → KernelOperationKind → Bool
operation_beq a b = operation_index a == operation_index b

pub operation_beq_iff : (a b : KernelOperationKind) → (operation_beq a b ≡ true) ↔ (a ≡ b)
operation_beq_iff a b =
    (λ h. operation_index_injective a b (ground arith), λ h. ground (arith, ap operation_index h))

instance abbrev pub operation_eq : Eq KernelOperationKind
operation_eq = record { beq = operation_beq; beq_iff = operation_beq_iff }

unfoldable pub is_precision_sensitive : KernelOperationKind → Bool
is_precision_sensitive rms_norm = true
is_precision_sensitive per_head_rms_norm = true
is_precision_sensitive rope = true
is_precision_sensitive attention = true
is_precision_sensitive _ = false

pub record EncodingKey : Type 0 where
  pub id : String
  pub version : ℕ

abbrev pub encoding_beq : EncodingKey → EncodingKey → Bool
encoding_beq a b = str_eq a.id b.id && a.version == b.version

pub encoding_beq_iff : (a b : EncodingKey) → (encoding_beq a b ≡ true) ↔ (a ≡ b)
encoding_beq_iff a b = (
  λ h. ground (arith, str_eq_iff a.id b.id),
  λ h. ground (
    arith,
    str_eq_iff a.id b.id,
    ap (λ (k : EncodingKey). k.id) h,
    ap (λ (k : EncodingKey). k.version) h,
  ),
)

instance abbrev pub encoding_eq : Eq EncodingKey
encoding_eq = record { beq = encoding_beq; beq_iff = encoding_beq_iff }

pub data ParameterOrientation : Type 0 where
  native logical_transpose : ParameterOrientation

abbrev pub orientation_beq : ParameterOrientation → ParameterOrientation → Bool
orientation_beq native native = true
orientation_beq logical_transpose logical_transpose = true
orientation_beq _ _ = false

pub orientation_beq_iff : (a b : ParameterOrientation) → (orientation_beq a b ≡ true) ↔ (a ≡ b)
orientation_beq_iff native native = (λ h. refl, λ h. refl)
orientation_beq_iff native logical_transpose = (λ h. cc, λ h. cc)
orientation_beq_iff logical_transpose native = (λ h. cc, λ h. cc)
orientation_beq_iff logical_transpose logical_transpose = (λ h. refl, λ h. refl)

instance abbrev pub orientation_eq : Eq ParameterOrientation
orientation_eq = record { beq = orientation_beq; beq_iff = orientation_beq_iff }

pub record AxisMultiple : Type 0 where
  pub axis : ℕ
  pub multiple_of : ℕ

pub record ShapeConstraint : Type 0 where
  pub logical_rank : Option ℕ
  pub axis_multiples : List AxisMultiple

pub record TargetConstraint : Type 0 where
  pub backends : List String
  pub exact_architectures : List String
  pub required_features : List String

abbrev pub any_target : TargetConstraint
any_target = record { backends = "any" ∷ []; exact_architectures = []; required_features = [] }

pub data ProductionReadiness : Type 0 where
  prototype production : ProductionReadiness

abbrev pub is_production : ProductionReadiness → Bool
is_production production = true
is_production prototype = false

pub record KernelCandidateDescriptor : Type 0 where
  pub id : String
  pub operation : KernelOperationKind
  pub encoding : Option EncodingKey
  pub input_types : List ScalarType
  pub output_types : List ScalarType
  pub accumulator_types : List ScalarType
  pub shape : ShapeConstraint
  pub orientations : List ParameterOrientation
  pub target : TargetConstraint
  pub modes : List ExecutionMode
  pub lowering : String
  pub deterministic_score : ℤ
  pub readiness : ProductionReadiness
  pub notes : String

pub record KernelRequest : Type 0 where
  pub operation_id : String
  pub operation : KernelOperationKind
  pub encoding : Option EncodingKey
  pub logical_shape : Option Shape
  pub orientation : ParameterOrientation
  pub mode : ExecutionMode
  pub precision_policy : PrecisionPolicy
  pub parameter_slots : List String
  pub checkpoint_component_keys : List String

pub data CandidateRejectionReason : Type 0 where
  encoding_mismatch not_production_ready mode_mismatch : CandidateRejectionReason
  backend_mismatch : String → CandidateRejectionReason
  architecture_mismatch : Option String → CandidateRejectionReason
  missing_target_feature : String → CandidateRejectionReason
  rank_mismatch : ℕ → ℕ → CandidateRejectionReason
  axis_not_divisible : ℕ → ℕ → ℕ → CandidateRejectionReason
  orientation_mismatch missing_type_choice : CandidateRejectionReason
  precision_floor : ScalarType → List ScalarType → CandidateRejectionReason

pub record CandidateRejection : Type 0 where
  pub candidate_id : String
  pub reasons : List CandidateRejectionReason

pub record SelectedKernelCandidate : Type 0 where
  pub descriptor : KernelCandidateDescriptor
  pub input_type : ScalarType
  pub output_type : ScalarType
  pub activation_type : ScalarType
  pub accumulator_type : ScalarType
  pub score : ℤ

unfoldable pub to_manifest_record : SelectedKernelCandidate → KernelRequest → SelectedKernel
to_manifest_record s request = record {
  operation_id = request.operation_id;
  mode = request.mode;
  kernel_id = s.descriptor.id;
  lowering_id = s.descriptor.lowering;
  parameter_slots = request.parameter_slots;
  input_type = s.input_type;
  output_type = s.output_type;
  activation_type = s.activation_type;
  accumulator_type = s.accumulator_type;
}

pub record SelectionReport : Type 0 where
  pub selected : Option SelectedKernelCandidate
  pub rejected : List CandidateRejection
