-- ===== src/Core/Ir.antt =====
-- crates/dyninfer-core/src/ir.rs: execution modes, the precision policy, and the record of a
-- selected kernel.
use dyninfer.Prelude.{ℕ, String, List, Bool, true, false, ◌≡◌, ◌↔◌, refl}
use dyninfer.Prelude.Eq.{Eq}
use dyninfer.Core.Scalar.{ScalarType, f32}

pub data ExecutionMode : Type 0 where
  prefill decode : ExecutionMode

abbrev pub mode_beq : ExecutionMode → ExecutionMode → Bool
mode_beq prefill prefill = true
mode_beq decode decode = true
mode_beq _ _ = false

pub mode_beq_iff : (a b : ExecutionMode) → (mode_beq a b ≡ true) ↔ (a ≡ b)
mode_beq_iff prefill prefill = (λ h. refl, λ h. refl)
mode_beq_iff prefill decode = (λ h. cc, λ h. cc)
mode_beq_iff decode prefill = (λ h. cc, λ h. cc)
mode_beq_iff decode decode = (λ h. refl, λ h. refl)

instance abbrev pub mode_eq : Eq ExecutionMode
mode_eq = record { beq = mode_beq; beq_iff = mode_beq_iff }

pub record PrecisionPolicy : Type 0 where
  pub id : String
  pub version : ℕ
  pub sensitive_internal_type : ScalarType

abbrev pub conservative_sensitive_ops : PrecisionPolicy
conservative_sensitive_ops = record {
  id = "conservative_sensitive_ops";
  version = 1;
  sensitive_internal_type = f32;
}

pub record SelectedKernel : Type 0 where
  pub operation_id : String
  pub mode : ExecutionMode
  pub kernel_id : String
  pub lowering_id : String
  pub parameter_slots : List String
  pub input_type : ScalarType
  pub output_type : ScalarType
  pub activation_type : ScalarType
  pub accumulator_type : ScalarType
