-- ===== src/Quantization/Coverage/Requests.antt =====
-- What the request of an operation holds in the dry run of crates/dyninfer-quantization/src/lib.rs: the slot's
-- binding and what is asked of a kernel for it.
use dyninfer.Prelude.{
  ℕ, ◌≡◌, ◌≢◌, refl, ap, ◌∙◌, String, Bool-cases, none, some, List, [], ◌∷◌, ◌++◌, All, inl, inr,
  ◌⊎◌, str_eq, str_eq_iff, map, first, All-mem, arith,
}
use dyninfer.Prelude.Assoc.{get}
use dyninfer.Core.Ir.{ExecutionMode, PrecisionPolicy}
use dyninfer.Core.Graph.{ArchitectureOperation}
use dyninfer.Core.Types.{ParameterBinding, BindingTransform}
use dyninfer.Checkpoint.Catalog.{LogicalParameter}
use dyninfer.Kernel.{ParameterOrientation, KernelRequest}
use dyninfer.Quantization.{physical_encoding_key}
use dyninfer.Quantization.Stored.{StoredAs}
use dyninfer.Quantization.Coverage.{bindings_by_slot, from_semantic, orientation_of}
use dyninfer.Quantization.Coverage.Slots.{Bound}

-- the last of the bindings for the slot
pub record LastFor (bindings : List ParameterBinding) (slot : String) (b : ParameterBinding)
    : Type 0 where
  pub before : List ParameterBinding
  pub after : List ParameterBinding
  pub parts : bindings ≡ before ++ b ∷ after
  pub slot_agrees : b.slot_id ≡ slot
  pub none_later : All (λ c. c.slot_id ≢ slot) after

-- a transposed orientation is asked for exactly where the binding transposes
pub record Turned (t : BindingTransform) (o : ParameterOrientation) : Type 0 where
  pub transposed :
      (axes : List ℕ)
      → t ≡ BindingTransform.logical_transpose axes
      → o ≡ ParameterOrientation.logical_transpose
  pub otherwise :
      ((axes : List ℕ) → t ≢ BindingTransform.logical_transpose axes)
      → o ≡ ParameterOrientation.native

-- An operation with a parameter: its first slot's binding and catalog parameter, the parameter stored as its
-- encoding says, and a request for that encoding and for the binding's shape, orientation and components.
pub record Weighted (parameters : List LogicalParameter) (bindings : List ParameterBinding)
    (slots : List String) (request : KernelRequest) : Type 0 where
  pub slot : String
  pub parameter : LogicalParameter
  pub bound : ParameterBinding
  pub first_slot : first slots ≡ some slot
  pub in_catalog : Bound parameters bindings slot parameter
  pub stored : StoredAs parameter.encoding parameter
  pub last_binding : LastFor bindings slot bound
  pub encoding : request.encoding ≡ some (physical_encoding_key parameter.encoding)
  pub shape : request.logical_shape ≡ some bound.logical_shape
  pub orientation : Turned bound.transform request.orientation
  pub components : request.checkpoint_component_keys ≡ map (λ c. c.external_key) bound.components

-- an operation without parameters, and a request that asks for no storage
pub record Weightless (slots : List String) (request : KernelRequest) : Type 0 where
  pub no_slots : slots ≡ []
  pub encoding : request.encoding ≡ none
  pub shape : request.logical_shape ≡ none
  pub orientation : request.orientation ≡ ParameterOrientation.native
  pub components : request.checkpoint_component_keys ≡ []

-- The request is for this operation in this mode, with the binding's storage where it has parameters.
pub record Asks {F : Type 0} (parameters : List LogicalParameter) (bindings : List ParameterBinding)
    (policy : PrecisionPolicy) (op : ArchitectureOperation F) (mode : ExecutionMode)
    (request : KernelRequest) : Type 0 where
  pub operation_id : request.operation_id ≡ op.id
  pub operation : request.operation ≡ from_semantic op.kind
  pub in_mode : request.mode ≡ mode
  pub precision : request.precision_policy ≡ policy
  pub slots : request.parameter_slots ≡ op.parameters
  pub storage :
      Weightless op.parameters request ⊎ Weighted parameters bindings op.parameters request

pub orientation_of-Turned : (b : ParameterBinding) → Turned b.transform (orientation_of (some b))
orientation_of-Turned b = at b.transform
  where
    at :
        (t : BindingTransform)
        → Turned t (elim t [
          | BindingTransform.logical_transpose axes ↦ ParameterOrientation.logical_transpose
          | _ ↦ ParameterOrientation.native
        ])
    at (BindingTransform.logical_transpose axes) = record {
      transposed = λ a e. refl;
      otherwise = λ h. absurd (h axes refl);
    }
    at BindingTransform.identity = record { transposed = λ a e. cc; otherwise = λ h. refl }
    at BindingTransform.rename = record { transposed = λ a e. cc; otherwise = λ h. refl }
    at BindingTransform.alias = record { transposed = λ a e. cc; otherwise = λ h. refl }
    at (BindingTransform.reshape x) = record { transposed = λ a e. cc; otherwise = λ h. refl }
    at (BindingTransform.slice x) = record { transposed = λ a e. cc; otherwise = λ h. refl }
    at (BindingTransform.concatenate x) = record { transposed = λ a e. cc; otherwise = λ h. refl }
    at (BindingTransform.split x y) = record { transposed = λ a e. cc; otherwise = λ h. refl }
    at (BindingTransform.permute x) = record { transposed = λ a e. cc; otherwise = λ h. refl }

module _ {V : Type 0} where
  get-append_some :
      (m n : List (String × V)) (k : String) {v : V} → get m k ≡ some v → get (m ++ n) k ≡ some v
  unfolding get
  get-append_some [] n k h = absurd (cc)
  get-append_some ((l, w) ∷ m) n k {v} h = elim (Bool-cases (str_eq l k)) [
    | inl q ↦ ground arith
    | inr q ↦ rw q (get-append_some m n k (ground arith))
  ]

  get-append_none :
      (m n : List (String × V)) (k : String) → get m k ≡ none → get (m ++ n) k ≡ get n k
  unfolding get
  get-append_none [] n k h = refl
  get-append_none ((l, w) ∷ m) n k h = elim (Bool-cases (str_eq l k)) [
    | inl q ↦ absurd (ground arith)
    | inr q ↦ let rest = get-append_none m n k (ground arith) in ground arith
  ]

-- the map holds the last binding of a slot, or nothing where no binding has the slot
bindings_by_slot-cases :
    (bs : List ParameterBinding) (slot : String)
    → ((get (bindings_by_slot bs) slot ≡ none) × All (λ c. c.slot_id ≢ slot) bs)
      ⊎ ((b : ParameterBinding) × (get (bindings_by_slot bs) slot ≡ some b) × LastFor bs slot b)
unfolding bindings_by_slot get
bindings_by_slot-cases [] slot = inl (refl, tt)
bindings_by_slot-cases (x ∷ bs) slot = elim (bindings_by_slot-cases bs slot) [
  | inr (b, e, l) ↦ inr (
    b,
    get-append_some (bindings_by_slot bs) _ slot e,
    record {
      before = x ∷ l.before;
      after = l.after;
      parts = ap (λ r. x ∷ r) l.parts;
      slot_agrees = l.slot_agrees;
      none_later = l.none_later;
    },
  )
  | inl (e, absent) ↦
      let same = get-append_none (bindings_by_slot bs) ((x.slot_id, x) ∷ []) slot e in
      elim (Bool-cases (str_eq x.slot_id slot)) [
        | inl q ↦ inr (
          x,
          same ∙ rw q refl,
          record {
            before = [];
            after = bs;
            parts = refl;
            slot_agrees = (str_eq_iff x.slot_id slot).0 q;
            none_later = absent;
          },
        )
        | inr q ↦ inl (
          same ∙ rw q refl,
          (λ k. let t = (str_eq_iff x.slot_id slot).1 k in absurd (ground arith), absent),
        )
      ]
]

-- a bound slot has a last binding
pub Bound-LastFor :
    {parameters : List LogicalParameter} (bs : List ParameterBinding) (slot : String)
    {p : LogicalParameter}
    → Bound parameters bs slot p
    → (b : ParameterBinding) × (get (bindings_by_slot bs) slot ≡ some b) × LastFor bs slot b
Bound-LastFor bs slot h = elim (bindings_by_slot-cases bs slot) [
  | inr found ↦ found
  | inl (e, absent) ↦
      absurd (All-mem (λ (c : ParameterBinding). c.slot_id ≢ slot) absent h.listed h.slot_agrees)
]
