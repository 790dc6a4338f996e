-- ===== src/Architecture/Typing/Steps.antt =====
-- What the appending methods of `ModelBuilder` do to the builder where they succeed, in crates/dyninfer-architecture/src/builder.rs.
use Prim.Native.String.{◌++◌ as ◌<>◌}
use dyninfer.Prelude.{ℕ, String, List, [], ◌∷◌, ◌++◌, map}
use dyninfer.Prelude.Effects.{
  Hoare, bind-Hoare, then-Hoare, get_state-Hoare, modify-Hoare, pure-Hoare, check-Hoare, from-Hoare,
}
use dyninfer.Core.Types.{ParameterRole}
use dyninfer.Core.Graph.{SemanticTensorType, GraphValue, OperationKind, ArchitectureOperation}
use dyninfer.Architecture.Builder.{
  ModelBuilder, declare_parameter, slot_of, push_slot, new_value, operation, with_output,
}
use dyninfer.Architecture.Typing.{with_step}

module _ {F : Type 0} where
  pub new_value-Hoare :
      (id : String) (t : SemanticTensorType) {Q : GraphValue → ModelBuilder F → Type 0}
      → let v : GraphValue = record { id = id; tensor_type = t } in
        Hoare (λ s. Q v (record s { values = s.values ++ v ∷ [] })) (new_value id t) Q
  unfolding new_value
  new_value-Hoare id t {Q} = bind-Hoare get_state-Hoare λ b.
      then-Hoare (from-Hoare (λ s q e. q) (check-Hoare _ _))
        (then-Hoare (modify-Hoare _) (pure-Hoare _))

  -- the operation that `operation` appends
  abbrev pub operation_of :
      String
      → OperationKind F
      → List GraphValue
      → List GraphValue
      → List String
      → ArchitectureOperation F
  operation_of id kind inputs outputs parameters = record {
    id = id;
    kind = kind;
    inputs = map (λ v. v.id) inputs;
    outputs = map (λ v. v.id) outputs;
    parameters = parameters;
  }

  pub operation-Hoare :
      (id : String) (kind : OperationKind F) (inputs outputs : List GraphValue)
      (parameters : List String) {Q : Unit {0} → ModelBuilder F → Type 0}
      → Hoare
          (λ s. Q tt (record s {
            operations = s.operations ++ operation_of id kind inputs outputs parameters ∷ [];
          }))
          (operation id kind inputs outputs parameters)
          Q
  unfolding operation
  operation-Hoare id kind inputs outputs parameters =
      bind-Hoare get_state-Hoare
        λ b. then-Hoare (from-Hoare (λ s q e. q) (check-Hoare _ _)) (modify-Hoare _)

  pub with_output-Hoare :
      (id : String) (kind : OperationKind F) (inputs : List GraphValue) (t : SemanticTensorType)
      (parameters : List String) {Q : GraphValue → ModelBuilder F → Type 0}
      → let v : GraphValue = record { id = id <> ".output"; tensor_type = t } in
        Hoare
          (λ s. Q v (with_step (v ∷ []) (operation_of id kind inputs (v ∷ []) parameters) s))
          (with_output id kind inputs t parameters)
          Q
  unfolding with_output
  with_output-Hoare id kind inputs t parameters =
      bind-Hoare (new_value-Hoare (id <> ".output") t)
        λ v. then-Hoare (operation-Hoare id kind inputs (v ∷ []) parameters) (pure-Hoare _)

  pub push_slot-Hoare :
      (name : String) (role : ParameterRole) (rank : ℕ) {Q : String → ModelBuilder F → Type 0}
      → Hoare
          (λ s. Q name (record s { slots = s.slots ++ slot_of name role rank ∷ [] }))
          (push_slot name role rank)
          Q
  unfolding push_slot declare_parameter
  push_slot-Hoare name role rank =
      then-Hoare
        (bind-Hoare get_state-Hoare
          λ b. then-Hoare (from-Hoare (λ s q e. q) (check-Hoare _ _)) (modify-Hoare _))
        (pure-Hoare _)
