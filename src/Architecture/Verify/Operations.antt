-- ===== src/Architecture/Verify/Operations.antt =====
-- What the loops over operations, slots and exports test, in
-- crates/dyninfer-architecture/src/builder.rs.
use mathlib.Core.Path.{subst}
use dyninfer.Prelude.{
  String, ◌≡◌, ◌↔◌, ◌∙◌, refl, sym, ap, true, not, ◌||◌, List, [], ◌∷◌, ◌++◌, Memᴰ, All, Result, ok,
  ◌>>=◌, ◌>>◌, guard,
}
use dyninfer.Prelude.Eq.{contains, string_eq, option_eq, option_beq_iff}
use dyninfer.Core.Graph.{GraphValue, ArchitectureOperation, tensor_type_eq}
use dyninfer.Architecture.Errors.{
  ArchitectureError, duplicate_operation, unknown_input, unknown_slot, unequal_types,
}
use dyninfer.Architecture.Verify.{
  require_known, add_outputs, type_of, is_binary, equal_inputs, Seen, verify_operation,
  verify_operations,
}
use dyninfer.Architecture.Verify.Checks.{
  guard_iff, bind_iff, not-contains_iff, Known, require_known_iff, onto, Fresh, add_outputs_iff,
  imp_iff, Fresh-append, onto-append,
}

-- The two inputs have the same type.
pub record SameTypes (values : List GraphValue) (inputs : List String) : Type 0 where
  pub left : String
  pub right : String
  pub two : inputs ≡ left ∷ right ∷ []
  pub same : type_of values left ≡ type_of values right

equal_inputs_iff :
    (values : List GraphValue) (inputs : List String)
    → (equal_inputs values inputs ≡ true) ↔ SameTypes values inputs
equal_inputs_iff values [] = (λ h. absurd (cc), λ s. absurd (cc s.two))
equal_inputs_iff values (a ∷ []) = (λ h. absurd (cc), λ s. absurd (cc s.two))
equal_inputs_iff values (a ∷ b ∷ []) =
    let r = option_beq_iff (type_of values a) (type_of values b) in
    (
      λ h. record { left = a; right = b; two = refl; same = r.0 h },
      λ s.
          let first : a ≡ s.left = cc s.two in
          let second : b ≡ s.right = cc s.two in
          r.1 (ap (type_of values) first ∙ s.same ∙ ap (type_of values) (sym second)),
    )
equal_inputs_iff values (a ∷ b ∷ c ∷ rest) = (λ h. absurd (cc), λ s. absurd (cc s.two))

same_seen :
    (s t : Seen)
    → s.operation_ids ≡ t.operation_ids
    → s.produced ≡ t.produced
    → s.consumed ≡ t.consumed
    → s ≡ t
same_seen s t e f g = λ i. record { operation_ids = e i; produced = f i; consumed = g i }

module _ {F : Type 0} where
  -- the ids that the operations produce, and the slots that they read
  abbrev pub outputs_of : List (ArchitectureOperation F) → List String
  outputs_of [] = []
  outputs_of (op ∷ ops) = op.outputs ++ outputs_of ops

  abbrev pub parameters_of : List (ArchitectureOperation F) → List String
  parameters_of [] = []
  parameters_of (op ∷ ops) = op.parameters ++ parameters_of ops

  abbrev pub ids_of : List (ArchitectureOperation F) → List String
  ids_of [] = []
  ids_of (op ∷ ops) = op.id ∷ ids_of ops

  module _ (values : List GraphValue) (value_ids slot_ids : List String) where
    -- What an operation refers to is declared, and the two inputs of a binary one have the same type.
    pub record Declared (op : ArchitectureOperation F) : Type 0 where
      pub inputs_known : Known value_ids op.inputs
      pub outputs_known : Known value_ids op.outputs
      pub parameters_known : Known slot_ids op.parameters
      pub binary_typed : is_binary op.kind ≡ true → SameTypes values op.inputs

    -- the slots that are read by the operations, put before `slots`
    abbrev pub consumed_from : List String → List (ArchitectureOperation F) → List String
    consumed_from slots [] = slots
    consumed_from slots (op ∷ ops) = consumed_from (op.parameters ++ slots) ops

    -- the loop from the sets `seen` on
    pub record Passed (seen : Seen) (ops : List (ArchitectureOperation F)) (seen' : Seen)
        : Type 0 where
      pub new_ids : Fresh seen.operation_ids (ids_of ops)
      pub new_outputs : Fresh seen.produced (outputs_of ops)
      pub declared : All Declared ops
      pub ids_after : onto seen.operation_ids (ids_of ops) ≡ seen'.operation_ids
      pub produced_after : onto seen.produced (outputs_of ops) ≡ seen'.produced
      pub consumed_after : consumed_from seen.consumed ops ≡ seen'.consumed

    verify_operation_iff :
        (seen : Seen) (op : ArchitectureOperation F) (seen' : Seen)
        → (verify_operation values value_ids slot_ids seen op ≡ ok seen') ↔ (
            (Memᴰ op.id seen.operation_ids → ⊥)
            × Fresh seen.produced op.outputs
            × Declared op
            × (seen' ≡ record {
              operation_ids = op.id ∷ seen.operation_ids;
              produced = onto seen.produced op.outputs;
              consumed = op.parameters ++ seen.consumed;
            }))
    unfolding verify_operation
    verify_operation_iff seen op seen' =
        let close : List String → Result ArchitectureError Seen = λ produced. ok (record {
          operation_ids = op.id ∷ seen.operation_ids;
          produced = produced;
          consumed = op.parameters ++ seen.consumed;
        }) in
        let typed : List String → Result ArchitectureError Seen = λ produced.
          guard (not (is_binary op.kind) || equal_inputs values op.inputs) (unequal_types op.id)
          >> close produced in
        let slots : List String → Result ArchitectureError Seen =
          λ produced. require_known (unknown_slot op.id) slot_ids op.parameters >> typed produced in
        let outs : Result ArchitectureError Seen =
          add_outputs op.id value_ids seen.produced op.outputs >>= slots in
        let ins : Result ArchitectureError Seen =
          require_known (unknown_input op.id) value_ids op.inputs >> outs in
        let new = not-contains_iff seen.operation_ids op.id in
        let a =
          guard_iff (not (contains seen.operation_ids op.id)) (duplicate_operation op.id) ins in
        let b = bind_iff (require_known (unknown_input op.id) value_ids op.inputs) (λ u. outs) in
        let c = bind_iff (add_outputs op.id value_ids seen.produced op.outputs) slots in
        let d = λ (produced : List String).
          bind_iff (require_known (unknown_slot op.id) slot_ids op.parameters) (λ u. typed produced)
            {a = seen'} in
        let e = λ (produced : List String).
          guard_iff (not (is_binary op.kind) || equal_inputs values op.inputs) (unequal_types op.id)
            (close produced) {a = seen'} in
        let known_in = require_known_iff (unknown_input op.id) value_ids op.inputs in
        let known_slot = require_known_iff (unknown_slot op.id) slot_ids op.parameters in
        let added = add_outputs_iff op.id value_ids seen.produced op.outputs in
        let binary = imp_iff (is_binary op.kind) (equal_inputs values op.inputs) in
        let equal = equal_inputs_iff values op.inputs in
        (
          λ h.
              let h1 = a.0 h in
              let (u, h2, h3) = b.0 h1.1 in
              let (produced, h4, h5) = c.0 h3 in
              let (w, h6, h7) = (d produced).0 h5 in
              let h8 = (e produced).0 h7 in
              let h9 = (added produced).0 h4 in
              (
                new.0 h1.0,
                h9.1,
                record {
                  inputs_known = known_in.0 h2;
                  outputs_known = h9.0;
                  parameters_known = known_slot.0 h6;
                  binary_typed = λ k. equal.0 (binary.0 h8.0 k);
                },
                cc (h8.1, h9.2),
              ),
          λ (is_new, fresh, declared, same). a.1 (
            new.1 is_new,
            b.1 (
              tt,
              known_in.1 declared.inputs_known,
              c.1 (
                onto seen.produced op.outputs,
                (added _).1 (declared.outputs_known, fresh, refl),
                (d _).1 (
                  tt,
                  known_slot.1 declared.parameters_known,
                  (e _).1 (binary.1 (λ k. equal.1 (declared.binary_typed k)), ap ok (sym same)),
                ),
              ),
            ),
          ),
        )

    Passed-cons :
        (seen : Seen) (op : ArchitectureOperation F) (ops : List (ArchitectureOperation F))
        (seen' : Seen)
        → (Memᴰ op.id seen.operation_ids → ⊥)
        → Fresh seen.produced op.outputs
        → Declared op
        → Passed
            (record {
              operation_ids = op.id ∷ seen.operation_ids;
              produced = onto seen.produced op.outputs;
              consumed = op.parameters ++ seen.consumed;
            })
            ops
            seen'
        → Passed seen (op ∷ ops) seen'
    Passed-cons seen op ops seen' new fresh declared p = record {
      new_ids = (new, p.new_ids);
      new_outputs =
          (Fresh-append seen.produced op.outputs (outputs_of ops)).1 (fresh, p.new_outputs);
      declared = (declared, p.declared);
      ids_after = p.ids_after;
      produced_after = onto-append seen.produced op.outputs (outputs_of ops) ∙ p.produced_after;
      consumed_after = p.consumed_after;
    }

    Passed-uncons :
        (seen : Seen) (op : ArchitectureOperation F) (ops : List (ArchitectureOperation F))
        (seen' : Seen)
        → Passed seen (op ∷ ops) seen'
        → Passed
            (record {
              operation_ids = op.id ∷ seen.operation_ids;
              produced = onto seen.produced op.outputs;
              consumed = op.parameters ++ seen.consumed;
            })
            ops
            seen'
    Passed-uncons seen op ops seen' p = record {
      new_ids = p.new_ids.1;
      new_outputs = ((Fresh-append seen.produced op.outputs (outputs_of ops)).0 p.new_outputs).1;
      declared = p.declared.1;
      ids_after = p.ids_after;
      produced_after =
          sym (onto-append seen.produced op.outputs (outputs_of ops)) ∙ p.produced_after;
      consumed_after = p.consumed_after;
    }

    pub verify_operations_iff :
        (seen : Seen) (ops : List (ArchitectureOperation F)) (seen' : Seen)
        → (verify_operations values value_ids slot_ids seen ops ≡ ok seen') ↔ Passed seen ops seen'
    unfolding verify_operations
    verify_operations_iff seen [] seen' = (
      λ h.
          let same : seen ≡ seen' = cc in
          record {
            new_ids = tt;
            new_outputs = tt;
            declared = tt;
            ids_after = ap (λ s. s.operation_ids) same;
            produced_after = ap (λ s. s.produced) same;
            consumed_after = ap (λ s. s.consumed) same;
          },
      λ p. ap ok (same_seen seen seen' p.ids_after p.produced_after p.consumed_after),
    )
    verify_operations_iff seen (op ∷ ops) seen' =
        let step =
          bind_iff (verify_operation values value_ids slot_ids seen op)
            (λ s. verify_operations values value_ids slot_ids s ops) {a = seen'} in
        (
          λ h.
              let (s, stepped, finished) = step.0 h in
              let (new, fresh, declared, same) = (verify_operation_iff seen op s).0 stepped in
              let rest = (verify_operations_iff s ops seen').0 finished in
              Passed-cons seen op ops seen' new fresh declared
                (subst (λ x. Passed x ops seen') same rest),
          λ p. step.1 (
            _,
            (verify_operation_iff seen op _).1 (
              p.new_ids.0,
              ((Fresh-append seen.produced op.outputs (outputs_of ops)).0 p.new_outputs).0,
              p.declared.0,
              refl,
            ),
            (verify_operations_iff _ ops seen').1 (Passed-uncons seen op ops seen' p),
          ),
        )
