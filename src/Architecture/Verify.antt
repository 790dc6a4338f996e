-- ===== src/Architecture/Verify.antt =====
-- `verify_architecture_graph` and `verify_architecture_conformance` of
-- crates/dyninfer-architecture/src/builder.rs, and `finish`. A set is the list of what was inserted.
pub mod Checks
pub mod Operations
pub mod Exports
pub mod Sets
pub mod WellFormed
use dyninfer.Prelude.{
  ℕ, String, Bool, true, false, not, ◌&&◌, ◌||◌, Option, none, some, List, [], ◌∷◌, ◌++◌, any,
  str_eq, Result, ok, err, ◌>>=◌, ◌>>◌, guard, ok_or, ◌==◌, is_empty, map, if◌then◌else◌,
}
use dyninfer.Prelude.Eq.{Eq, eq, contains, string_eq, option_eq}
use dyninfer.Core.Types.{ParameterSlot}
use dyninfer.Core.Ir.{ExecutionMode, prefill, decode, mode_eq}
use dyninfer.Core.Graph.{
  SemanticTensorType, GraphValue, OperationKind, elementwise, residual, multiply, silu,
  ArchitectureOperation, ArchitectureExport, ArchitectureGraph, tensor_type_eq,
}
use dyninfer.Architecture.Errors.{
  ArchitectureError, duplicate_slot, duplicate_value, duplicate_operation, unequal_types,
  unsupported_version, unknown_input, unknown_output, unknown_slot, multiple_producers, no_producer,
  unused_slot, duplicate_export, export_without_output, unknown_export_value, missing_export,
}

abbrev Checked : Type 0
Checked = Result ArchitectureError (Unit {0})

-- `if !set.insert(id) { return Err(error(id)); }` for each id: the set after the loop
unfoldable pub insert_new :
    (String → ArchitectureError)
    → List String
    → List String
    → Result ArchitectureError (List String)
insert_new error set [] = ok set
insert_new error set (id ∷ ids) = do
  guard (not (contains set id)) (error id)
  insert_new error (id ∷ set) ids

-- each id stands in the set
unfoldable pub require_known : (String → ArchitectureError) → List String → List String → Checked
require_known error set [] = ok tt
require_known error set (id ∷ ids) = do
  guard (contains set id) (error id)
  require_known error set ids

-- the loop over the outputs of an operation
unfoldable pub add_outputs :
    String → List String → List String → List String → Result ArchitectureError (List String)
add_outputs op known produced [] = ok produced
add_outputs op known produced (id ∷ ids) = do
  guard (contains known id) (unknown_output op id)
  guard (not (contains produced id)) (multiple_producers id)
  add_outputs op known (id ∷ produced) ids

-- `value_types.get(id)`. The ids are unique where it is read.
unfoldable pub type_of : List GraphValue → String → Option SemanticTensorType
type_of [] id = none
type_of (v ∷ vs) id = if str_eq v.id id then some v.tensor_type else type_of vs id

abbrev pub is_binary : {F : Type 0} → OperationKind F → Bool
is_binary residual = true
is_binary (elementwise multiply) = true
is_binary _ = false

-- two inputs, of equal types
abbrev pub equal_inputs : List GraphValue → List String → Bool
equal_inputs values (a ∷ b ∷ []) = eq (type_of values a) (type_of values b)
equal_inputs values _ = false

-- the sets that the loop over the operations builds
pub record Seen : Type 0 where
  pub operation_ids : List String
  pub produced : List String
  pub consumed : List String

module _ {F : Type 0} (values : List GraphValue) (value_ids slot_ids : List String) where
  unfoldable pub verify_operation : Seen → ArchitectureOperation F → Result ArchitectureError Seen
  unfolding require_known add_outputs type_of
  verify_operation seen op = do
    guard (not (contains seen.operation_ids op.id)) (duplicate_operation op.id)
    require_known (unknown_input op.id) value_ids op.inputs
    produced ← add_outputs op.id value_ids seen.produced op.outputs
    require_known (unknown_slot op.id) slot_ids op.parameters
    guard (not (is_binary op.kind) || equal_inputs values op.inputs) (unequal_types op.id)
    ok (record {
      operation_ids = op.id ∷ seen.operation_ids;
      produced = produced;
      consumed = op.parameters ++ seen.consumed;
    })

  unfoldable pub verify_operations :
      Seen → List (ArchitectureOperation F) → Result ArchitectureError Seen
  unfolding verify_operation
  verify_operations seen [] = ok seen
  verify_operations seen (op ∷ ops) = do
    seen' ← verify_operation seen op
    verify_operations seen' ops

unfoldable pub require_used : List String → List ParameterSlot → Checked
require_used consumed [] = ok tt
require_used consumed (slot ∷ slots) = do
  guard (slot.optional || contains consumed slot.id) (unused_slot slot.id)
  require_used consumed slots

unfoldable pub verify_exports : List String → List String → List ArchitectureExport → Checked
unfolding require_known
verify_exports value_ids names [] = ok tt
verify_exports value_ids names (x ∷ xs) = do
  guard (not (contains names x.name)) (duplicate_export x.name)
  guard (not (is_empty x.outputs)) (export_without_output x.name)
  require_known (unknown_export_value x.name) value_ids (x.inputs ++ x.outputs)
  verify_exports value_ids (x.name ∷ names) xs

abbrev pub has_export : String → ExecutionMode → List ArchitectureExport → Bool
has_export name mode exports = any (λ x. str_eq x.name name && eq x.mode mode) exports

module _ {F : Type 0} where
  unfoldable pub verify_architecture_graph : ArchitectureGraph F → Checked
  unfolding insert_new verify_operations require_known require_used verify_exports
  verify_architecture_graph g = do
    guard (g.version == 1) (unsupported_version g.version)
    value_ids ← insert_new duplicate_value [] (map (λ v. v.id) g.values)
    slot_ids ← insert_new duplicate_slot [] (map (λ s. s.id) g.parameter_slots)
    seen ←
        verify_operations g.values value_ids slot_ids
          (record { operation_ids = []; produced = []; consumed = [] }) g.operations
    require_known no_producer seen.produced (map (λ v. v.id) g.values)
    require_used seen.consumed g.parameter_slots
    verify_exports value_ids [] g.exports

  unfoldable pub verify_architecture_conformance : ArchitectureGraph F → Checked
  unfolding verify_architecture_graph
  verify_architecture_conformance g = do
    verify_architecture_graph g
    guard (has_export "prefill" prefill g.exports) (missing_export g.architecture_id "prefill")
    guard (has_export "decode" decode g.exports) (missing_export g.architecture_id "decode")
