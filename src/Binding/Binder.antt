-- ===== src/Binding/Binder.antt =====
-- `bind_slot` and `bind` of crates/dyninfer-binding/src/lib.rs.
use Prim.Native.String.{◌++◌ as text_append}
use dyninfer.Prelude.{
  String, Bool, true, false, not, Option, none, some, List, [], ◌∷◌, ◌++◌, map, Result, ok, err,
  ◌>>=◌, ◌>>◌, guard, is_empty, ◌==◌, if◌then◌else◌,
}
use dyninfer.Prelude.Assoc.{get, insert}
use dyninfer.Core.Shape.{Shape, is_compatible_with, ByteRange}
use dyninfer.Core.Types.{
  StorageComponent, ParameterSlot, identity, ParameterComponentBinding, ParameterBinding,
  BindingPlan,
}
use dyninfer.Checkpoint.Catalog.{LogicalParameter, CheckpointCatalog}
use dyninfer.Binding.{
  BindingError, rank_mismatch, shape_mismatch, role_mismatch, element_type_mismatch, zero_alignment,
  misaligned, tied_shape_mismatch, required_slot_missing, roles_compatible, by_name, rank_allowed,
  shape_allowed, type_allowed, storage_bytes_of, check_plain, alignment_of, aligned, key_of,
}

-- `format!("{}::{}::{}", ...)`
abbrev pub external_key_of : String → String → String → String
external_key_of scope name component =
    text_append scope (text_append "::" (text_append name (text_append "::" component)))

abbrev pub component_binding : String → String → StorageComponent → ParameterComponentBinding
component_binding scope name c = record {
  component_name = c.name;
  external_key = external_key_of scope name c.name;
  checkpoint_key = c.key;
  source_file_index = c.source_file_index;
  shape = c.shape;
  storage_type = c.storage_type;
  byte_lengths = map (λ (r : ByteRange). r.length) c.byte_ranges;
  alignment = c.alignment;
  endianness = c.endianness;
}

unfoldable pub binding_of : String → ParameterSlot → LogicalParameter → ParameterBinding
unfolding storage_bytes_of
binding_of scope slot p = record {
  slot_id = slot.id;
  canonical_name = slot.canonical_name;
  checkpoint_keys = p.aliases;
  encoding = p.encoding;
  logical_shape = p.logical_type.shape;
  logical_type = p.logical_type.element_type;
  components = map (component_binding scope p.canonical_name) p.components;
  transform = identity;
  scope = scope;
  parameter_key = key_of p;
  storage_bytes = storage_bytes_of p;
  alignment = alignment_of p;
}

unfoldable pub check_storage : String → LogicalParameter → Result BindingError (Unit {0})
unfolding check_plain
check_storage slot p = if is_empty p.components then ok tt else check_plain slot p p.encoding

-- the checks of `bind_slot` on the parameter that was found, and the binding
unfoldable pub bind_parameter :
    String → ParameterSlot → LogicalParameter → Result BindingError ParameterBinding
unfolding roles_compatible check_storage binding_of
bind_parameter scope slot p = do
  guard (rank_allowed slot.expected_type.rank p.logical_type.shape) (rank_mismatch slot.id)
  guard (shape_allowed slot.expected_type.shape p.logical_type.shape) (shape_mismatch slot.id)
  guard (roles_compatible slot.role p.role) (role_mismatch slot.id)
  guard (type_allowed slot.expected_type.element_types p.logical_type.element_type)
      (element_type_mismatch slot.id)
  check_storage slot.id p
  guard (not (alignment_of p == 0)) (zero_alignment slot.id)
  guard (aligned (alignment_of p) p.components) (misaligned slot.id)
  ok (binding_of scope slot p)

unfoldable pub bind_found :
    String → ParameterSlot → Option LogicalParameter → Result BindingError (Option ParameterBinding)
unfolding bind_parameter
bind_found scope slot none = ok none
bind_found scope slot (some p) = do b ← bind_parameter scope slot p; ok (some b)

unfoldable pub bind_slot :
    String
    → List (String × LogicalParameter)
    → ParameterSlot
    → Result BindingError (Option ParameterBinding)
unfolding bind_found get
bind_slot scope names slot = bind_found scope slot (get names slot.canonical_name)

-- the variables of the loop
pub record Bound : Type 0 where
  pub bindings : List ParameterBinding
  pub unresolved_optional : List String
  pub tied_shapes : List (String × (String × Shape))

-- a shape for the group: it is that of the group, or becomes it
abbrev pub tie_shape :
    List (String × (String × Shape))
    → ParameterSlot
    → Shape
    → String
    → Option (String × Shape)
    → Result BindingError (List (String × (String × Shape)))
tie_shape tied slot shape group none = ok (insert tied group (slot.id, shape))
tie_shape tied slot shape group (some (other_slot, other_shape)) = do
  guard (is_compatible_with other_shape shape) (tied_shape_mismatch slot.id)
  ok tied

unfoldable pub tie :
    List (String × (String × Shape))
    → ParameterSlot
    → Shape
    → Option String
    → Result BindingError (List (String × (String × Shape)))
unfolding get
tie tied slot shape none = ok tied
tie tied slot shape (some group) = tie_shape tied slot shape group (get tied group)

-- a slot without a parameter, by `optional`
abbrev pub skip_slot : ParameterSlot → Bound → Bool → Result BindingError Bound
skip_slot slot s true =
    ok (record s { unresolved_optional = s.unresolved_optional ++ slot.id ∷ [] })
skip_slot slot s false = err (required_slot_missing slot.id)

-- what the loop does with the result of `bind_slot`
unfoldable pub record_slot :
    ParameterSlot → Option ParameterBinding → Bound → Result BindingError Bound
unfolding tie
record_slot slot none s = skip_slot slot s slot.optional
record_slot slot (some b) s = do
  tied ← tie s.tied_shapes slot b.logical_shape slot.tied_group
  ok (record s { bindings = s.bindings ++ b ∷ []; tied_shapes = tied })

unfoldable pub bind_slots :
    String
    → List (String × LogicalParameter)
    → List ParameterSlot
    → Bound
    → Result BindingError Bound
unfolding bind_slot record_slot
bind_slots scope names [] s = ok s
bind_slots scope names (slot ∷ slots) s = do
  found ← bind_slot scope names slot
  s' ← record_slot slot found s
  bind_slots scope names slots s'

-- `scope` is the binder's `parameter_scope`.
unfoldable pub bind :
    String → String → List ParameterSlot → CheckpointCatalog → Result BindingError BindingPlan
unfolding bind_slots by_name
bind scope architecture_id slots catalog = do
  s ←
      bind_slots scope (by_name catalog.parameters) slots
        (record { bindings = []; unresolved_optional = []; tied_shapes = [] })
  ok (record {
    architecture_id = architecture_id;
    checkpoint_schema = catalog.schema_fingerprint;
    bindings = s.bindings;
    unresolved_optional_slots = s.unresolved_optional;
  })
