-- ===== src/Architecture/Builder.antt =====
-- `ModelBuilder` of crates/dyninfer-architecture/src/builder.rs: its state and the methods that append one
-- operation. A `Value` is the id and the type of a graph value.
use Prim.Native.String.{◌++◌ as ◌<>◌}
use dyninfer.Prelude.{
  ℕ, String, false, not, Option, none, some, List, [], ◌∷◌, ◌++◌, map, any, str_eq, ok, err, ok_or,
}
use dyninfer.Prelude.Effects.{Effect, ◌>>=◌, ◌>>◌, pure, get_state, modify, lift, check}
use dyninfer.Core.Scalar.{bf16, f16, f32}
use dyninfer.Core.Types.{ParameterRole, norm, output, other, ParameterSlot}
use dyninfer.Core.Types
use dyninfer.Core.Ir
use dyninfer.Core.Graph.{
  SemanticTensorType, tokens, activations, kv_cache, GraphValue, KvCacheComponent,
  ElementwiseFunction, OperationKind, linear, rms_norm, per_head_rms_norm, rope, kv_cache_write,
  kv_cache_read, short_conv, elementwise, ArchitectureOperation, ArchitectureExport, type_eq,
}
use dyninfer.Architecture.Errors.{
  ArchitectureError, duplicate_slot, duplicate_value, duplicate_operation, second_input,
  no_token_input, unequal_types,
}

pub record ModelBuilder (F : Type 0) : Type 0 where
  pub architecture_id : Option String
  pub slots : List ParameterSlot
  pub values : List GraphValue
  pub operations : List (ArchitectureOperation F)
  pub exports : List ArchitectureExport
  pub primary_input : Option String

-- `ModelBuilder::new()`
abbrev pub new : {F : Type 0} → ModelBuilder F
new = record {
  architecture_id = none;
  slots = [];
  values = [];
  operations = [];
  exports = [];
  primary_input = none;
}

abbrev pub Build : Type 0 → Type 0 → Type 0
Build F A = Effect (ModelBuilder F) ArchitectureError A

-- the slot that `push_slot` declares
abbrev pub slot_of : String → ParameterRole → ℕ → ParameterSlot
slot_of name role rank = record {
  id = name;
  canonical_name = name;
  role = role;
  expected_type = record { rank = some rank; shape = none; element_types = bf16 ∷ f16 ∷ f32 ∷ [] };
  optional = false;
  tied_group = none;
}

module _ {F : Type 0} where
  abbrev pub set_architecture_id : String → ModelBuilder F → ModelBuilder F
  set_architecture_id id b = record b { architecture_id = some id }

  unfoldable pub declare_parameter : ParameterSlot → Build F (Unit {0})
  declare_parameter slot = do
    b ← get_state
    check (not (any (λ existing. str_eq existing.id slot.id) b.slots)) (duplicate_slot slot.id)
    modify (λ s. record s { slots = s.slots ++ slot ∷ [] })

  unfoldable pub push_slot : String → ParameterRole → ℕ → Build F String
  unfolding declare_parameter
  push_slot name role rank = do declare_parameter (slot_of name role rank); pure name

  unfoldable pub new_value : String → SemanticTensorType → Build F GraphValue
  new_value id tensor_type = do
    b ← get_state
    check (not (any (λ v. str_eq v.id id) b.values)) (duplicate_value id)
    modify
        (λ s. record s { values = s.values ++ record { id = id; tensor_type = tensor_type } ∷ [] })
    pure (record { id = id; tensor_type = tensor_type })

  unfoldable pub operation :
      String
      → OperationKind F
      → List GraphValue
      → List GraphValue
      → List String
      → Build F (Unit {0})
  operation id kind inputs outputs parameters = do
    b ← get_state
    check (not (any (λ o. str_eq o.id id) b.operations)) (duplicate_operation id)
    modify (λ s. record s {
      operations =
          s.operations
          ++ record {
            id = id;
            kind = kind;
            inputs = map (λ v. v.id) inputs;
            outputs = map (λ v. v.id) outputs;
            parameters = parameters;
          }
            ∷ [];
    })

  -- an operation with one output, `format!("{id}.output")`
  unfoldable pub with_output :
      String
      → OperationKind F
      → List GraphValue
      → SemanticTensorType
      → List String
      → Build F GraphValue
  unfolding new_value operation
  with_output id kind inputs output_type parameters = do
    result ← new_value (id <> ".output") output_type
    operation id kind inputs (result ∷ []) parameters
    pure result

  abbrev pub unary :
      String → OperationKind F → GraphValue → SemanticTensorType → List String → Build F GraphValue
  unary id kind input output_type parameters =
      with_output id kind (input ∷ []) output_type parameters

  unfoldable pub input_tokens : String → Build F GraphValue
  unfolding new_value operation
  input_tokens name = do
    b ← get_state
    lift (elim b.primary_input [ none ↦ ok tt | some id ↦ err second_input ])
    v ← new_value name tokens
    operation ("input." <> name) OperationKind.input [] (v ∷ []) []
    modify (λ s. record s { primary_input = some v.id })
    pure v

  -- the methods that declare a weight and append an operation on it
  unfoldable pub weighted :
      String
      → OperationKind F
      → GraphValue
      → String
      → ParameterRole
      → ℕ
      → SemanticTensorType
      → Build F GraphValue
  unfolding push_slot with_output
  weighted id kind input weight role rank output_type = do
    slot ← push_slot weight role rank
    unary id kind input output_type (slot ∷ [])

  abbrev pub embedding : String → GraphValue → String → ℕ → Build F GraphValue
  embedding id ids weight hidden_size =
      weighted id OperationKind.embedding ids weight Types.embedding 2 (activations hidden_size)

  abbrev pub linear_layer : String → GraphValue → String → ℕ → ParameterRole → Build F GraphValue
  linear_layer id x weight width role =
      weighted id (linear role) x weight role 2 (activations width)

  abbrev pub rms_norm_layer : String → GraphValue → String → F → Build F GraphValue
  rms_norm_layer id x weight epsilon = weighted id (rms_norm epsilon) x weight norm 1 x.tensor_type

  abbrev pub per_head_norm : String → GraphValue → String → F → ℕ → ℕ → Build F GraphValue
  per_head_norm id x weight epsilon head_count head_dim =
      weighted id (per_head_rms_norm epsilon head_count head_dim) x weight norm 1 x.tensor_type

  abbrev pub rope_layer : String → GraphValue → ℕ → ℕ → F → Build F GraphValue
  rope_layer id x head_count head_dim theta =
      unary id (rope head_count head_dim theta) x x.tensor_type []

  abbrev pub cache_write : String → GraphValue → ℕ → KvCacheComponent → Build F (Unit {0})
  cache_write id x layer component = operation id (kv_cache_write layer component) (x ∷ []) [] []

  abbrev pub cache_read : String → GraphValue → ℕ → KvCacheComponent → ℕ → ℕ → Build F GraphValue
  cache_read id current layer component head_count head_dim =
      unary id (kv_cache_read layer component) current (kv_cache head_count head_dim) []

  abbrev pub elementwise_unary : String → GraphValue → ElementwiseFunction → Build F GraphValue
  elementwise_unary id x function = unary id (elementwise function) x x.tensor_type []

  unfoldable pub binary : String → OperationKind F → GraphValue → GraphValue → Build F GraphValue
  unfolding with_output
  binary id kind left right = do
    check (type_eq left.tensor_type right.tensor_type) (unequal_types id)
    with_output id kind (left ∷ right ∷ []) left.tensor_type []

  -- depthwise weights are `[channels, 1, kernel_size]`
  abbrev pub short_conv_layer : String → GraphValue → String → ℕ → ℕ → ℕ → Build F GraphValue
  short_conv_layer id x weight layer channels kernel_size =
      weighted id (short_conv layer channels kernel_size) x weight (other "shortconv.conv") 3
        (activations channels)

  abbrev pub output_projection : String → GraphValue → String → ℕ → Build F GraphValue
  output_projection id x weight vocab_size =
      weighted id OperationKind.output_projection x weight output 2 (activations vocab_size)

  unfoldable pub export_prefill_and_decode : GraphValue → Build F (Unit {0})
  export_prefill_and_decode logits = do
    b ← get_state
    start ← lift (ok_or b.primary_input no_token_input)
    modify (λ s. record s {
      exports =
          s.exports
          ++ record {
            name = "prefill";
            mode = Ir.prefill;
            inputs = start ∷ [];
            outputs = logits.id ∷ [];
          }
            ∷ record {
              name = "decode";
              mode = Ir.decode;
              inputs = start ∷ [];
              outputs = logits.id ∷ [];
            }
            ∷ [];
    })
