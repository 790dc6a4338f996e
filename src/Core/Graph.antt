-- ===== src/Core/Graph.antt =====
-- The architecture graph of crates/dyninfer-core/src/ir.rs. An `f64` attribute is a value of the type
-- `F`, which the program only carries along.
use dyninfer.Prelude.{
  ℕ, String, List, [], ◌∷◌, Bool, true, false, ◌&&◌, ◌==◌, ==_iff, str_eq, str_eq_iff, ◌≡◌, ◌↔◌,
  refl, arith,
}
use dyninfer.Prelude.Eq.{Eq}
use dyninfer.Core.Types.{ParameterRole, ParameterSlot}
use dyninfer.Core.Ir.{ExecutionMode}

pub data TensorDimension : Type 0 where
  static : ℕ → TensorDimension
  symbol : String → TensorDimension

pub data SemanticElementType : Type 0 where
  token_id floating : SemanticElementType

pub record SemanticTensorType : Type 0 where
  pub shape : List TensorDimension
  pub element_type : SemanticElementType

abbrev pub tokens : SemanticTensorType
tokens = record { shape = symbol "batch" ∷ symbol "sequence" ∷ []; element_type = token_id }

abbrev pub activations : ℕ → SemanticTensorType
activations width = record {
  shape = symbol "batch" ∷ symbol "sequence" ∷ static width ∷ [];
  element_type = floating;
}

abbrev pub kv_cache : ℕ → ℕ → SemanticTensorType
kv_cache head_count head_dim = record {
  shape = symbol "batch" ∷ static head_count ∷ symbol "kv_sequence" ∷ static head_dim ∷ [];
  element_type = floating;
}

pub record GraphValue : Type 0 where
  pub id : String
  pub tensor_type : SemanticTensorType

pub data KvCacheComponent : Type 0 where
  key value : KvCacheComponent

pub data ElementwiseFunction : Type 0 where
  silu multiply : ElementwiseFunction

-- The one `ModelInputKind` is the tokens.
pub data OperationKind (F : Type 0) : Type 0 where
  input embedding : OperationKind F
  linear : ParameterRole → OperationKind F
  rms_norm : F → OperationKind F
  -- the epsilon, the head count and the head dimension
  per_head_rms_norm : F → ℕ → ℕ → OperationKind F
  -- the head count, the head dimension and theta
  rope : ℕ → ℕ → F → OperationKind F
  kv_cache_write kv_cache_read : ℕ → KvCacheComponent → OperationKind F
  -- the heads, the key and value heads, the head dimension, and `causal`
  attention : ℕ → ℕ → ℕ → Bool → OperationKind F
  -- the layer, the channels and the kernel size
  short_conv : ℕ → ℕ → ℕ → OperationKind F
  elementwise : ElementwiseFunction → OperationKind F
  residual output_projection : OperationKind F

pub record ArchitectureOperation (F : Type 0) : Type 0 where
  pub id : String
  pub kind : OperationKind F
  pub inputs : List String
  pub outputs : List String
  pub parameters : List String

pub record ArchitectureExport : Type 0 where
  pub name : String
  pub mode : ExecutionMode
  pub inputs : List String
  pub outputs : List String

pub record ArchitectureGraph (F : Type 0) : Type 0 where
  pub version : ℕ
  pub architecture_id : String
  pub values : List GraphValue
  pub operations : List (ArchitectureOperation F)
  pub parameter_slots : List ParameterSlot
  pub exports : List ArchitectureExport

-- the derived `PartialEq` of tensor types
abbrev pub dimension_eq : TensorDimension → TensorDimension → Bool
dimension_eq (static m) (static n) = m == n
dimension_eq (static m) (symbol t) = false
dimension_eq (symbol s) (static n) = false
dimension_eq (symbol s) (symbol t) = str_eq s t

abbrev pub shape_eq : List TensorDimension → List TensorDimension → Bool
shape_eq [] [] = true
shape_eq [] (e ∷ es) = false
shape_eq (d ∷ ds) [] = false
shape_eq (d ∷ ds) (e ∷ es) = dimension_eq d e && shape_eq ds es

abbrev pub element_eq : SemanticElementType → SemanticElementType → Bool
element_eq token_id token_id = true
element_eq token_id floating = false
element_eq floating token_id = false
element_eq floating floating = true

abbrev pub type_eq : SemanticTensorType → SemanticTensorType → Bool
type_eq s t = shape_eq s.shape t.shape && element_eq s.element_type t.element_type

dimension_eq_iff : (d e : TensorDimension) → (dimension_eq d e ≡ true) ↔ (d ≡ e)
dimension_eq_iff (static m) (static n) = let r = ==_iff m n in (λ h. cc (r.0 h), λ h. r.1 (cc))
dimension_eq_iff (static m) (symbol t) = (λ h. cc, λ h. cc)
dimension_eq_iff (symbol s) (static n) = (λ h. cc, λ h. cc)
dimension_eq_iff (symbol s) (symbol t) = let r = str_eq_iff s t in (λ h. cc (r.0 h), λ h. r.1 (cc))

shape_eq_iff : (ds es : List TensorDimension) → (shape_eq ds es ≡ true) ↔ (ds ≡ es)
shape_eq_iff [] [] = (λ h. refl, λ h. refl)
shape_eq_iff [] (e ∷ es) = (λ h. cc, λ h. cc)
shape_eq_iff (d ∷ ds) [] = (λ h. cc, λ h. cc)
shape_eq_iff (d ∷ ds) (e ∷ es) =
    let q = dimension_eq_iff d e in
    let r = shape_eq_iff ds es in (λ h. ground (arith, q.0, r.0), λ h. ground (arith, q.1, r.1))

element_eq_iff : (s t : SemanticElementType) → (element_eq s t ≡ true) ↔ (s ≡ t)
element_eq_iff token_id token_id = (λ h. refl, λ h. refl)
element_eq_iff token_id floating = (λ h. cc, λ h. cc)
element_eq_iff floating token_id = (λ h. cc, λ h. cc)
element_eq_iff floating floating = (λ h. refl, λ h. refl)

pub type_eq_iff : (s t : SemanticTensorType) → (type_eq s t ≡ true) ↔ (s ≡ t)
type_eq_iff s t =
    let q = shape_eq_iff s.shape t.shape in
    let r = element_eq_iff s.element_type t.element_type in
    (λ h. ground (arith, q.0, r.0), λ h. ground (arith, q.1, r.1))

instance abbrev pub tensor_type_eq : Eq SemanticTensorType
tensor_type_eq = record { beq = type_eq; beq_iff = type_eq_iff }
