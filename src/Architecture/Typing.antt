-- ===== src/Architecture/Typing.antt =====
-- The types of the operations that `ModelBuilder` of crates/dyninfer-architecture/src/builder.rs appends:
-- what each kind takes and gives, operations in an order in which they can run, and a builder whose
-- operations are such.
pub mod Steps
pub mod Rules
pub mod Sublayers
pub mod Models
use mathlib.Core.List.{append-nil, append_assoc}
use mathlib.Core.Path.{subst}
use dyninfer.Prelude.Membership.{mem-append_left, mem-append_right}
use dyninfer.Prelude.{
  ℕ, ◌%◌, String, true, ◌≡◌, refl, sym, ◌∙◌, ap, List, [], ◌∷◌, ◌++◌, map, length, Memᴰ, All,
  All-imp,
}
use dyninfer.Core.Types.{ParameterRole}
use dyninfer.Core.Graph.{
  SemanticTensorType, tokens, activations, kv_cache, GraphValue, KvCacheComponent, OperationKind,
  linear, rms_norm, per_head_rms_norm, rope, kv_cache_write, kv_cache_read, attention, short_conv,
  elementwise, silu, multiply, residual, ArchitectureOperation,
}
use dyninfer.Architecture.Builder.{ModelBuilder}
use dyninfer.Architecture.Blocks.{mul_u32}
use dyninfer.Architecture.Verify.Operations.{outputs_of}

-- the types that an operation of a kind takes and gives, and how many weights it reads
pub data Signature {F : Type 0}
    : OperationKind F → List SemanticTensorType → List SemanticTensorType → ℕ → Type 0 where
  input_type : Signature OperationKind.input [] (tokens ∷ []) 0
  embedding_type :
      (width : ℕ) → Signature OperationKind.embedding (tokens ∷ []) (activations width ∷ []) 1
  linear_type :
      (role : ParameterRole) (m n : ℕ)
      → Signature (linear role) (activations m ∷ []) (activations n ∷ []) 1
  rms_norm_type :
      (epsilon : F) (m : ℕ)
      → Signature (rms_norm epsilon) (activations m ∷ []) (activations m ∷ []) 1
  per_head_rms_norm_type :
      (epsilon : F) (heads dim : ℕ)
      → Signature
          (per_head_rms_norm epsilon heads dim)
          (activations (mul_u32 heads dim) ∷ [])
          (activations (mul_u32 heads dim) ∷ [])
          1
  rope_type :
      (heads dim : ℕ) (theta : F)
      → Signature
          (rope heads dim theta)
          (activations (mul_u32 heads dim) ∷ [])
          (activations (mul_u32 heads dim) ∷ [])
          0
  write_type :
      (layer : ℕ) (component : KvCacheComponent) (m : ℕ)
      → Signature (kv_cache_write layer component) (activations m ∷ []) [] 0
  read_type :
      (layer : ℕ) (component : KvCacheComponent) (heads dim : ℕ)
      → Signature
          (kv_cache_read layer component)
          (activations (mul_u32 heads dim) ∷ [])
          (kv_cache heads dim ∷ [])
          0
  attention_type :
      (heads kv_heads dim : ℕ)
      → heads % kv_heads ≡ 0
      → Signature
          (attention heads kv_heads dim true)
          (activations (mul_u32 heads dim) ∷ kv_cache kv_heads dim ∷ kv_cache kv_heads dim ∷ [])
          (activations (mul_u32 heads dim) ∷ [])
          0
  short_conv_type :
      (layer channels kernel_size : ℕ)
      → Signature
          (short_conv layer channels kernel_size)
          (activations (mul_u32 3 channels) ∷ [])
          (activations channels ∷ [])
          1
  silu_type : (m : ℕ) → Signature (elementwise silu) (activations m ∷ []) (activations m ∷ []) 0
  multiply_type :
      (m : ℕ)
      → Signature (elementwise multiply) (activations m ∷ activations m ∷ []) (activations m ∷ []) 0
  residual_type :
      (m : ℕ) → Signature residual (activations m ∷ activations m ∷ []) (activations m ∷ []) 0
  output_type :
      (m vocab : ℕ)
      → Signature OperationKind.output_projection (activations m ∷ []) (activations vocab ∷ []) 1

abbrev pub Context : Type 0
Context = List (GraphValue × SemanticTensorType)

module _ {F : Type 0} where
  -- The operation takes values that were given before it, gives values of the graph, and the types of
  -- both are those of its kind.
  pub record Typed (values : List GraphValue) (produced : List String)
      (op : ArchitectureOperation F) : Type 0 where
    pub ins : List GraphValue
    pub outs : List GraphValue
    pub inputs_are : op.inputs ≡ map (λ v. v.id) ins
    pub outputs_are : op.outputs ≡ map (λ v. v.id) outs
    pub ins_given : All (λ v. Memᴰ v values × Memᴰ v.id produced) ins
    pub outs_known : All (λ v. Memᴰ v values) outs
    pub signature :
        Signature op.kind
          (map (λ v. v.tensor_type) ins)
          (map (λ v. v.tensor_type) outs)
          (length op.parameters)

  -- each operation typed, where `produced` was given before the first
  abbrev pub Ordered : List GraphValue → List String → List (ArchitectureOperation F) → Type 0
  Ordered values produced [] = Unit
  Ordered values produced (op ∷ ops) =
      Typed values produced op × Ordered values (produced ++ op.outputs) ops

  -- A value of the builder that an operation gives.
  abbrev pub Live : ModelBuilder F → GraphValue → Type 0
  Live b v = Memᴰ v b.values × Memᴰ v.id (outputs_of b.operations)

  -- The operations are ordered, and the values of the context are live and have their types.
  pub record Holds (Γ : Context) (b : ModelBuilder F) : Type 0 where
    pub ordered : Ordered b.values [] b.operations
    pub context : All (λ p. Live b p.0 × (p.0.tensor_type ≡ p.1)) Γ

  Typed-grow :
      {values values' : List GraphValue} {produced produced' : List String}
      {op : ArchitectureOperation F}
      → ((v : GraphValue) → Memᴰ v values → Memᴰ v values')
      → ((id : String) → Memᴰ id produced → Memᴰ id produced')
      → Typed values produced op
      → Typed values' produced' op
  Typed-grow f g t = record {
    ins = t.ins;
    outs = t.outs;
    inputs_are = t.inputs_are;
    outputs_are = t.outputs_are;
    ins_given = All-imp _ _ (λ v h. (f v h.0, g v.id h.1)) t.ins t.ins_given;
    outs_known = All-imp _ _ (λ v h. f v h) t.outs t.outs_known;
    signature = t.signature;
  }

  Ordered-grow :
      {values values' : List GraphValue} (produced : List String)
      (ops : List (ArchitectureOperation F))
      → ((v : GraphValue) → Memᴰ v values → Memᴰ v values')
      → Ordered values produced ops
      → Ordered values' produced ops
  Ordered-grow produced [] f h = tt
  Ordered-grow produced (op ∷ ops) f h =
      (Typed-grow f (λ id m. m) h.0, Ordered-grow (produced ++ op.outputs) ops f h.1)

  Ordered-snoc :
      {values : List GraphValue} (produced : List String) (ops : List (ArchitectureOperation F))
      (op : ArchitectureOperation F)
      → Ordered values produced ops
      → Typed values (produced ++ outputs_of ops) op
      → Ordered values produced (ops ++ op ∷ [])
  Ordered-snoc {values} produced [] op h t =
      (subst (λ p. Typed values p op) (append-nil produced) t, tt)
  Ordered-snoc {values} produced (o ∷ ops) op h t = (
    h.0,
    Ordered-snoc (produced ++ o.outputs) ops op h.1
        (subst (λ p. Typed values p op) (sym (append_assoc produced o.outputs (outputs_of ops))) t),
  )

  outputs_of-append :
      (xs ys : List (ArchitectureOperation F))
      → outputs_of (xs ++ ys) ≡ outputs_of xs ++ outputs_of ys
  outputs_of-append [] ys = refl
  outputs_of-append (x ∷ xs) ys =
      ap (λ l. x.outputs ++ l) (outputs_of-append xs ys)
      ∙ sym (append_assoc x.outputs (outputs_of xs) (outputs_of ys))

  -- what a builder keeps when values and an operation are appended
  abbrev pub with_step : List GraphValue → ArchitectureOperation F → ModelBuilder F → ModelBuilder F
  with_step vs op b = record b { values = b.values ++ vs; operations = b.operations ++ op ∷ [] }

  Live-with_step :
      (b : ModelBuilder F) (vs : List GraphValue) (op : ArchitectureOperation F) (v : GraphValue)
      → Live b v
      → Live (with_step vs op b) v
  Live-with_step b vs op v h = (
    mem-append_left b.values vs h.0,
    subst (Memᴰ v.id) (sym (outputs_of-append b.operations (op ∷ [])))
        (mem-append_left (outputs_of b.operations) _ h.1),
  )

  -- A typed operation on values of the context keeps the builder ordered and the context live.
  pub Holds-with_step :
      {Γ : Context} (b : ModelBuilder F) (vs : List GraphValue) (op : ArchitectureOperation F)
      → Holds Γ b
      → Typed (b.values ++ vs) (outputs_of b.operations) op
      → Holds Γ (with_step vs op b)
  Holds-with_step {Γ} b vs op h t = record {
    ordered =
        Ordered-snoc [] b.operations op
          (Ordered-grow [] b.operations (λ v m. mem-append_left b.values vs m) h.ordered) t;
    context = All-imp _ _ (λ p k. (Live-with_step b vs op p.0 k.0, k.1)) Γ h.context;
  }

  -- The value that an operation gives is live after it.
  pub Live-output :
      (b : ModelBuilder F) (v : GraphValue) (op : ArchitectureOperation F)
      → op.outputs ≡ v.id ∷ []
      → Live (with_step (v ∷ []) op b) v
  Live-output b v op e = (
    mem-append_right b.values (v ∷ []) (Memᴰ.head refl),
    subst (Memᴰ v.id) (sym (outputs_of-append b.operations (op ∷ []))) (
        mem-append_right (outputs_of b.operations) (op.outputs ++ [])
          (subst (λ l. Memᴰ v.id (l ++ [])) (sym e) (Memᴰ.head refl))),
  )
