-- ===== src/Kernel/Builtin/Supplies.antt =====
-- The built-in candidates of crates/dyninfer-kernel-registry/src/lib.rs: their registration succeeds, and they
-- serve every operation without parameters.
use mathlib.Core.List.Memᴰ
use dyninfer.Prelude.{
  ◌≡◌, ◌≢◌, refl, sym, ap, ◌∙◌, String, Bool, true, false, not, ◌&&◌, &&_parts, none, List, [], ◌∷◌,
  ◌++◌, Memᴰ, ok, inl, inr, Bool-cases, any, any-mem, any-true, str_eq, str_eq_iff, arith,
}
use dyninfer.Prelude.Int.{ℤ, pos}
use dyninfer.Core.Scalar.{ScalarType, f32, i64}
use dyninfer.Core.Ir.{ExecutionMode, prefill, decode}
use dyninfer.Core.Target.{TargetProfile}
use dyninfer.Kernel
use dyninfer.Kernel.{
  KernelOperationKind, native, is_precision_sensitive, KernelCandidateDescriptor, KernelRequest,
}
use dyninfer.Kernel.Reasons.Eligible.{IsEligible}
use dyninfer.Kernel.Registry.{KernelRegistry, register}
use dyninfer.Kernel.Registry.Registration.{HasUniqueIds}
use dyninfer.Kernel.Builtin.{
  semantic, builtin_semantic_candidates, register_all, register_builtin_semantic_candidates,
  register_all-HasUniqueIds, generated,
}
use dyninfer.Prelude.Membership.{mem-append_right}

-- no two of the candidates have the same id
abbrev pub distinct : List KernelCandidateDescriptor → Bool
distinct [] = true
distinct (c ∷ cs) = not (any (λ d. str_eq c.id d.id) cs) && distinct cs

pub distinct-Apart :
    (c : KernelCandidateDescriptor) (cs : List KernelCandidateDescriptor)
    {d : KernelCandidateDescriptor}
    → distinct (c ∷ cs) ≡ true
    → Memᴰ d cs
    → c.id ≢ d.id
distinct-Apart c cs {d} h m e =
    let hit : any (λ d. str_eq c.id d.id) cs ≡ true =
      any-mem (λ (d : KernelCandidateDescriptor). str_eq c.id d.id) m
        ((str_eq_iff c.id d.id).1 e) in
    let free = (&&_parts (not (any (λ d. str_eq c.id d.id) cs)) (distinct cs) h).0 in ground arith

-- no candidate of the first list has the id of one of the second
abbrev pub Apart : List KernelCandidateDescriptor → List KernelCandidateDescriptor → Type 0
Apart cs ds = (c d : KernelCandidateDescriptor) → Memᴰ c cs → Memᴰ d ds → c.id ≢ d.id

-- a candidate with a new id is registered
register-fresh :
    (reg : KernelRegistry) (c : KernelCandidateDescriptor)
    → ((d : KernelCandidateDescriptor) → Memᴰ d reg.candidates → d.id ≢ c.id)
    → register reg c ≡ ok (record { candidates = reg.candidates ++ c ∷ [] })
unfolding register
register-fresh reg c h = elim (Bool-cases (any (λ e. str_eq e.id c.id) reg.candidates)) [
  | inl old ↦
      let (d, m, q) =
        any-true (λ (e : KernelCandidateDescriptor). str_eq e.id c.id) reg.candidates old in
      absurd (h d m ((str_eq_iff d.id c.id).0 q))
  | inr free ↦ rw free refl
]

register_all-ok :
    (cs : List KernelCandidateDescriptor) (reg : KernelRegistry)
    → distinct cs ≡ true
    → Apart reg.candidates cs
    → (reg' : KernelRegistry) × (register_all reg cs ≡ ok reg')
unfolding register_all
register_all-ok [] reg h apart = (reg, refl)
register_all-ok (c ∷ cs) reg h apart =
    let next : KernelRegistry = record { candidates = reg.candidates ++ c ∷ [] } in
    let still : Apart next.candidates cs = λ a d m n. elim (Memᴰ.append_cases reg.candidates m) [
      | inl p ↦ apart a d p (Memᴰ.tail n)
      | inr p ↦ let same : a ≡ c = Memᴰ.eq_of_singleton p in rw same (distinct-Apart c cs h n)
    ] in
    let (reg', rest) =
      register_all-ok cs next (&&_parts (not (any (λ d. str_eq c.id d.id) cs)) (distinct cs) h).1
        still in
    (reg', rw (register-fresh reg c (λ d m. apart d c m (Memᴰ.head refl))) rest)

-- the kinds of operations that use no parameter
abbrev pub has_builtin : KernelOperationKind → Bool
has_builtin Kernel.input = true
has_builtin Kernel.embedding = false
has_builtin Kernel.linear = false
has_builtin Kernel.rms_norm = false
has_builtin Kernel.per_head_rms_norm = false
has_builtin Kernel.rope = true
has_builtin Kernel.kv_cache_write = true
has_builtin Kernel.kv_cache_read = true
has_builtin Kernel.attention = true
has_builtin Kernel.short_conv = false
has_builtin Kernel.silu = true
has_builtin Kernel.multiply = true
has_builtin Kernel.residual = true
has_builtin Kernel.output_projection = false

-- a row of the table for the kind, in `f32` where the kind is sensitive to precision
record Row (k : KernelOperationKind) : Type 0 where
  id : String
  lowering : String
  notes : String
  scalar : ScalarType
  score : ℤ
  listed : Memᴰ (semantic k id lowering scalar score notes) builtin_semantic_candidates
  sensitive : is_precision_sensitive k ≡ true → scalar ≡ f32

-- the row of a kind at a place of the table
module _ (k : KernelOperationKind) (id lowering notes : String) (score : ℤ) where
  f32-Row : Memᴰ (semantic k id lowering f32 score notes) builtin_semantic_candidates → Row k
  f32-Row m = record {
    id = id;
    lowering = lowering;
    notes = notes;
    scalar = f32;
    score = score;
    listed = m;
    sensitive = λ e. refl;
  }

has_builtin-Row : (k : KernelOperationKind) → has_builtin k ≡ true → Row k
unfolding is_precision_sensitive
has_builtin-Row Kernel.input h = record {
  id = "model.input.abi";
  lowering = "model.input.abi";
  notes = generated;
  scalar = i64;
  score = pos 100;
  listed = Memᴰ.head refl;
  sensitive = λ e. absurd (cc);
}
has_builtin-Row Kernel.embedding h = absurd (cc)
has_builtin-Row Kernel.linear h = absurd (cc)
has_builtin-Row Kernel.rms_norm h = absurd (cc)
has_builtin-Row Kernel.per_head_rms_norm h = absurd (cc)
has_builtin-Row Kernel.rope h =
    f32-Row Kernel.rope "rope.generated.f32" "rope.generated" generated (pos 100)
      (Memᴰ.tail (Memᴰ.head refl))
has_builtin-Row Kernel.kv_cache_write h =
    f32-Row Kernel.kv_cache_write "kv_cache.write.generated" "kv_cache.write.generated" generated
      (pos 100) (Memᴰ.tail (Memᴰ.tail (Memᴰ.head refl)))
has_builtin-Row Kernel.kv_cache_read h =
    f32-Row Kernel.kv_cache_read "kv_cache.read.generated" "kv_cache.read.generated" generated
      (pos 100) (Memᴰ.tail (Memᴰ.tail (Memᴰ.tail (Memᴰ.head refl))))
has_builtin-Row Kernel.attention h =
    f32-Row Kernel.attention "attention.gqa.generated.f32" "attention.gqa.generated" generated
      (pos 100) (Memᴰ.tail (Memᴰ.tail (Memᴰ.tail (Memᴰ.tail (Memᴰ.head refl)))))
has_builtin-Row Kernel.short_conv h = absurd (cc)
has_builtin-Row Kernel.silu h =
    f32-Row Kernel.silu "elementwise.silu.generated.f32" "elementwise.silu.generated" generated
      (pos 100) (Memᴰ.tail (Memᴰ.tail (Memᴰ.tail (Memᴰ.tail (Memᴰ.tail (Memᴰ.head refl))))))
has_builtin-Row Kernel.multiply h =
    f32-Row Kernel.multiply "elementwise.multiply.generated.f32" "elementwise.multiply.generated"
      generated (pos 100)
      (Memᴰ.tail (Memᴰ.tail (Memᴰ.tail (Memᴰ.tail (Memᴰ.tail (Memᴰ.tail (Memᴰ.head refl)))))))
has_builtin-Row Kernel.residual h =
    f32-Row Kernel.residual "residual.add.generated.f32" "residual.add.generated" generated
      (pos 100)
      (Memᴰ.tail
        (Memᴰ.tail (Memᴰ.tail (Memᴰ.tail (Memᴰ.tail (Memᴰ.tail (Memᴰ.tail (Memᴰ.head refl))))))))
has_builtin-Row Kernel.output_projection h = absurd (cc)

mem_modes : (m : ExecutionMode) → Memᴰ m (prefill ∷ decode ∷ [])
mem_modes prefill = Memᴰ.head refl
mem_modes decode = Memᴰ.tail (Memᴰ.head refl)

-- a row of the table is eligible for each request of its kind without storage
semantic-IsEligible :
    (k : KernelOperationKind) (row : Row k) (r : KernelRequest) (t : TargetProfile)
    → k ≡ r.operation
    → r.encoding ≡ none
    → r.orientation ≡ native
    → r.precision_policy.sensitive_internal_type ≡ f32
    → IsEligible (semantic k row.id row.lowering row.scalar row.score row.notes) r t
semantic-IsEligible k row r t op no_encoding orientation internal = record {
  encoding = sym no_encoding;
  ready = refl;
  mode = mem_modes r.mode;
  backend = inl (Memᴰ.head refl);
  architecture = inl refl;
  features = tt;
  logical_rank = λ s n e q. absurd (cc);
  multiples = λ s e. tt;
  orientation = inr (Memᴰ.head orientation);
  types = (refl, refl, refl);
  precision = λ e. Memᴰ.head (internal ∙ sym (row.sensitive (ap is_precision_sensitive op ∙ e)));
}

-- A registry with unique ids, none of which is a built-in id, takes the built-in candidates: the registration
-- succeeds, the candidates are added at the end, in the order of the table, and the ids are still unique. The
-- registry then serves every operation that uses no parameter: for a request of such a kind without an
-- encoding, in the native orientation and with `f32` for the sensitive operations, in any mode, of any shape and
-- on any target, some candidate of the operation is eligible.
pub register_builtin-Supplies :
    (reg : KernelRegistry) (r : KernelRequest) (t : TargetProfile)
    → HasUniqueIds reg.candidates
    → Apart reg.candidates builtin_semantic_candidates
    → has_builtin r.operation ≡ true
    → r.encoding ≡ none
    → r.orientation ≡ native
    → r.precision_policy.sensitive_internal_type ≡ f32
    → (reg' : KernelRegistry) × (register_builtin_semantic_candidates reg ≡ ok reg')
      × HasUniqueIds reg'.candidates
      × (reg'.candidates ≡ reg.candidates ++ builtin_semantic_candidates)
      × ((c : KernelCandidateDescriptor) × Memᴰ c reg'.candidates
          × (c.operation ≡ r.operation)
          × IsEligible c r t)
unfolding register_builtin_semantic_candidates
register_builtin-Supplies reg r t unique apart h no_encoding orientation internal =
    let (reg', made) = register_all-ok builtin_semantic_candidates reg refl apart in
    let (still, grown) = register_all-HasUniqueIds builtin_semantic_candidates reg unique made in
    let row = has_builtin-Row r.operation h in
    (
      reg',
      made,
      still,
      grown,
      (
        semantic r.operation row.id row.lowering row.scalar row.score row.notes,
        rw grown (mem-append_right reg.candidates _ row.listed),
        refl,
        semantic-IsEligible r.operation row r t refl no_encoding orientation internal,
      ),
    )
