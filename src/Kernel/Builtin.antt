-- ===== src/Kernel/Builtin.antt =====
-- `register_builtin_semantic_candidates` of crates/dyninfer-kernel-registry/src/lib.rs.
pub mod Supplies
use mathlib.Core.Path.{subst}
use mathlib.Core.List.{append_assoc, append-nil}
use dyninfer.Prelude.{
  ◌≡◌, sym, ◌∙◌, ap, String, none, List, [], ◌∷◌, ◌++◌, Result, ok, ◌>>=◌, >>=-eq-ok,
}
use dyninfer.Prelude.Int.{ℤ, pos}
use dyninfer.Core.Scalar.{ScalarType, f32, i64}
use dyninfer.Core.Ir.{prefill, decode}
use dyninfer.Kernel.{
  KernelOperationKind, input, rope, kv_cache_write, kv_cache_read, attention, silu, multiply,
  residual, any_target, production, native, KernelCandidateDescriptor,
}
use dyninfer.Kernel.Registry.{KernelError, KernelRegistry, register}
use dyninfer.Kernel.Registry.Registration.{HasUniqueIds, register-HasUniqueIds}

-- one row of the table in the loop
abbrev pub semantic :
    KernelOperationKind → String → String → ScalarType → ℤ → String → KernelCandidateDescriptor
semantic operation id lowering scalar score notes = record {
  id = id;
  operation = operation;
  encoding = none;
  input_types = scalar ∷ [];
  output_types = scalar ∷ [];
  accumulator_types = scalar ∷ [];
  shape = record { logical_rank = none; axis_multiples = [] };
  orientations = native ∷ [];
  target = any_target;
  modes = prefill ∷ decode ∷ [];
  lowering = lowering;
  deterministic_score = score;
  readiness = production;
  notes = notes;
}

abbrev pub generated : String
generated = "Architecture-independent generated lowering"

abbrev pub builtin_semantic_candidates : List KernelCandidateDescriptor
builtin_semantic_candidates =
    semantic input "model.input.abi" "model.input.abi" i64 (pos 100) generated
    ∷ semantic rope "rope.generated.f32" "rope.generated" f32 (pos 100) generated
    ∷ semantic kv_cache_write "kv_cache.write.generated" "kv_cache.write.generated" f32 (pos 100)
        generated
    ∷ semantic kv_cache_read "kv_cache.read.generated" "kv_cache.read.generated" f32 (pos 100)
        generated
    ∷ semantic attention "attention.gqa.generated.f32" "attention.gqa.generated" f32 (pos 100)
        generated
    ∷ semantic silu "elementwise.silu.generated.f32" "elementwise.silu.generated" f32 (pos 100)
        generated
    ∷ semantic multiply "elementwise.multiply.generated.f32" "elementwise.multiply.generated" f32
        (pos 100) generated
    ∷ semantic residual "residual.add.generated.f32" "residual.add.generated" f32 (pos 100)
        generated
    ∷ semantic attention "attention.online_paged.generated.f32" "attention.online_paged.generated"
        f32 (pos 90) "Runtime-paged online-softmax attention"
    ∷ []

-- the loop: each `register` may fail
unfoldable pub register_all :
    KernelRegistry → List KernelCandidateDescriptor → Result KernelError KernelRegistry
unfolding register
register_all reg [] = ok reg
register_all reg (c ∷ cs) = do reg' ← register reg c; register_all reg' cs

unfoldable pub register_builtin_semantic_candidates :
    KernelRegistry → Result KernelError KernelRegistry
unfolding register_all
register_builtin_semantic_candidates reg = register_all reg builtin_semantic_candidates

pub register_all-HasUniqueIds :
    (cs : List KernelCandidateDescriptor) (reg : KernelRegistry) {reg' : KernelRegistry}
    → HasUniqueIds reg.candidates
    → register_all reg cs ≡ ok reg'
    → HasUniqueIds reg'.candidates × (reg'.candidates ≡ reg.candidates ++ cs)
unfolding register_all
register_all-HasUniqueIds [] reg {reg'} h e =
    let same : reg ≡ reg' = cc in
    let p : reg.candidates ≡ reg'.candidates = ap (λ r. r.candidates) same in
    (subst HasUniqueIds p h, sym p ∙ sym (append-nil reg.candidates))
register_all-HasUniqueIds (c ∷ cs) reg {reg'} h e =
    let (next, added, rest) = >>=-eq-ok (register reg c) (λ reg'. register_all reg' cs) e in
    let (unique, grown) = register-HasUniqueIds reg c h added in
    let (unique', all) = register_all-HasUniqueIds cs next unique rest in
    (unique', all ∙ ap (λ x. x ++ cs) grown ∙ append_assoc reg.candidates (c ∷ []) cs)
