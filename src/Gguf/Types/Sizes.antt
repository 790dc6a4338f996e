-- ===== src/Gguf/Types/Sizes.antt =====
-- The sizes of crates/dyninfer-checkpoint-gguf/src/types.rs against the layout of whole blocks.
use dyninfer.Prelude.{
  ℕ, ◌*◌, ◌/◌, ◌%◌, ◌<◌, ◌≡◌, sym, ◌∙◌, >>=-eq-ok, ok_or, ok_or-eq-ok, none, some, List, All, ok,
  err, arith, ltb, ◌==◌, u64_mod, if◌then◌else◌, Result,
}
use dyninfer.Core.Shape.{fold_mul}
use dyninfer.Core.Shape.Numel.{product, fold_mul-some, fold_mul-eq-product}
use dyninfer.Checkpoint.Errors.{CheckpointError, numel_overflow, partial_block, size_overflow}
use dyninfer.Gguf.Types.{GgufType, name, block_size, type_size, sized, nbytes_for_shape}

-- The elements of a block (one where the type has no blocks), and its bytes.
abbrev pub block_elements : GgufType → ℕ
unfolding block_size
block_elements t = elim (block_size t) [ none ↦ 1 | some b ↦ b ]

abbrev pub block_bytes : GgufType → ℕ
unfolding type_size
block_bytes t = elim (type_size t) [ none ↦ 0 | some n ↦ n ]

-- the size of `n` elements by whole blocks
abbrev pub by_blocks : GgufType → ℕ → Result CheckpointError ℕ
by_blocks t n =
    if n % block_elements t == 0
    then (if ltb (n / block_elements t * block_bytes t) u64_mod
        then ok (n / block_elements t * block_bytes t)
        else err size_overflow)
    else err (partial_block (name t) n (block_elements t))

sized-by_blocks : (t : GgufType) (n : ℕ) → sized t n (block_size t) ≡ by_blocks t n
unfolding sized block_size type_size
sized-by_blocks GgufType.f32 n = ground arith
sized-by_blocks _ n = ground arith

by_blocks-ok :
    (t : GgufType) (n : ℕ) {r : ℕ}
    → by_blocks t n ≡ ok r
    → (n % block_elements t ≡ 0) × (r ≡ n / block_elements t * block_bytes t) × (r < u64_mod)
by_blocks-ok t n e = ground arith

-- A size that `nbytes_for_shape` returns is that of whole blocks: the block's elements divide the
-- product of the dimensions, the size is the number of blocks times the bytes of a block, and it
-- fits 64 bits.
pub nbytes_for_shape-ok :
    (t : GgufType) (shape : List ℕ) {r : ℕ}
    → nbytes_for_shape t shape ≡ ok r
    → (product shape % block_elements t ≡ 0)
      × (r ≡ product shape / block_elements t * block_bytes t)
      × (r < u64_mod)
unfolding nbytes_for_shape
nbytes_for_shape-ok t shape {r} e =
    let (n, counted, sizes) =
      >>=-eq-ok (ok_or (fold_mul 1 shape) numel_overflow) (λ n. sized t n (block_size t)) e in
    let (exact, fits) =
      fold_mul-some 1 shape (omega arith) (ok_or-eq-ok (fold_mul 1 shape) numel_overflow counted) in
    let whole : n ≡ product shape = omega (arith, exact) in
    rw (← whole) (by_blocks-ok t n (sym (sized-by_blocks t n) ∙ sizes))

-- Of a shape with no dimension 0, `nbytes_for_shape` returns the size of its whole blocks, or says
-- what is wrong: the number of elements passes 64 bits, a block is left incomplete, or the size
-- passes 64 bits.
pub nbytes_for_shape_exact :
    (t : GgufType) (shape : List ℕ)
    → All (λ d. 0 < d) shape
    → nbytes_for_shape t shape
      ≡ (if ltb (product shape) u64_mod then by_blocks t (product shape) else err numel_overflow)
unfolding nbytes_for_shape
nbytes_for_shape_exact t shape p =
    ground (arith, fold_mul-eq-product shape p, sized-by_blocks t (product shape))
