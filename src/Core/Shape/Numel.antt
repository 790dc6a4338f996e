-- ===== src/Core/Shape/Numel.antt =====
-- `numel` of crates/dyninfer-core/src/shape.rs against the product of the dimensions.
use native.Mathlib.Nat.{mul_assoc}
use dyninfer.Prelude.{
  ℕ, ◌*◌, ◌≤◌, ◌<◌, ◌≡◌, none, some, List, [], ◌∷◌, arith, All, u64_mod, ltb, if◌then◌else◌,
}
use dyninfer.Core.Shape.{Shape, fold_mul, numel}

abbrev pub product : List ℕ → ℕ
product [] = 1
product (d ∷ ds) = d * product ds

pub fold_mul-some :
    (acc : ℕ) (ds : List ℕ) {n : ℕ}
    → acc < u64_mod
    → fold_mul acc ds ≡ some n
    → (n ≡ acc * product ds) × (n < u64_mod)
unfolding fold_mul
fold_mul-some acc [] h e = ground arith
fold_mul-some acc (d ∷ ds) {n} h e = ground (arith, fold_mul-some (acc * d) ds {n = n})

mul_pos : (a b : ℕ) → 0 < a → 0 < b → 0 < a * b
mul_pos a b h k = grind arith

le-mul_pos : (a b : ℕ) → 0 < b → a ≤ a * b
le-mul_pos a b h = grind arith

product_pos : (ds : List ℕ) → All (λ d. 0 < d) ds → 0 < product ds
product_pos [] h = omega arith
product_pos (d ∷ ds) h = grind (arith, product_pos ds h.1)

fold_mul_pos :
    (acc : ℕ) (ds : List ℕ)
    → 0 < acc
    → acc < u64_mod
    → All (λ d. 0 < d) ds
    → fold_mul acc ds ≡ (if ltb (acc * product ds) u64_mod then some (acc * product ds) else none)
unfolding fold_mul
fold_mul_pos acc [] h k p = ground arith
fold_mul_pos acc (d ∷ ds) h k p = ground (
  arith,
  mul_assoc acc d (product ds),
  le-mul_pos (acc * d) (product ds) (product_pos ds p.1),
  mul_pos acc d h p.0,
  λ (fits : acc * d < u64_mod). fold_mul_pos (acc * d) ds (mul_pos acc d h p.0) fits p.1,
)

-- A number that `numel` returns is the product of the dimensions and fits 64 bits.
pub numel-some : (s : Shape) {n : ℕ} → numel s ≡ some n → (n ≡ product s.dims) × (n < u64_mod)
unfolding numel
numel-some s e = omega (arith, fold_mul-some 1 s.dims (omega arith) e)

pub fold_mul-eq-product :
    (ds : List ℕ)
    → All (λ d. 0 < d) ds
    → fold_mul 1 ds ≡ (if ltb (product ds) u64_mod then some (product ds) else none)
fold_mul-eq-product ds p = ground (arith, fold_mul_pos 1 ds (omega arith) (omega arith) p)

-- Where no dimension is 0, `numel` is the product of the dimensions if that fits 64 bits, and
-- `None` otherwise.
pub numel-eq-product :
    (s : Shape)
    → All (λ d. 0 < d) s.dims
    → numel s ≡ (if ltb (product s.dims) u64_mod then some (product s.dims) else none)
unfolding numel
numel-eq-product s p = fold_mul-eq-product s.dims p
