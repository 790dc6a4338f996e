-- ===== src/Quantization/Stored/Sums.antt =====
-- The checked sums and the lists that the definitions of encodings compute.
use dyninfer.Prelude.{
  ℕ, ◌+◌, ◌≡◌, refl, ap, some, List, [], ◌∷◌, ◌++◌, checked_add, checked_add-some, arith,
  Option-cases, inl, inr,
}
use mathlib.Core.List.{append-nil}
use dyninfer.Core.Shape.{ByteRange}
use dyninfer.Core.Types.{BlockLayoutField, StorageComponent}
use dyninfer.Quantization.{fold_lengths, ranges_of}
use dyninfer.Quantization.GgufBlock.{layout_end}
use dyninfer.Quantization.MlxAffine.{last, set_last}
use dyninfer.Quantization.Stored.{total, Tiles}

pub fold_lengths-total :
    (acc : ℕ) (rs : List ByteRange) {s : ℕ} → fold_lengths acc rs ≡ some s → s ≡ acc + total rs
unfolding fold_lengths total
fold_lengths-total acc [] h = ground arith
fold_lengths-total acc (r ∷ rs) {s = s} h = elim (Option-cases (checked_add acc r.length)) [
  | inl q ↦ absurd (cc)
  | inr (a, q) ↦
      let later = fold_lengths-total a rs {s = s} (cc) in
      let sum = checked_add-some acc r.length q in omega (arith, later, sum.0)
]

-- a list of one component has its ranges
pub ranges_of-single : (c : StorageComponent) → ranges_of (c ∷ []) ≡ c.byte_ranges
ranges_of-single c = append-nil c.byte_ranges

pub layout_end-Tiles :
    (start : ℕ) (fields : List BlockLayoutField) {stop : ℕ}
    → layout_end start fields ≡ some stop
    → Tiles start fields stop
unfolding layout_end Tiles
layout_end-Tiles start [] h = cc
layout_end-Tiles start (field ∷ fields) h =
    (ground arith, layout_end-Tiles (start + field.byte_length) fields (ground arith))

-- A list with a last element is a front and that element, and `set_last` keeps the front.
pub last-set_last :
    (dims : List ℕ) {d : ℕ}
    → last dims ≡ some d
    → (front : List ℕ) × (dims ≡ front ++ d ∷ []) × ((v : ℕ) → set_last dims v ≡ front ++ v ∷ [])
unfolding last set_last
last-set_last [] h = absurd (cc)
last-set_last (a ∷ []) h = ([], cc, λ v. refl)
last-set_last (a ∷ b ∷ dims) h =
    let (front, whole, changed) = last-set_last (b ∷ dims) h in
    (a ∷ front, ap (λ xs. a ∷ xs) whole, λ v. ap (λ xs. a ∷ xs) (changed v))
