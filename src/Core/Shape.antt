-- ===== src/Core/Shape.antt =====
-- crates/dyninfer-core/src/shape.rs
pub mod Numel
use dyninfer.Prelude.{
  ℕ, ◌+◌, ◌*◌, Bool, Option, none, some, List, [], ◌∷◌, length, checked_mul, saturating_add,
  codes_eq,
}

pub record Shape : Type 0 where
  pub dims : List ℕ

abbrev pub rank : Shape → ℕ
rank s = length s.dims

-- `try_fold(acc, |acc, &d| acc.checked_mul(d))`
unfoldable pub fold_mul : ℕ → List ℕ → Option ℕ
fold_mul acc [] = some acc
fold_mul acc (d ∷ ds) = elim (checked_mul acc d) [ none ↦ none | some a ↦ fold_mul a ds ]

unfoldable pub numel : Shape → Option ℕ
unfolding fold_mul
numel s = fold_mul 1 s.dims

-- `self.0 == other.0`
unfoldable pub is_compatible_with : Shape → Shape → Bool
is_compatible_with s t = codes_eq s.dims t.dims

pub record ByteRange : Type 0 where
  pub offset : ℕ
  pub length : ℕ

unfoldable pub end : ByteRange → ℕ
end r = saturating_add r.offset r.length
