-- ===== src/Checkpoint/Entries.antt =====
-- What the containers share: the order of the tensors, the file of a source, and what the checks of
-- crates/dyninfer-checkpoint/src/limits.rs ensure.
use dyninfer.Prelude.{
  ℕ, ◌≤◌, String, ◌≡◌, Bool, true, false, none, some, List, [], ◌∷◌, All, length, leb, leb→le,
  codes, Ensures, then-Ensures, ok-Ensures, guard-Ensures, imp-Ensures, text_leq, text_leq_total,
  text_leq_trans,
}
use dyninfer.Core.Types.{SourceFile}
use dyninfer.Checkpoint.Catalog.{RawTensorEntry}
use dyninfer.Checkpoint.Limits.{
  InspectionLimits, utf8_len, validate_key, validate_dims, validate_shape, BytesSource, source_len,
}

abbrev pub entry_leq : RawTensorEntry → RawTensorEntry → Bool
entry_leq a b = text_leq a.key b.key

abbrev pub files_of : BytesSource → List SourceFile
files_of s = elim s.path [
  | none ↦ []
  | some p ↦ record { path = p; size_bytes = source_len s; content_digest = none } ∷ []
]

pub entry_total : (a b : RawTensorEntry) → entry_leq a b ≡ false → entry_leq b a ≡ true
entry_total a b h = text_leq_total a.key b.key h

pub entry_trans :
    (a b c : RawTensorEntry) → entry_leq a b ≡ true → entry_leq b c ≡ true → entry_leq a c ≡ true
entry_trans a b c h k = text_leq_trans a.key b.key c.key h k

pub key_ok :
    (limits : InspectionLimits) (key : String)
    → Ensures (validate_key limits key) (λ u. utf8_len (codes key) ≤ limits.max_key_len)
unfolding validate_key
key_ok limits key = imp-Ensures (guard-Ensures _ _) (λ u h. leb→le _ _ h)

dims_ok : (m : ℕ) (ds : List ℕ) → Ensures (validate_dims m ds) (λ u. All (λ d. d ≤ m) ds)
unfolding validate_dims
dims_ok m [] = ok-Ensures tt
dims_ok m (d ∷ ds) =
    then-Ensures (guard-Ensures (leb d m) _)
      (λ u h. imp-Ensures (dims_ok m ds) (λ v rest. (leb→le _ _ h, rest)))

pub shape_ok :
    (limits : InspectionLimits) (shape : List ℕ)
    → Ensures
        (validate_shape limits shape)
        (λ u. (length shape ≤ limits.max_shape_rank) × All (λ d. d ≤ limits.max_dim) shape)
unfolding validate_shape
shape_ok limits shape =
    then-Ensures (guard-Ensures (leb (length shape) limits.max_shape_rank) _)
      (λ u h. imp-Ensures (dims_ok limits.max_dim shape) (λ v rest. (leb→le _ _ h, rest)))
