-- ===== src/Quantization/Sound/Plain.antt =====
-- `PlainDefinition` accepts only plain storage of the exact size.
use dyninfer.Prelude.{
  ℕ, ◌≡◌, refl, sym, ap, ◌∙◌, ◌*◌, true, ◌&&◌, ◌==◌, some, List, [], ◌∷◌, length, then-Ensures,
  ok-Ensures, ok_or-Ensures, guard-Ensures, checked_mul-some, arith, Option-cases, inl, inr,
}
use dyninfer.Core.Scalar.{ScalarType, scalar_beq, scalar_beq_iff, size_bytes}
use dyninfer.Core.Shape.{Shape, numel}
use dyninfer.Core.Types.{PhysicalEncoding, plain, StorageComponent}
use dyninfer.Checkpoint.Catalog.{LogicalParameter}
use dyninfer.Quantization.{physical_encoding_key, fold_lengths, ranges_of}
use dyninfer.Quantization.Plain.{
  matches_plain, plain_bytes, validate_plain, plain_definition, plain_key,
}
use dyninfer.Quantization.Stored.{PlainStored, StoredAs}
use dyninfer.Quantization.Stored.Sums.{fold_lengths-total, ranges_of-single}
use dyninfer.Quantization.Sound.{Sound}

matches_plain-key :
    (t : ScalarType) (e : PhysicalEncoding)
    → matches_plain t e ≡ true
    → physical_encoding_key e ≡ plain_key t
unfolding physical_encoding_key
matches_plain-key t (plain s order) h = ap plain_key ((scalar_beq_iff s t).0 h)
matches_plain-key t _ h = absurd (cc)

-- the bytes are those of the elements
plain_bytes-some :
    (t : ScalarType) (shape : Shape) {n : ℕ}
    → plain_bytes t shape ≡ some n
    → (count : ℕ) × (size : ℕ) × (numel shape ≡ some count)
      × (size_bytes t ≡ some size)
      × (n ≡ count * size)
unfolding plain_bytes
plain_bytes-some t shape h = elim (Option-cases (numel shape)) [
  | inl q ↦ absurd (cc)
  | inr (count, q) ↦ elim (Option-cases (size_bytes t)) [
    | inl r ↦ absurd (cc)
    | inr (size, r) ↦ (count, size, q, r, (checked_mul-some count size (cc)).0)
  ]
]

-- one component whose ranges add up to the size is what is stored
plain-Stored :
    (t : ScalarType) (p : LogicalParameter) (cs : List StorageComponent) (expected actual : ℕ)
    → p.components ≡ cs
    → p.logical_type.element_type ≡ t
    → plain_bytes t p.logical_type.shape ≡ some expected
    → fold_lengths 0 (ranges_of cs) ≡ some actual
    → (length cs == 1 && actual == expected) ≡ true
    → PlainStored t p
plain-Stored t p (c ∷ []) expected actual same typed sized summed exact =
    let (count, size, counted, element, product) = plain_bytes-some t p.logical_type.shape sized in
    let sum =
      fold_lengths-total 0 c.byte_ranges
        (ap (fold_lengths 0) (sym (ranges_of-single c)) ∙ summed) in
    record {
      component = c;
      single = same;
      typed = typed;
      sized = record {
        count = count;
        size = size;
        counted = counted;
        element = element;
        exact = ground (arith, sum, product, exact);
      };
    }
plain-Stored t p [] expected actual same typed sized summed exact = absurd (ground arith)
plain-Stored t p (c ∷ d ∷ cs) expected actual same typed sized summed exact = absurd (ground arith)

stored_plain :
    (t : ScalarType) (p : LogicalParameter) (e : PhysicalEncoding)
    → matches_plain t e ≡ true
    → PlainStored t p
    → StoredAs e p
stored_plain t p (plain s order) h stored = rw ((scalar_beq_iff s t).0 h) stored
stored_plain t p _ h stored = absurd (cc)

pub plain_definition-Sound : (t : ScalarType) → Sound (plain_definition t)
unfolding validate_plain
plain_definition-Sound t = record {
  key_agrees = matches_plain-key t;
  accepts = λ p. then-Ensures (guard-Ensures (matches_plain t p.encoding) _) (λ u matched.
      then-Ensures (guard-Ensures (scalar_beq p.logical_type.element_type t) _) (λ v typed.
        then-Ensures (ok_or-Ensures (plain_bytes t p.logical_type.shape) _) (λ expected sized.
          then-Ensures (ok_or-Ensures (fold_lengths 0 (ranges_of p.components)) _) (λ actual summed.
            then-Ensures (guard-Ensures (length p.components == 1 && actual == expected) _)
              (λ w exact. ok-Ensures (
                stored_plain t p p.encoding matched (
                  plain-Stored t p p.components expected actual refl ((scalar_beq_iff _ _).0 typed)
                    sized summed exact)))))));
}
