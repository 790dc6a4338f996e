-- ===== src/Quantization/Sound/Groups.antt =====
-- `MlxAffineDefinition` accepts only packed words with a scale and a bias for each group.
use native.Mathlib.Nat.{div-add-mod'}
use dyninfer.Prelude.{
  ℕ, ◌≡◌, refl, sym, ap, ◌∙◌, ◌*◌, ◌/◌, ◌%◌, String, true, ◌&&◌, ◌==◌, ==_iff, List, [], ◌∷◌, ◌++◌,
  length, Ensures, then-Ensures, ok-Ensures, imp-Ensures, ok_or-Ensures, guard-Ensures, checked_mul,
  checked_mul-some, arith, str_eq, str_eq_iff, codes_eq, codes_eq_iff, Option-cases, inl, inr,
}
use dyninfer.Prelude.Options.{and_then}
use dyninfer.Core.Scalar.{ScalarType, u32, StorageElementType, scalar, scalar_beq_iff}
use dyninfer.Core.Shape.{numel}
use dyninfer.Core.Types.{PhysicalEncoding, group_quantized, GroupQuantized, StorageComponent}
use dyninfer.Checkpoint.Catalog.{LogicalParameter}
use dyninfer.Quantization.{unsupported, physical_encoding_key, fold_lengths}
use dyninfer.Quantization.MlxAffine.{
  mlx_id, mlx_key, matches_group, valid_group, is_scalar, scalar_size, validate_component, last,
  set_last, validate_shapes, validate_components, validate_group_of, validate_group, mlx_definition,
}
use dyninfer.Quantization.Stored.{Sized, GroupStored, StoredAs}
use dyninfer.Quantization.Stored.Sums.{fold_lengths-total, last-set_last}
use dyninfer.Quantization.Sound.{Sound}

is_scalar-eq : (s : StorageElementType) (t : ScalarType) → is_scalar s t ≡ true → s ≡ scalar t
is_scalar-eq (scalar s) t h = ap scalar ((scalar_beq_iff s t).0 h)
is_scalar-eq _ t h = absurd (cc)

divided : (n d : ℕ) → n % d ≡ 0 → n / d * d ≡ n
divided n d h = let parts = div-add-mod' n d in omega (arith, parts, h)

validate_component-Sized :
    (key : String) (c : StorageComponent) (t : ScalarType)
    → c.storage_type ≡ scalar t
    → Ensures (validate_component key c) (λ u. Sized t c.shape c.byte_ranges)
unfolding validate_component
validate_component-Sized key c t typed =
    then-Ensures (ok_or-Ensures (scalar_size c.storage_type) _) (λ size element.
      then-Ensures (ok_or-Ensures (and_then (numel c.shape) (λ n. checked_mul n size)) _)
        (λ expected sized.
          then-Ensures (ok_or-Ensures (fold_lengths 0 c.byte_ranges) _) (λ actual summed.
            then-Ensures (guard-Ensures (actual == expected) _) (λ u exact.
              ok-Ensures (elim (Option-cases (numel c.shape)) [
                | inl q ↦ absurd (cc)
                | inr (count, q) ↦ record {
                  count = count;
                  size = size;
                  counted = q;
                  element = sym (ap scalar_size typed) ∙ element;
                  exact =
                      let product = checked_mul-some count size {c = expected} (cc) in
                      let sum = fold_lengths-total 0 c.byte_ranges summed in
                      ground (arith, product.0, sum, exact);
                }
              ])))))

-- what the checks of the shapes establish
record Grouped (bits group_size : ℕ) (dims packed scales biases : List ℕ) : Type 0 where
  front : List ℕ
  last_axis : ℕ
  words : ℕ
  groups : ℕ
  shaped : dims ≡ front ++ last_axis ∷ []
  packed_shape : packed ≡ front ++ words ∷ []
  scales_shape : scales ≡ front ++ groups ∷ []
  biases_shape : biases ≡ front ++ groups ∷ []
  all_bits : words * 32 ≡ last_axis * bits
  all_groups : groups * group_size ≡ last_axis

validate_shapes-Grouped :
    (bits group_size : ℕ) (key : String) (dims : List ℕ) (packed scales biases : StorageComponent)
    → Ensures
        (validate_shapes bits group_size key dims packed scales biases)
        (λ u. Grouped bits group_size dims packed.shape.dims scales.shape.dims biases.shape.dims)
unfolding validate_shapes
validate_shapes-Grouped bits group_size key dims packed scales biases =
    then-Ensures (guard-Ensures (length packed.shape.dims == length dims) _) (λ u ranked.
      then-Ensures (ok_or-Ensures (last dims) _) (λ d ended.
        then-Ensures (ok_or-Ensures (checked_mul d bits) _) (λ numerator multiplied.
          then-Ensures (guard-Ensures (numerator % 32 == 0) _) (λ v complete.
            then-Ensures (guard-Ensures (d % group_size == 0) _) (λ w divisible.
              then-Ensures
                (guard-Ensures
                  (codes_eq packed.shape.dims (set_last dims (numerator / 32))
                    && codes_eq scales.shape.dims (set_last dims (d / group_size))
                    && codes_eq biases.shape.dims (set_last dims (d / group_size)))
                  (unsupported key "MLX affine component shapes are invalid"))
                (λ x shapes. ok-Ensures (
                  let (front, whole, changed) = last-set_last dims ended in
                  let words_match : codes_eq packed.shape.dims (set_last dims (numerator / 32))
                      ≡ true =
                    ground arith in
                  let scales_match : codes_eq scales.shape.dims (set_last dims (d / group_size))
                      ≡ true =
                    ground arith in
                  let biases_match : codes_eq biases.shape.dims (set_last dims (d / group_size))
                      ≡ true =
                    ground arith in
                  record {
                    front = front;
                    last_axis = d;
                    words = numerator / 32;
                    groups = d / group_size;
                    shaped = whole;
                    packed_shape = (codes_eq_iff _ _).0 words_match ∙ changed (numerator / 32);
                    scales_shape = (codes_eq_iff _ _).0 scales_match ∙ changed (d / group_size);
                    biases_shape = (codes_eq_iff _ _).0 biases_match ∙ changed (d / group_size);
                    all_bits =
                        divided numerator 32 ((==_iff _ 0).0 complete)
                        ∙ (checked_mul-some d bits multiplied).0;
                    all_groups = divided d group_size ((==_iff _ 0).0 divisible);
                  })))))))

validate_components-Stored :
    (bits : ℕ) (g : GroupQuantized) (p : LogicalParameter) (cs : List StorageComponent)
    → g.storage_bits ≡ bits
    → p.components ≡ cs
    → Ensures (validate_components bits g p cs) (λ u. GroupStored g p)
unfolding validate_components
validate_components-Stored bits g p (packed ∷ scales ∷ biases ∷ []) stored_bits same =
    then-Ensures
      (guard-Ensures
        (str_eq packed.name "packed" && str_eq scales.name "scales" && str_eq biases.name "biases")
        (unsupported p.canonical_name "MLX affine component names are invalid"))
      (λ u named.
        then-Ensures
          (guard-Ensures
            (is_scalar packed.storage_type u32
              && is_scalar scales.storage_type g.scale_type
              && is_scalar biases.storage_type g.scale_type)
            (unsupported p.canonical_name "MLX affine component dtypes are invalid"))
          (λ v typed.
            then-Ensures
              (validate_shapes-Grouped bits g.group_size p.canonical_name p.logical_type.shape.dims
                packed scales biases)
              (λ w grouped.
                then-Ensures
                  (validate_component-Sized p.canonical_name packed u32
                    (is_scalar-eq _ _ (ground arith)))
                  (λ x packed_sized.
                    then-Ensures
                      (validate_component-Sized p.canonical_name scales g.scale_type
                        (is_scalar-eq _ _ (ground arith)))
                      (λ y scales_sized.
                        imp-Ensures
                          (validate_component-Sized p.canonical_name biases g.scale_type
                            (is_scalar-eq _ _ (ground arith)))
                          (λ z biases_sized. record {
                            packed = packed;
                            scales = scales;
                            biases = biases;
                            front = grouped.front;
                            last_axis = grouped.last_axis;
                            words = grouped.words;
                            groups = grouped.groups;
                            three = same;
                            shaped = grouped.shaped;
                            packed_shape = grouped.packed_shape;
                            scales_shape = grouped.scales_shape;
                            biases_shape = grouped.biases_shape;
                            all_bits =
                                grouped.all_bits
                                ∙ ap (λ n. grouped.last_axis * n) (sym stored_bits);
                            all_groups = grouped.all_groups;
                            packed_sized = packed_sized;
                            scales_sized = scales_sized;
                            biases_sized = biases_sized;
                          }))))))
validate_components-Stored bits g p [] stored_bits same = record { run = λ u h. absurd (cc) }
validate_components-Stored bits g p (a ∷ []) stored_bits same = record { run = λ u h. absurd (cc) }
validate_components-Stored bits g p (a ∷ b ∷ []) stored_bits same = record {
  run = λ u h. absurd (cc);
}
validate_components-Stored bits g p (a ∷ b ∷ c ∷ d ∷ cs) stored_bits same = record {
  run = λ u h. absurd (cc);
}

valid_group-bits :
    (bits : ℕ) (g : GroupQuantized) → valid_group bits g ≡ true → g.storage_bits ≡ bits
unfolding valid_group
valid_group-bits bits g h = ground arith

validate_group_of-Stored :
    (bits : ℕ) (p : LogicalParameter) (e : PhysicalEncoding)
    → Ensures (validate_group_of bits p e) (λ u. StoredAs e p)
validate_group_of-Stored bits p (group_quantized g) =
    then-Ensures (guard-Ensures (valid_group bits g) _) (λ u valid.
      validate_components-Stored bits g p p.components (valid_group-bits bits g valid) refl)
validate_group_of-Stored bits p _ = record { run = λ u h. absurd (cc) }

matches_group-key :
    (bits : ℕ) (e : PhysicalEncoding)
    → matches_group bits e ≡ true
    → physical_encoding_key e ≡ mlx_key bits
unfolding physical_encoding_key
matches_group-key bits (group_quantized g) h =
    let packed : str_eq g.packing (mlx_id bits) ≡ true = ground arith in
    ap (λ s. record { id = s; version = 1 }) ((str_eq_iff g.packing (mlx_id bits)).0 packed)
matches_group-key bits _ h = absurd (cc)

pub mlx_definition-Sound : (bits : ℕ) → Sound (mlx_definition bits)
unfolding validate_group
mlx_definition-Sound bits = record {
  key_agrees = matches_group-key bits;
  accepts = λ p. validate_group_of-Stored bits p p.encoding;
}
