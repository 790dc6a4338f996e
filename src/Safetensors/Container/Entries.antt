-- ===== src/Safetensors/Container/Entries.antt =====
-- Each tensor that the loop of crates/dyninfer-checkpoint-safetensors/src/container.rs accepts is in its
-- file, of its exact size, and within the limits.
use dyninfer.Prelude.{
  ℕ, String, ◌+◌, ◌-◌, ◌*◌, ◌≤◌, ◌<◌, ◌≡◌, ◌∙◌, refl, ap, true, Option, some, List, [], ◌∷◌, All,
  All-append, length, Ensures, then-Ensures, ok-Ensures, ok_or-Ensures, guard-Ensures, self-Ensures,
  if-Ensures, leb, ◌==◌, ==_iff, str_eq, codes, checked_add, checked_mul, checked_mul-some, u64_max,
  arith,
}
use dyninfer.Prelude.Json.{Json}
use dyninfer.Core.Scalar.{ScalarType, scalar, size_bytes}
use dyninfer.Core.Shape.{ByteRange, fold_mul}
use dyninfer.Core.Shape.Numel.{product, fold_mul-some}
use dyninfer.Checkpoint.Catalog.{RawTensorEntry}
use dyninfer.Checkpoint.Entries.{key_ok, shape_ok}
use dyninfer.Checkpoint.Limits.{InspectionLimits, utf8_len}
use dyninfer.Safetensors.Container.{
  TensorInfo, parse_dtype, unwrap_or, entry_of, Scan, scan_field, scan,
}

-- The tensor has one range, which holds its elements exactly and ends within a file of `size` bytes; its
-- key and its shape are within the limits.
pub record InFile (limits : InspectionLimits) (size : ℕ) (e : RawTensorEntry) : Type 0 where
  pub range : ByteRange
  pub element : ScalarType
  pub element_size : ℕ
  pub one_range : e.byte_ranges ≡ range ∷ []
  pub typed : e.storage_type ≡ scalar element
  pub sized : size_bytes element ≡ some element_size
  pub exact : range.length ≡ product e.shape * element_size
  pub within : range.offset + range.length ≤ size
  pub key_fits : utf8_len (codes e.key) ≤ limits.max_key_len
  pub rank_fits : length e.shape ≤ limits.max_shape_rank
  pub dims_fit : All (λ d. d ≤ limits.max_dim) e.shape

ends_within :
    (offset n size : ℕ)
    → size < u64_max
    → leb (unwrap_or (checked_add offset n) u64_max) size ≡ true
    → offset + n ≤ size
ends_within offset n size fits h = ground arith

exact_length :
    (n elem expected len : ℕ) (shape : List ℕ)
    → fold_mul 1 shape ≡ some n
    → checked_mul n elem ≡ some expected
    → (len == expected) ≡ true
    → len ≡ product shape * elem
exact_length n elem expected len shape counted multiplied same =
    let a = fold_mul-some 1 shape (omega arith) counted in
    let b = checked_mul-some n elem multiplied in
    let c = (==_iff len expected).0 same in
    let d : n ≡ product shape = omega (arith, a.0) in c ∙ b.0 ∙ ap (λ k. k * elem) d

module _ (tensor_info : Json → Option TensorInfo) (limits : InspectionLimits) (data_base size : ℕ)
    (small : size < u64_max) where
  entry_of-InFile :
      (key : String) (value : Json)
      → Ensures (entry_of tensor_info limits data_base size key value) (InFile limits size)
  unfolding entry_of
  entry_of-InFile key value = then-Ensures (key_ok limits key) (λ u1 key_fits.
      then-Ensures (ok_or-Ensures (tensor_info value) _) (λ info u2.
        then-Ensures (shape_ok limits info.shape) (λ u3 shape_fits.
          then-Ensures (guard-Ensures (leb info.start info.stop) _) (λ u4 ordered.
            then-Ensures (self-Ensures (parse_dtype info.dtype)) (λ ty u5.
              then-Ensures (ok_or-Ensures (size_bytes ty) _) (λ elem_size sized.
                then-Ensures (ok_or-Ensures (fold_mul 1 info.shape) _) (λ numel counted.
                  then-Ensures (ok_or-Ensures (checked_mul numel elem_size) _)
                    (λ expected multiplied.
                      then-Ensures (guard-Ensures (info.stop - info.start == expected) _)
                        (λ u6 same.
                          then-Ensures (ok_or-Ensures (checked_add data_base info.start) _)
                            (λ offset placed.
                              then-Ensures
                                (guard-Ensures
                                  (leb
                                    (unwrap_or (checked_add offset (info.stop - info.start))
                                      u64_max)
                                    size)
                                  _)
                                (λ u7 inside. ok-Ensures (record {
                                  range = record {
                                    offset = offset;
                                    length = info.stop - info.start;
                                  };
                                  element = ty;
                                  element_size = elem_size;
                                  one_range = refl;
                                  typed = refl;
                                  sized = sized;
                                  exact =
                                      exact_length numel elem_size expected _ info.shape counted
                                        multiplied same;
                                  within = ends_within offset _ size small inside;
                                  key_fits = key_fits;
                                  rank_fits = shape_fits.0;
                                  dims_fit = shape_fits.1;
                                }))))))))))))

  abbrev AllInFile : Scan → Type 0
  AllInFile s = All (InFile limits size) s.entries

  scan_field-InFile :
      (s : Scan) (key : String) (value : Json)
      → AllInFile s
      → Ensures (scan_field tensor_info limits data_base size s key value) AllInFile
  unfolding scan_field
  scan_field-InFile s key value h = if-Ensures (str_eq key "__metadata__") (ok-Ensures h) (
      then-Ensures (entry_of-InFile key value)
        (λ e k. ok-Ensures (All-append (InFile limits size) s.entries (e ∷ []) h (k, tt))))

  pub scan-InFile :
      (fields : List (String × Json)) (s : Scan)
      → AllInFile s
      → Ensures (scan tensor_info limits data_base size fields s) AllInFile
  unfolding scan
  scan-InFile [] s h = ok-Ensures h
  scan-InFile ((key, value) ∷ rest) s h =
      then-Ensures (scan_field-InFile s key value h) (λ t k. scan-InFile rest t k)
