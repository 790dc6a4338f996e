-- ===== src/Gguf/Container/Directory.antt =====
-- What the cursor of crates/dyninfer-checkpoint-gguf/src/container.rs has read is in the file, and the
-- directory that it gives is within the limits.
use mathlib.Core.List.{reverse}
use dyninfer.Prelude.{
  ℕ, zero, suc, ◌+◌, ◌≤◌, ◌≡◌, refl, ap, String, some, List, [], All, length, ok, ok_or, leb,
  leb→le, ◌==◌, checked_add, checked_add-some, guard, guard-eq-ok, ok_or-eq-ok, >>=-eq-ok, codes,
  arith,
}
use dyninfer.Prelude.Json.{Json}
use dyninfer.Prelude.Effects.{
  ◌>>=◌, pure, Hoare, bind-Hoare, then-Hoare, get_state-Hoare, modify-Hoare, pure-Hoare,
  check-Hoare, lift-Hoare, from-Hoare, to-Hoare, given-Hoare, if-Hoare, fail-Hoare,
}
use dyninfer.Checkpoint.Entries.{key_ok, shape_ok}
use dyninfer.Checkpoint.Limits.{InspectionLimits, utf8_len, BytesSource, source_len, read_range}
use dyninfer.Gguf.Cursor.{
  Read, FloatReader, read_exact, read_uint, read_u64, read_bool, read_string, read_value,
  read_scalar, repeat,
}
use dyninfer.Gguf.Container.{TensorDir, read_metadata, read_dir, read_header}

-- The position is in the file.
abbrev pub Inside : BytesSource → ℕ → Type 0
Inside source pos = pos ≤ source_len source

-- The key and the shape of a tensor are within the limits.
pub record DirFits (limits : InspectionLimits) (d : TensorDir) : Type 0 where
  pub key_fits : utf8_len (codes d.key) ≤ limits.max_key_len
  pub rank_fits : length d.shape ≤ limits.max_shape_rank
  pub dims_fit : All (λ n. n ≤ limits.max_dim) d.shape

-- what `read_range` gives ends in the file
pub read_range-Inside :
    (source : BytesSource) (pos len : ℕ) {buf : List ℕ} {next : ℕ}
    → read_range source pos len ≡ ok buf
    → checked_add pos len ≡ some next
    → (next ≡ pos + len) × (next ≤ source_len source)
unfolding read_range
read_range-Inside source pos len h added =
    let (end, e, k) = >>=-eq-ok (ok_or (checked_add pos len) _) _ h in
    let (u, f, g) = >>=-eq-ok (guard (leb end (source_len source)) _) _ k in
    let same = ok_or-eq-ok (checked_add pos len) _ e in
    let within = leb→le _ _ (guard-eq-ok _ _ _ f) in
    let sum = checked_add-some pos len added in
    let sum' = checked_add-some pos len same in (sum.0, omega (arith, sum.0, sum'.0, within))

module _ (source : BytesSource) where
  pub read_exact-Inside :
      (len : ℕ) → Hoare (Inside source) (read_exact source len) (λ b. Inside source)
  unfolding read_exact
  read_exact-Inside len =
      bind-Hoare {Q = λ pos s. Inside source s} (from-Hoare (λ s h. h) get_state-Hoare) λ pos.
        bind-Hoare {Q = λ buf s. (read_range source pos len ≡ ok buf) × Inside source s}
          (from-Hoare (λ s h buf e. (e, h)) (lift-Hoare _))
          λ buf. given-Hoare λ got.
            bind-Hoare {Q = λ next s. (next ≤ source_len source) × Inside source s}
              (from-Hoare
                (λ s h next e. ((read_range-Inside source pos len got (ok_or-eq-ok _ _ e)).1, h))
                (lift-Hoare _))
              λ next.
                given-Hoare
                  λ within. then-Hoare (from-Hoare (λ s h. within) (modify-Hoare _)) (pure-Hoare _)

  pub read_uint-Inside :
      (len : ℕ) → Hoare (Inside source) (read_uint source len) (λ n. Inside source)
  unfolding read_uint
  read_uint-Inside len = bind-Hoare (read_exact-Inside len) λ b. pure-Hoare _

  pub read_bool-Inside : Hoare (Inside source) (read_bool source) (λ b. Inside source)
  unfolding read_bool
  read_bool-Inside = bind-Hoare (read_exact-Inside 1) λ b. pure-Hoare _

  pub read_string-Inside :
      (limits : InspectionLimits)
      → Hoare (Inside source) (read_string source limits) (λ s. Inside source)
  unfolding read_string
  read_string-Inside limits = bind-Hoare (read_uint-Inside 8) λ len.
      then-Hoare (from-Hoare (λ s h e. h) (check-Hoare _ _))
        (bind-Hoare (read_exact-Inside len) λ bytes. from-Hoare (λ s h t e. h) (lift-Hoare _))

  -- what holds after each reading holds after all of them
  pub repeat-Inside :
      {A : Type 0} (Q : A → Type 0) (n : ℕ) (m : Read A)
      → Hoare (Inside source) m (λ v s. Q v × Inside source s)
      → Hoare (Inside source) (repeat n m) (λ vs s. All Q vs × (length vs ≡ n) × Inside source s)
  unfolding repeat
  repeat-Inside Q zero m h = from-Hoare (λ s i. (tt, refl, i)) (pure-Hoare _)
  repeat-Inside Q (suc n) m h = bind-Hoare h λ v. given-Hoare λ q.
      bind-Hoare (repeat-Inside Q n m h)
        λ vs. from-Hoare (λ s (qs, counted, i). ((q, qs), ap suc counted, i)) (pure-Hoare _)

module _ (source : BytesSource) (limits : InspectionLimits) (floats : FloatReader) where
  read_number-Inside :
      (len : ℕ) (f : ℕ → Json)
      → Hoare (Inside source) (read_uint source len >>= λ n. pure (f n)) (λ v. Inside source)
  read_number-Inside len f = bind-Hoare (read_uint-Inside source len) λ n. pure-Hoare _

  read_float-Inside :
      (len : ℕ) (f : List ℕ → Json)
      → Hoare (Inside source) (read_exact source len >>= λ b. pure (f b)) (λ v. Inside source)
  read_float-Inside len f = bind-Hoare (read_exact-Inside source len) λ b. pure-Hoare _

  read_scalar-Inside :
      (value_type : ℕ)
      → Hoare (Inside source) (read_scalar source limits floats value_type) (λ v. Inside source)
  read_scalar-Inside value_type = if-Hoare (value_type == 0) (read_number-Inside 1 _) (
      if-Hoare (value_type == 1) (read_number-Inside 1 _) (
        if-Hoare (value_type == 2) (read_number-Inside 2 _) (
          if-Hoare (value_type == 3) (read_number-Inside 2 _) (
            if-Hoare (value_type == 4) (read_number-Inside 4 _) (
              if-Hoare (value_type == 5) (read_number-Inside 4 _) (
                if-Hoare (value_type == 6) (read_float-Inside 4 _) (
                  if-Hoare (value_type == 7)
                    (bind-Hoare (read_bool-Inside source) λ b. pure-Hoare _)
                    (if-Hoare (value_type == 8)
                      (bind-Hoare (read_string-Inside source limits) λ s. pure-Hoare _)
                      (if-Hoare (value_type == 10) (read_number-Inside 8 _) (
                        if-Hoare (value_type == 11) (read_number-Inside 8 _) (
                          if-Hoare (value_type == 12) (read_float-Inside 8 _)
                            (fail-Hoare _))))))))))))

  read_value-Inside :
      (depth value_type : ℕ)
      → Hoare
          (Inside source)
          (read_value source limits floats depth value_type)
          (λ v. Inside source)
  unfolding read_value
  read_value-Inside zero value_type = fail-Hoare _
  read_value-Inside (suc depth) value_type =
      if-Hoare (value_type == 9)
        (bind-Hoare (read_uint-Inside source 4) λ elem_type.
          bind-Hoare (read_uint-Inside source 8) λ count.
            then-Hoare (from-Hoare (λ s h e. h) (check-Hoare _ _)) (
              bind-Hoare
                (repeat-Inside source (λ v. Unit {0}) count
                  (read_value source limits floats depth elem_type)
                  (to-Hoare (λ v s h. (tt, h)) (read_value-Inside depth elem_type)))
                λ arr. from-Hoare (λ s (u, c, i). i) (pure-Hoare _)))
        (read_scalar-Inside value_type)

  read_metadata-Inside :
      (depth n : ℕ) (metadata : List (String × Json))
      → Hoare
          (Inside source)
          (read_metadata source limits floats depth n metadata)
          (λ m. Inside source)
  unfolding read_metadata
  read_metadata-Inside depth zero metadata = pure-Hoare _
  read_metadata-Inside depth (suc n) metadata = bind-Hoare (read_string-Inside source limits) λ key.
      then-Hoare (from-Hoare (λ s h u e. h) (lift-Hoare _)) (
        bind-Hoare (read_uint-Inside source 4) λ value_type.
          bind-Hoare (read_value-Inside depth value_type) λ value. read_metadata-Inside depth n _)

  read_dir-DirFits :
      (depth : ℕ)
      → Hoare
          (Inside source)
          (read_dir source limits floats depth)
          (λ d s. DirFits limits d × Inside source s)
  unfolding read_dir
  read_dir-DirFits depth = bind-Hoare (read_string-Inside source limits) λ key.
      then-Hoare {Q = λ s. (utf8_len (codes key) ≤ limits.max_key_len) × Inside source s}
        (from-Hoare (λ s h u e. ((key_ok limits key).run u e, h)) (lift-Hoare _))
        (given-Hoare λ key_fits. bind-Hoare (read_uint-Inside source 4) λ n_dims.
          then-Hoare (from-Hoare (λ s h e. h) (check-Hoare _ _)) (
            bind-Hoare {Q = λ dims. Inside source}
              (to-Hoare (λ v s (q, c, i). i)
                (repeat-Inside source (λ n. Unit {0}) n_dims (read_u64 source)
                  (to-Hoare (λ v s h. (tt, h)) (read_uint-Inside source 8))))
              λ dims.
                then-Hoare
                  {Q = λ s.
                    ((length (reverse dims) ≤ limits.max_shape_rank)
                      × All (λ n. n ≤ limits.max_dim) (reverse dims))
                    × Inside source s}
                  (from-Hoare (λ s h u e. ((shape_ok limits (reverse dims)).run u e, h))
                    (lift-Hoare _))
                  (given-Hoare λ shape_fits. bind-Hoare (read_uint-Inside source 4) λ type_code.
                    bind-Hoare (from-Hoare (λ s h t e. h) (lift-Hoare _)) λ gguf_type.
                      bind-Hoare (read_uint-Inside source 8) λ offset.
                        from-Hoare
                          (λ s h. (
                            record {
                              key_fits = key_fits;
                              rank_fits = shape_fits.0;
                              dims_fit = shape_fits.1;
                            },
                            h,
                          ))
                          (pure-Hoare _))))

  -- the header is read within the file, and its directory has no more tensors than the limit
  pub read_header-Fits :
      (depth : ℕ)
      → Hoare
          (Inside source)
          (read_header source limits floats depth)
          (λ (version, metadata, dirs) s.
            All (DirFits limits) dirs × (length dirs ≤ limits.max_tensor_count) × Inside source s)
  unfolding read_header
  read_header-Fits depth = bind-Hoare (read_exact-Inside source 4) λ magic.
      then-Hoare (from-Hoare (λ s h e. h) (check-Hoare _ _)) (
        bind-Hoare (read_uint-Inside source 4) λ version.
          then-Hoare (from-Hoare (λ s h e. h) (check-Hoare _ _)) (
            bind-Hoare (read_uint-Inside source 8) λ tensor_count.
              bind-Hoare (read_uint-Inside source 8) λ kv_count.
                then-Hoare {Q = λ s. (tensor_count ≤ limits.max_tensor_count) × Inside source s}
                  (from-Hoare (λ s h e. (ground (arith, e), h)) (check-Hoare _ _))
                  (given-Hoare λ few.
                    bind-Hoare (read_metadata-Inside depth kv_count []) λ metadata.
                      bind-Hoare
                        (repeat-Inside source (DirFits limits) tensor_count
                          (read_dir source limits floats depth) (read_dir-DirFits depth))
                        λ dirs.
                          from-Hoare
                            (λ s (fits, counted, i). (fits, omega (arith, counted, few), i))
                            (pure-Hoare _))))
