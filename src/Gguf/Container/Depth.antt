-- ===== src/Gguf/Container/Depth.antt =====
-- The fuel for nested arrays in the cursor of crates/dyninfer-checkpoint-gguf/src/container.rs is enough:
-- each level of nesting takes bytes of the file.
use mathlib.Core.List.{reverse}
use dyninfer.Prelude.{
  ℕ, zero, suc, ◌+◌, ◌≤◌, ◌<◌, ◌≢◌, String, Option, none, some, List, [], ◌∷◌, err, ok_or, ◌==◌,
  ok_or-eq-ok, arith,
}
use dyninfer.Prelude.Json.{Json}
use dyninfer.Prelude.Effects.{◌>>=◌, pure}
use dyninfer.Checkpoint.Errors.{CheckpointError, nested_too_deep}
use dyninfer.Checkpoint.Limits.{
  InspectionLimits, validate_key, validate_dims, validate_shape, BytesSource, source_len,
  read_range,
}
use dyninfer.Gguf.Types.{from_u32}
use dyninfer.Gguf.Cursor.{
  Read, FloatReader, read_exact, read_uint, read_bool, read_string, read_value, read_scalar, repeat,
}
use dyninfer.Gguf.Container.{read_metadata, read_dir, read_header}
use dyninfer.Gguf.Container.Directory.{Inside, read_range-Inside}
use dyninfer.Gguf.Container.Avoids.{
  Avoids, bind-Avoids, then-Avoids, pure-Avoids, check-Avoids, lift-Avoids, if-Avoids,
  get_state-Avoids, to-Avoids, modify-Avoids,
}

-- The position is in the file, and fewer than `depth` bytes are left.
abbrev pub Room : BytesSource → ℕ → ℕ → Type 0
Room source depth s = Inside source s × (source_len source < s + depth)

pub ok_or-avoids :
    {A : Type 0} (o : Option A) (e : CheckpointError)
    → e ≢ nested_too_deep
    → ok_or o e ≢ err nested_too_deep
ok_or-avoids none e other h = other (cc)
ok_or-avoids (some a) e other h = cc

read_range-avoids :
    (source : BytesSource) (pos len : ℕ) → read_range source pos len ≢ err nested_too_deep
unfolding read_range
read_range-avoids source pos len h = ground (arith, h)

repeat-Avoids :
    {A : Type 0} (P : ℕ → Type 0) (n : ℕ) (m : Read A)
    → Avoids P m (λ v. P)
    → Avoids P (repeat n m) (λ vs. P)
unfolding repeat
repeat-Avoids P zero m h = pure-Avoids _
repeat-Avoids P (suc n) m h =
    bind-Avoids h λ v. bind-Avoids (repeat-Avoids P n m h) λ vs. pure-Avoids _

module _ (source : BytesSource) where
  read_exact-Avoids :
      (n d d' : ℕ) → d ≤ d' + n → Avoids (Room source d) (read_exact source n) (λ b. Room source d')
  unfolding read_exact
  read_exact-Avoids n d d' enough = bind-Avoids (get_state-Avoids {P = Room source d}) λ pos.
      bind-Avoids (lift-Avoids _ (read_range-avoids source pos n)) λ buf.
        bind-Avoids (lift-Avoids _ (ok_or-avoids _ _ (λ h. absurd (cc)))) λ next.
          then-Avoids
            (to-Avoids
              (λ s (e, (e', (same, (inside, room)))).
                let within = read_range-Inside source pos n e' (ok_or-eq-ok _ _ e) in
                (within.1, omega (arith, within.0, same, room, enough)))
              (λ u s h. h) (modify-Avoids {P = Room source d'} next))
            (pure-Avoids _)

  read_uint-Avoids :
      (n d d' : ℕ) → d ≤ d' + n → Avoids (Room source d) (read_uint source n) (λ b. Room source d')
  unfolding read_uint
  read_uint-Avoids n d d' enough = bind-Avoids (read_exact-Avoids n d d' enough) λ b. pure-Avoids _

  read_bool-Avoids : (d : ℕ) → Avoids (Room source d) (read_bool source) (λ b. Room source d)
  unfolding read_bool
  read_bool-Avoids d = bind-Avoids (read_exact-Avoids 1 d d (omega arith)) λ b. pure-Avoids _

  read_string-Avoids :
      (limits : InspectionLimits) (d : ℕ)
      → Avoids (Room source d) (read_string source limits) (λ s. Room source d)
  unfolding read_string
  read_string-Avoids limits d = bind-Avoids (read_uint-Avoids 8 d d (omega arith)) λ len.
      then-Avoids (check-Avoids _ _ (λ h. absurd (cc))) (
        bind-Avoids (read_exact-Avoids len d d (omega arith)) λ bytes.
          to-Avoids (λ s h. h) (λ a s h. h.1) (lift-Avoids _ (ok_or-avoids _ _ (λ h. absurd (cc)))))

validate_key-avoids :
    (limits : InspectionLimits) (key : String) → validate_key limits key ≢ err nested_too_deep
unfolding validate_key
validate_key-avoids limits key h = ground (arith, h)

validate_dims-avoids : (m : ℕ) (ds : List ℕ) → validate_dims m ds ≢ err nested_too_deep
unfolding validate_dims
validate_dims-avoids m [] h = cc
validate_dims-avoids m (d ∷ ds) h = ground (arith, validate_dims-avoids m ds, h)

validate_shape-avoids :
    (limits : InspectionLimits) (shape : List ℕ) → validate_shape limits shape ≢ err nested_too_deep
unfolding validate_shape
validate_shape-avoids limits shape h = ground (arith, validate_dims-avoids limits.max_dim shape, h)

from_u32-avoids : (c : ℕ) → from_u32 c ≢ err nested_too_deep
unfolding from_u32
from_u32-avoids c = ok_or-avoids _ _ (λ h. absurd (cc))

module _ (source : BytesSource) (limits : InspectionLimits) (floats : FloatReader) where
  read_number-Avoids :
      (n d : ℕ) (f : ℕ → Json)
      → Avoids (Room source d) (read_uint source n >>= λ v. pure (f v)) (λ v. Room source d)
  read_number-Avoids n d f =
      bind-Avoids (read_uint-Avoids source n d d (omega arith)) λ v. pure-Avoids _

  read_float-Avoids :
      (n d : ℕ) (f : List ℕ → Json)
      → Avoids (Room source d) (read_exact source n >>= λ v. pure (f v)) (λ v. Room source d)
  read_float-Avoids n d f =
      bind-Avoids (read_exact-Avoids source n d d (omega arith)) λ v. pure-Avoids _

  read_scalar-Avoids :
      (d value_type : ℕ)
      → Avoids (Room source d) (read_scalar source limits floats value_type) (λ v. Room source d)
  read_scalar-Avoids d value_type = if-Avoids (value_type == 0) (read_number-Avoids 1 d _) (
      if-Avoids (value_type == 1) (read_number-Avoids 1 d _) (
        if-Avoids (value_type == 2) (read_number-Avoids 2 d _) (
          if-Avoids (value_type == 3) (read_number-Avoids 2 d _) (
            if-Avoids (value_type == 4) (read_number-Avoids 4 d _) (
              if-Avoids (value_type == 5) (read_number-Avoids 4 d _) (
                if-Avoids (value_type == 6) (read_float-Avoids 4 d _) (
                  if-Avoids (value_type == 7)
                    (bind-Avoids (read_bool-Avoids source d) λ b. pure-Avoids _)
                    (if-Avoids (value_type == 8)
                      (bind-Avoids (read_string-Avoids source limits d) λ s. pure-Avoids _)
                      (if-Avoids (value_type == 10) (read_number-Avoids 8 d _) (
                        if-Avoids (value_type == 11) (read_number-Avoids 8 d _) (
                          if-Avoids (value_type == 12) (read_float-Avoids 8 d _) (
                            to-Avoids (λ s h. h) (λ a s h. h.1)
                              (lift-Avoids _ (λ h. absurd (cc)))))))))))))))

  read_value-Avoids :
      (depth value_type : ℕ)
      → Avoids
          (Room source depth)
          (read_value source limits floats depth value_type)
          (λ v. Room source depth)
  unfolding read_value
  read_value-Avoids zero value_type = record {
    run = λ s (inside, room). absurd (omega (arith, inside, room));
  }
  read_value-Avoids (suc depth) value_type =
      if-Avoids (value_type == 9)
        (bind-Avoids (read_uint-Avoids source 4 (suc depth) depth (omega arith)) λ elem_type.
          bind-Avoids (read_uint-Avoids source 8 depth depth (omega arith)) λ count.
            then-Avoids (check-Avoids _ _ (λ h. absurd (cc))) (
              bind-Avoids
                (repeat-Avoids (Room source depth) count _ (read_value-Avoids depth elem_type))
                λ arr. to-Avoids (λ s h. h) (λ a s h. (h.0, omega (arith, h.1))) (pure-Avoids _)))
        (read_scalar-Avoids (suc depth) value_type)

  read_metadata-Avoids :
      (depth n : ℕ) (metadata : List (String × Json))
      → Avoids
          (Room source depth)
          (read_metadata source limits floats depth n metadata)
          (λ m. Room source depth)
  unfolding read_metadata
  read_metadata-Avoids depth zero metadata = pure-Avoids _
  read_metadata-Avoids depth (suc n) metadata =
      bind-Avoids (read_string-Avoids source limits depth) λ key.
        then-Avoids
          (to-Avoids (λ s h. h) (λ a s h. h.1) (lift-Avoids _ (validate_key-avoids limits key)))
          (bind-Avoids (read_uint-Avoids source 4 depth depth (omega arith)) λ value_type.
            bind-Avoids (read_value-Avoids depth value_type)
              λ value. read_metadata-Avoids depth n _)

  read_dir-Avoids :
      (depth : ℕ)
      → Avoids (Room source depth) (read_dir source limits floats depth) (λ d. Room source depth)
  unfolding read_dir
  read_dir-Avoids depth = bind-Avoids (read_string-Avoids source limits depth) λ key.
      then-Avoids
        (to-Avoids (λ s h. h) (λ a s h. h.1) (lift-Avoids _ (validate_key-avoids limits key)))
        (bind-Avoids (read_uint-Avoids source 4 depth depth (omega arith)) λ n_dims.
          then-Avoids (check-Avoids _ _ (λ h. absurd (cc))) (
            bind-Avoids
              (repeat-Avoids (Room source depth) n_dims _
                (read_uint-Avoids source 8 depth depth (omega arith)))
              λ dims.
                then-Avoids
                  (to-Avoids (λ s h. h) (λ a s h. h.1)
                    (lift-Avoids _ (validate_shape-avoids limits (reverse dims))))
                  (bind-Avoids (read_uint-Avoids source 4 depth depth (omega arith)) λ type_code.
                    bind-Avoids
                      (to-Avoids (λ s h. h) (λ a s h. h.1)
                        (lift-Avoids _ (from_u32-avoids type_code)))
                      λ gguf_type.
                        bind-Avoids (read_uint-Avoids source 8 depth depth (omega arith))
                          λ offset. pure-Avoids _)))

  -- With more fuel than the file has bytes the header does not run out of it.
  pub read_header-Avoids :
      (depth : ℕ)
      → Avoids (Room source depth) (read_header source limits floats depth) (λ h. Room source depth)
  unfolding read_header
  read_header-Avoids depth =
      bind-Avoids (read_exact-Avoids source 4 depth depth (omega arith)) λ magic.
        then-Avoids (check-Avoids _ _ (λ h. absurd (cc))) (
          bind-Avoids (read_uint-Avoids source 4 depth depth (omega arith)) λ version.
            then-Avoids (check-Avoids _ _ (λ h. absurd (cc))) (
              bind-Avoids (read_uint-Avoids source 8 depth depth (omega arith)) λ tensor_count.
                bind-Avoids (read_uint-Avoids source 8 depth depth (omega arith)) λ kv_count.
                  then-Avoids (check-Avoids _ _ (λ h. absurd (cc))) (
                    bind-Avoids (read_metadata-Avoids depth kv_count []) λ metadata.
                      bind-Avoids
                        (repeat-Avoids (Room source depth) tensor_count _ (read_dir-Avoids depth))
                        λ dirs. pure-Avoids _)))
