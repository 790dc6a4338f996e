-- ===== src/Gguf/Container/Entries.antt =====
-- The entries of crates/dyninfer-checkpoint-gguf/src/container.rs do not fail for want of fuel.
use dyninfer.Prelude.{
  ℕ, ◌/◌, ◌==◌, checked_mul, ◌%◌, ◌≢◌, String, Bool, true, Option, none, some, List, [], ◌∷◌,
  Result, ok, err, leb, checked_add, u64_max, guard, ◌>>=◌, false,
}
use dyninfer.Prelude.Json.{Json}
use dyninfer.Prelude.Options.{some_or}
use dyninfer.Core.Shape.{fold_mul}
use dyninfer.Checkpoint.Errors.{
  CheckpointError, nested_too_deep, unsized_type, size_overflow, partial_block, numel_overflow,
  offset_overflow, data_past_end,
}
use dyninfer.Checkpoint.Limits.{BytesSource, source_len}
use dyninfer.Gguf.Types.{GgufType, name, type_size, block_size, sized, nbytes_for_shape}
use dyninfer.Gguf.Container.{TensorDir, entry_of, entries_of_dirs, index_from, index_after}
use dyninfer.Gguf.Container.Depth.{ok_or-avoids}

bind-avoids :
    {A B : Type 0} (m : Result CheckpointError A) (f : A → Result CheckpointError B)
    → m ≢ err nested_too_deep
    → ((a : A) → f a ≢ err nested_too_deep)
    → (m >>= f) ≢ err nested_too_deep
bind-avoids (err e) f first after h = first (cc)
bind-avoids (ok a) f first after h = after a h

guard-avoids :
    (b : Bool) (e : CheckpointError) → e ≢ nested_too_deep → guard b e ≢ err nested_too_deep
guard-avoids true e other h = absurd (cc)
guard-avoids false e other h = other (cc)

sized-avoids : (t : GgufType) (n : ℕ) (o : Option ℕ) → sized t n o ≢ err nested_too_deep
unfolding sized
sized-avoids t n none =
    bind-avoids _ _ (ok_or-avoids (type_size t) (unsized_type (name t)) (λ h. cc))
      λ size. ok_or-avoids (checked_mul n size) size_overflow (λ h. cc)
sized-avoids t n (some block) =
    bind-avoids _ _ (ok_or-avoids (type_size t) (unsized_type (name t)) (λ h. cc)) λ size.
      bind-avoids _ _ (guard-avoids (n % block == 0) (partial_block (name t) n block) (λ h. cc))
        λ u. ok_or-avoids (checked_mul (n / block) size) size_overflow (λ h. cc)

nbytes_for_shape-avoids :
    (t : GgufType) (shape : List ℕ) → nbytes_for_shape t shape ≢ err nested_too_deep
unfolding nbytes_for_shape
nbytes_for_shape-avoids t shape =
    bind-avoids _ _ (ok_or-avoids (fold_mul 1 shape) numel_overflow (λ h. cc))
      λ n. sized-avoids t n (block_size t)

module _ (source : BytesSource) (start alignment : ℕ) where
  entry_of-avoids : (dir : TensorDir) → entry_of source start alignment dir ≢ err nested_too_deep
  unfolding entry_of
  entry_of-avoids dir = bind-avoids _ _ (nbytes_for_shape-avoids dir.gguf_type dir.shape) λ nbytes.
      bind-avoids _ _
        (ok_or-avoids (checked_add start dir.offset) (offset_overflow dir.key) (λ h. cc))
        λ abs.
          bind-avoids _ _
            (guard-avoids (leb (some_or (checked_add abs nbytes) u64_max) (source_len source))
              (data_past_end dir.key) (λ h. cc))
            λ u h. cc

  entries_of_dirs-avoids :
      (dirs : List TensorDir) → entries_of_dirs source start alignment dirs ≢ err nested_too_deep
  unfolding entries_of_dirs
  entries_of_dirs-avoids [] h = absurd (cc)
  entries_of_dirs-avoids (dir ∷ dirs) h =
      bind-avoids (entry_of source start alignment dir) _ (entry_of-avoids dir)
        (λ e.
          bind-avoids (entries_of_dirs source start alignment dirs) _ (entries_of_dirs-avoids dirs)
            λ es k. cc)
        h

pub index_after-avoids :
    (as_u64 : Json → Option ℕ) (source : BytesSource)
    (o : ℕ × Result CheckpointError (ℕ × List (String × Json) × List TensorDir))
    → o.1 ≢ err nested_too_deep
    → index_after as_u64 source o ≢ err nested_too_deep
unfolding index_from
index_after-avoids as_u64 source (pos, err e) other h = other (cc)
index_after-avoids as_u64 source (pos, ok (version, metadata, dirs)) other h =
    bind-avoids _ _ (entries_of_dirs-avoids source _ _ dirs) (λ es k. cc) h
