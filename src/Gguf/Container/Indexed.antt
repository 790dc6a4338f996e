-- ===== src/Gguf/Container/Indexed.antt =====
-- The index of crates/dyninfer-checkpoint-gguf/src/container.rs: each tensor in its file and of the exact
-- size of its type, the data aligned after the header, the keys sorted.
use mathlib.Core.List.{Perm}
use dyninfer.Prelude.{
  ℕ, suc, ◌+◌, ◌^◌, ◌≤◌, ◌<◌, ◌≡◌, ◌≢◌, refl, ap, String, true, Option, none, some, List, [], ◌∷◌,
  All, length, Result, ok, err, Ensures, then-Ensures, ok-Ensures, ok_or-Ensures, guard-Ensures,
  self-Ensures, leb, checked_add, checked_add-some, u64_max, codes, arith, Option-cases, inl, inr,
}
use dyninfer.Prelude.Json.{Json}
use dyninfer.Prelude.Options.{and_then, some_or}
use dyninfer.Prelude.Assoc.{get}
use dyninfer.Prelude.Sort.{sort-perm, IsSorted, sort-IsSorted, length-sort}
use dyninfer.Core.Shape.{ByteRange}
use dyninfer.Checkpoint.Errors.{CheckpointError, nested_too_deep}
use dyninfer.Checkpoint.Entries.{entry_leq, entry_total, entry_trans}
use dyninfer.Checkpoint.Catalog.{RawTensorEntry, RawCheckpointIndex}
use dyninfer.Checkpoint.Limits.{InspectionLimits, utf8_len, BytesSource, source_len}
use dyninfer.Gguf.Types.{nbytes_for_shape, storage_element_type}
use dyninfer.Gguf.Cursor.{FloatReader}
use dyninfer.Gguf.Container.{
  TensorDir, read_header, entry_of, entries_of_dirs, alignment_of, index_from, index_after, index,
}
use dyninfer.Gguf.Container.Directory.{Inside, DirFits, read_header-Fits}
use dyninfer.Gguf.Container.Depth.{read_header-Avoids}
use dyninfer.Gguf.Container.Entries.{index_after-avoids}
use dyninfer.Gguf.Container.Alignment.{Aligned, align_up-Aligned}

-- The tensor that stands for an entry of the header's directory: it has one range, of the exact size of its
-- type and its shape, at the entry's offset behind the data's start and within a file of `size` bytes; its
-- key and its shape are within the limits.
pub record Placed (limits : InspectionLimits) (start size : ℕ) (dir : TensorDir)
    (e : RawTensorEntry) : Type 0 where
  pub range : ByteRange
  pub one_range : e.byte_ranges ≡ range ∷ []
  pub same_key : e.key ≡ dir.key
  pub same_shape : e.shape ≡ dir.shape
  pub typed : e.storage_type ≡ storage_element_type dir.gguf_type
  pub exact : nbytes_for_shape dir.gguf_type dir.shape ≡ ok range.length
  pub at_offset : range.offset ≡ start + dir.offset
  pub within : range.offset + range.length ≤ size
  pub key_fits : utf8_len (codes e.key) ≤ limits.max_key_len
  pub rank_fits : length e.shape ≤ limits.max_shape_rank
  pub dims_fit : All (λ d. d ≤ limits.max_dim) e.shape

-- one tensor for each entry of the directory, in order
abbrev pub AllPlaced : InspectionLimits → ℕ → ℕ → List TensorDir → List RawTensorEntry → Type 0
AllPlaced limits start size [] [] = Unit
AllPlaced limits start size [] (e ∷ es) = ⊥
AllPlaced limits start size (dir ∷ dirs) [] = ⊥
AllPlaced limits start size (dir ∷ dirs) (e ∷ es) =
    Placed limits start size dir e × AllPlaced limits start size dirs es

length-AllPlaced :
    (limits : InspectionLimits) (start size : ℕ) (dirs : List TensorDir) (es : List RawTensorEntry)
    → AllPlaced limits start size dirs es
    → length es ≡ length dirs
length-AllPlaced limits start size [] [] h = refl
length-AllPlaced limits start size [] (e ∷ es) h = absurd h
length-AllPlaced limits start size (dir ∷ dirs) [] h = absurd h
length-AllPlaced limits start size (dir ∷ dirs) (e ∷ es) h =
    ap suc (length-AllPlaced limits start size dirs es h.1)

ends_within :
    (offset n size : ℕ)
    → size < u64_max
    → leb (some_or (checked_add offset n) u64_max) size ≡ true
    → offset + n ≤ size
ends_within offset n size fits h = ground arith

module _ (source : BytesSource) (limits : InspectionLimits) (start alignment : ℕ)
    (small : source_len source < u64_max) where
  entry_of-Placed :
      (dir : TensorDir)
      → DirFits limits dir
      → Ensures (entry_of source start alignment dir) (Placed limits start (source_len source) dir)
  unfolding entry_of
  entry_of-Placed dir fits =
      then-Ensures (self-Ensures (nbytes_for_shape dir.gguf_type dir.shape)) (λ nbytes sized.
        then-Ensures (ok_or-Ensures (checked_add start dir.offset) _) (λ abs placed.
          then-Ensures
            (guard-Ensures (leb (some_or (checked_add abs nbytes) u64_max) (source_len source)) _)
            (λ u inside. ok-Ensures (record {
              range = record { offset = abs; length = nbytes };
              one_range = refl;
              same_key = refl;
              same_shape = refl;
              typed = refl;
              exact = sized;
              at_offset =
                  let sum = checked_add-some start dir.offset placed in omega (arith, sum.0);
              within = ends_within abs nbytes (source_len source) small inside;
              key_fits = fits.key_fits;
              rank_fits = fits.rank_fits;
              dims_fit = fits.dims_fit;
            }))))

  entries_of_dirs-Placed :
      (dirs : List TensorDir)
      → All (DirFits limits) dirs
      → Ensures
          (entries_of_dirs source start alignment dirs)
          (AllPlaced limits start (source_len source) dirs)
  unfolding entries_of_dirs
  entries_of_dirs-Placed [] fits = ok-Ensures tt
  entries_of_dirs-Placed (dir ∷ dirs) fits = then-Ensures (entry_of-Placed dir fits.0) (λ e placed.
      then-Ensures (entries_of_dirs-Placed dirs fits.1) (λ es all. ok-Ensures (placed, all)))

-- What `index` promises of its result: the header that is read from the start of the file, where it ends, and
-- the tensors of its directory.
pub record Laid (as_u64 : Json → Option ℕ) (floats : FloatReader) (source : BytesSource)
    (limits : InspectionLimits) (i : RawCheckpointIndex) : Type 0 where
  pub header_end : ℕ
  pub version : ℕ
  pub dirs : List TensorDir
  pub header :
      read_header source limits floats (suc (source_len source)) 0
      ≡ (header_end, ok (version, i.metadata, dirs))
  pub header_inside : header_end ≤ source_len source
  pub aligned : Aligned header_end (alignment_of as_u64 i.metadata) i.data_offset
  pub in_order : List RawTensorEntry
  pub placed : AllPlaced limits i.data_offset (source_len source) dirs in_order
  pub same_entries : Perm i.entries in_order
  pub by_key : IsSorted entry_leq i.entries
  pub count_fits : length i.entries ≤ limits.max_tensor_count

module _ (as_u64 : Json → Option ℕ) (source : BytesSource) (limits : InspectionLimits)
    (small : source_len source < 2 ^ 63)
    (u64 : (v : Json) (n : ℕ) → as_u64 v ≡ some n → n < 2 ^ 64) where
  alignment_fits : (o : Option Json) → some_or (and_then o as_u64) 32 < 2 ^ 64
  alignment_fits none = omega arith
  alignment_fits (some v) = elim (Option-cases (as_u64 v)) [
    | inl e ↦ rw e (omega arith)
    | inr (n, e) ↦ rw e (u64 v n e)
  ]

  module _ (floats : FloatReader) where
    index_from-Laid :
        (pos version : ℕ) (metadata : List (String × Json)) (dirs : List TensorDir)
        → read_header source limits floats (suc (source_len source)) 0
          ≡ (pos, ok (version, metadata, dirs))
        → Inside source pos
        → All (DirFits limits) dirs
        → length dirs ≤ limits.max_tensor_count
        → Ensures
            (index_from as_u64 source pos (version, metadata, dirs))
            (Laid as_u64 floats source limits)
    unfolding index_from
    index_from-Laid pos version metadata dirs read inside fits few =
        then-Ensures (entries_of_dirs-Placed source limits _ _ (omega (arith, small)) dirs fits)
          (λ es all. ok-Ensures (record {
            header_end = pos;
            version = version;
            dirs = dirs;
            header = read;
            header_inside = inside;
            aligned =
                align_up-Aligned pos (alignment_of as_u64 metadata)
                  (alignment_fits (get metadata "general.alignment"))
                  (omega (arith, inside, small));
            in_order = es;
            placed = all;
            same_entries = sort-perm entry_leq es;
            by_key = sort-IsSorted entry_leq entry_total entry_trans es;
            count_fits =
                let same = length-sort entry_leq es in
                let counted = length-AllPlaced limits _ (source_len source) dirs es all in
                omega (arith, same, counted, few);
          }))

    index_after-Laid :
        (o : ℕ × Result CheckpointError (ℕ × List (String × Json) × List TensorDir))
        → read_header source limits floats (suc (source_len source)) 0 ≡ o
        → ((h : ℕ × List (String × Json) × List TensorDir)
            → o.1 ≡ ok h
            → All (DirFits limits) h.2 × (length h.2 ≤ limits.max_tensor_count) × Inside source o.0)
        → (i : RawCheckpointIndex) → index_after as_u64 source o ≡ ok i
        → Laid as_u64 floats source limits i
    index_after-Laid (pos, err e) read fits i h = absurd (cc)
    index_after-Laid (pos, ok (version, metadata, dirs)) read fits i h =
        let (good, few, inside) = fits (version, metadata, dirs) refl in
        (index_from-Laid pos version metadata dirs read inside good few).run i h

-- Of a file of fewer than 2 ^ 63 bytes, where `as_u64` gives numbers of 64 bits: the model's bound on the
-- nesting of arrays is never the reason of a failure. An index that is returned belongs to the header that is
-- read from the start of the file, with the header's metadata. The start of the data is the position where the
-- header ends, rounded up to the alignment without overflow. The index lists one tensor for each entry of the
-- header's directory, with its key and its shape and the storage type of its type, and one byte range: at the
-- entry's offset behind the start of the data, of the exact size of the type and the shape, and within the file.
-- Keys and shapes are within the limits, the tensors stand in the order of their keys, and they are no more than
-- the limit.
pub index-Laid :
    (as_u64 : Json → Option ℕ) (floats : FloatReader) (source : BytesSource)
    (limits : InspectionLimits)
    → source_len source < 2 ^ 63
    → ((v : Json) (n : ℕ) → as_u64 v ≡ some n → n < 2 ^ 64)
    → (index as_u64 floats source limits ≢ err nested_too_deep)
      × ((i : RawCheckpointIndex)
          → index as_u64 floats source limits ≡ ok i
          → Laid as_u64 floats source limits i)
unfolding index
index-Laid as_u64 floats source limits small u64 =
    let depth = suc (source_len source) in
    let o = read_header source limits floats depth 0 in
    let room = (read_header-Avoids source limits floats depth).run 0 (omega arith, omega arith) in
    (
      index_after-avoids as_u64 source o room.0,
      index_after-Laid as_u64 source limits small u64 floats o refl (λ h e.
          (read_header-Fits source limits floats depth).run 0 (omega arith) h o.0
            (ap (λ r. (o.0, r)) e)),
    )
