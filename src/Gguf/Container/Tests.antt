-- ===== src/Gguf/Container/Tests.antt =====
-- Runs of the GGUF index on a small file.
use dyninfer.Prelude.{
  ℕ, ◌≡◌, ◌≢◌, refl, true, Option, none, List, [], ◌∷◌, ◌++◌, Result, ok, err, arith,
}
use dyninfer.Prelude.Json.{Json, null}
use dyninfer.Prelude.Effects.{◌>>=◌, ◌>>◌, pure, get_state, modify, lift, check}
use dyninfer.Checkpoint.Errors.{CheckpointError, nested_too_deep, not_gguf, data_past_end}
use dyninfer.Checkpoint.Catalog.{RawCheckpointIndex}
use dyninfer.Checkpoint.Limits.{default_limits, BytesSource}
use dyninfer.Gguf.Cursor.{FloatReader}
use dyninfer.Gguf.Types.{block_size, type_size}
use dyninfer.Gguf.Container.{index, probe}
use dyninfer.Gguf.Container.Indexed.{Laid, index-Laid}

abbrev u32_of : ℕ → List ℕ
u32_of n = n ∷ 0 ∷ 0 ∷ 0 ∷ []

abbrev u64_of : ℕ → List ℕ
u64_of n = n ∷ 0 ∷ 0 ∷ 0 ∷ 0 ∷ 0 ∷ 0 ∷ 0 ∷ []

abbrev text_of : ℕ → List ℕ
text_of c = u64_of 1 ++ c ∷ []

abbrev magic_bytes : List ℕ
magic_bytes = 71 ∷ 71 ∷ 85 ∷ 70 ∷ []

-- version 3 with one tensor and one entry, an array of two small numbers
abbrev header_bytes : List ℕ
header_bytes =
    magic_bytes
    ++ u32_of 3
    ++ u64_of 1
    ++ u64_of 1
    ++ text_of 97
    ++ u32_of 9
    ++ u32_of 0
    ++ u64_of 2
    ++ (7 ∷ 8 ∷ [])
    ++ text_of 116
    ++ u32_of 1
    ++ u64_of 2
    ++ u32_of 0
    ++ u64_of 0

abbrev small_file : BytesSource
small_file = record { path = none; data_bytes = header_bytes ++ u32_of 0 ++ u64_of 0 ++ u64_of 0 }

abbrev no_floats : FloatReader
no_floats = record { single = λ b. null; double = λ b. null }

abbrev no_u64 : Json → Option ℕ
no_u64 v = none

abbrev offset_in : Result CheckpointError RawCheckpointIndex → ℕ
offset_in (ok i) = i.data_offset
offset_in (err e) = 0

small_offset : offset_in (index no_u64 no_floats small_file default_limits) ≡ 96
unfolding index ◌>>=◌ get_state lift ◌>>◌ modify pure check block_size type_size
small_offset = refl

cut_file :
    index no_u64 no_floats (record { path = none; data_bytes = header_bytes }) default_limits
    ≡ err (data_past_end "t")
unfolding index ◌>>=◌ get_state lift ◌>>◌ modify pure check block_size type_size
cut_file = refl

other_file :
    index no_u64 no_floats (record { path = none; data_bytes = u32_of 1 }) default_limits
    ≡ err not_gguf
unfolding index ◌>>=◌ get_state lift ◌>>◌ modify pure check block_size type_size
other_file = refl

probes : probe small_file ≡ ok true
unfolding probe
probes = refl

index-Laid_example :
    (index no_u64 no_floats small_file default_limits ≢ err nested_too_deep)
    × ((i : RawCheckpointIndex)
        → index no_u64 no_floats small_file default_limits ≡ ok i
        → Laid no_u64 no_floats small_file default_limits i)
index-Laid_example =
    index-Laid no_u64 no_floats small_file default_limits (omega arith) (λ v n h. absurd (cc))
