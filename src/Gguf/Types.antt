-- ===== src/Gguf/Types.antt =====
-- crates/dyninfer-checkpoint-gguf/src/types.rs: the codes and the sizes of the GGUF tensor types.
pub mod Codes
pub mod Sizes
use dyninfer.Prelude.{
  ℕ, ◌+◌, ◌*◌, ◌/◌, ◌%◌, String, Bool, true, false, Option, none, some, List, [], ◌∷◌, Result, ok,
  err, ◌>>=◌, ◌>>◌, guard, ok_or, checked_mul, ◌==◌, if◌then◌else◌,
}
use dyninfer.Core.Scalar.{ScalarType, StorageElementType, scalar, opaque}
use dyninfer.Core.Shape.{fold_mul}
use dyninfer.Checkpoint.Errors.{
  CheckpointError, unknown_type_code, numel_overflow, unsized_type, partial_block, size_overflow,
}

pub data GgufType : Type 0 where
  f32 f16 q4_0 q4_1 q5_0 q5_1 q8_0 q8_1 : GgufType
  q2_k q3_k q4_k q5_k q6_k q8_k iq2_xxs iq2_xs : GgufType
  iq3_xxs iq1_s iq4_nl iq3_s iq2_s iq4_xs i8 i16 : GgufType
  i32 i64 f64 iq1_m bf16 tq1_0 tq2_0 mxfp4 : GgufType

-- The discriminants of `#[repr(u32)]`.
unfoldable pub code : GgufType → ℕ
code f32 = 0
code f16 = 1
code q4_0 = 2
code q4_1 = 3
code q5_0 = 6
code q5_1 = 7
code q8_0 = 8
code q8_1 = 9
code q2_k = 10
code q3_k = 11
code q4_k = 12
code q5_k = 13
code q6_k = 14
code q8_k = 15
code iq2_xxs = 16
code iq2_xs = 17
code iq3_xxs = 18
code iq1_s = 19
code iq4_nl = 20
code iq3_s = 21
code iq2_s = 22
code iq4_xs = 23
code i8 = 24
code i16 = 25
code i32 = 26
code i64 = 27
code f64 = 28
code iq1_m = 29
code bf16 = 30
code tq1_0 = 34
code tq2_0 = 35
code mxfp4 = 39

-- The arms of the match in `from_u32`.
abbrev pub arms : List (ℕ × GgufType)
arms =
    (0, f32)
    ∷ (1, f16)
    ∷ (2, q4_0)
    ∷ (3, q4_1)
    ∷ (6, q5_0)
    ∷ (7, q5_1)
    ∷ (8, q8_0)
    ∷ (9, q8_1)
    ∷ (10, q2_k)
    ∷ (11, q3_k)
    ∷ (12, q4_k)
    ∷ (13, q5_k)
    ∷ (14, q6_k)
    ∷ (15, q8_k)
    ∷ (16, iq2_xxs)
    ∷ (17, iq2_xs)
    ∷ (18, iq3_xxs)
    ∷ (19, iq1_s)
    ∷ (20, iq4_nl)
    ∷ (21, iq3_s)
    ∷ (22, iq2_s)
    ∷ (23, iq4_xs)
    ∷ (24, i8)
    ∷ (25, i16)
    ∷ (26, i32)
    ∷ (27, i64)
    ∷ (28, f64)
    ∷ (29, iq1_m)
    ∷ (30, bf16)
    ∷ (34, tq1_0)
    ∷ (35, tq2_0)
    ∷ (39, mxfp4)
    ∷ []

unfoldable pub match_code : ℕ → List (ℕ × GgufType) → Option GgufType
match_code v [] = none
match_code v ((c, t) ∷ rest) = if v == c then some t else match_code v rest

unfoldable pub from_u32 : ℕ → Result CheckpointError GgufType
unfolding match_code
from_u32 v = ok_or (match_code v arms) (unknown_type_code v)

unfoldable pub name : GgufType → String
name f32 = "f32"
name f16 = "f16"
name q4_0 = "q4_0"
name q4_1 = "q4_1"
name q5_0 = "q5_0"
name q5_1 = "q5_1"
name q8_0 = "q8_0"
name q8_1 = "q8_1"
name q2_k = "q2_k"
name q3_k = "q3_k"
name q4_k = "q4_k"
name q5_k = "q5_k"
name q6_k = "q6_k"
name q8_k = "q8_k"
name iq2_xxs = "iq2_xxs"
name iq2_xs = "iq2_xs"
name iq3_xxs = "iq3_xxs"
name iq1_s = "iq1_s"
name iq4_nl = "iq4_nl"
name iq3_s = "iq3_s"
name iq2_s = "iq2_s"
name iq4_xs = "iq4_xs"
name i8 = "i8"
name i16 = "i16"
name i32 = "i32"
name i64 = "i64"
name f64 = "f64"
name iq1_m = "iq1_m"
name bf16 = "bf16"
name tq1_0 = "tq1_0"
name tq2_0 = "tq2_0"
name mxfp4 = "mxfp4"

unfoldable pub is_dense_v1 : GgufType → Bool
is_dense_v1 f32 = true
is_dense_v1 f16 = true
is_dense_v1 bf16 = true
is_dense_v1 _ = false

unfoldable pub block_size : GgufType → Option ℕ
block_size f32 = none
block_size f16 = none
block_size q4_0 = some 32
block_size q4_1 = some 32
block_size q5_0 = some 32
block_size q5_1 = some 32
block_size q8_0 = some 32
block_size q8_1 = some 32
block_size q2_k = some 256
block_size q3_k = some 256
block_size q4_k = some 256
block_size q5_k = some 256
block_size q6_k = some 256
block_size q8_k = some 256
block_size iq2_xxs = some 256
block_size iq2_xs = some 256
block_size iq3_xxs = some 256
block_size iq1_s = some 256
block_size iq4_nl = some 32
block_size iq3_s = some 256
block_size iq2_s = some 256
block_size iq4_xs = some 256
block_size i8 = none
block_size i16 = none
block_size i32 = none
block_size i64 = none
block_size f64 = none
block_size iq1_m = some 256
block_size bf16 = none
block_size tq1_0 = some 256
block_size tq2_0 = some 256
block_size mxfp4 = some 32

unfoldable pub type_size : GgufType → Option ℕ
type_size f32 = some 4
type_size f16 = some 2
type_size q4_0 = some 18
type_size q4_1 = some 20
type_size q5_0 = some 22
type_size q5_1 = some 24
type_size q8_0 = some 34
type_size q8_1 = some 36
type_size q2_k = some 84
type_size q3_k = some 110
type_size q4_k = some 144
type_size q5_k = some 176
type_size q6_k = some 210
type_size q8_k = some 292
type_size iq2_xxs = some 66
type_size iq2_xs = some 74
type_size iq3_xxs = some 98
type_size iq1_s = some 50
type_size iq4_nl = some 18
type_size iq3_s = some 110
type_size iq2_s = some 82
type_size iq4_xs = some 136
type_size i8 = some 1
type_size i16 = some 2
type_size i32 = some 4
type_size i64 = some 8
type_size f64 = some 8
type_size iq1_m = some 56
type_size bf16 = some 2
type_size tq1_0 = some 54
type_size tq2_0 = some 66
type_size mxfp4 = some 17

unfoldable pub storage_element_type : GgufType → StorageElementType
storage_element_type f32 = scalar ScalarType.f32
storage_element_type f16 = scalar ScalarType.f16
storage_element_type q4_0 = opaque "gguf.q4_0"
storage_element_type q4_1 = opaque "gguf.q4_1"
storage_element_type q5_0 = opaque "gguf.q5_0"
storage_element_type q5_1 = opaque "gguf.q5_1"
storage_element_type q8_0 = opaque "gguf.q8_0"
storage_element_type q8_1 = opaque "gguf.q8_1"
storage_element_type q2_k = opaque "gguf.q2_k"
storage_element_type q3_k = opaque "gguf.q3_k"
storage_element_type q4_k = opaque "gguf.q4_k"
storage_element_type q5_k = opaque "gguf.q5_k"
storage_element_type q6_k = opaque "gguf.q6_k"
storage_element_type q8_k = opaque "gguf.q8_k"
storage_element_type iq2_xxs = opaque "gguf.iq2_xxs"
storage_element_type iq2_xs = opaque "gguf.iq2_xs"
storage_element_type iq3_xxs = opaque "gguf.iq3_xxs"
storage_element_type iq1_s = opaque "gguf.iq1_s"
storage_element_type iq4_nl = opaque "gguf.iq4_nl"
storage_element_type iq3_s = opaque "gguf.iq3_s"
storage_element_type iq2_s = opaque "gguf.iq2_s"
storage_element_type iq4_xs = opaque "gguf.iq4_xs"
storage_element_type i8 = scalar ScalarType.i8
storage_element_type i16 = scalar ScalarType.i16
storage_element_type i32 = scalar ScalarType.i32
storage_element_type i64 = scalar ScalarType.i64
storage_element_type f64 = scalar ScalarType.f64
storage_element_type iq1_m = opaque "gguf.iq1_m"
storage_element_type bf16 = scalar ScalarType.bf16
storage_element_type tq1_0 = opaque "gguf.tq1_0"
storage_element_type tq2_0 = opaque "gguf.tq2_0"
storage_element_type mxfp4 = opaque "gguf.mxfp4"

-- the two arms of the match on `block_size`
unfoldable pub sized : GgufType → ℕ → Option ℕ → Result CheckpointError ℕ
sized t n (some block) = do
  type_bytes ← ok_or (type_size t) (unsized_type (name t))
  guard (n % block == 0) (partial_block (name t) n block)
  ok_or (checked_mul (n / block) type_bytes) size_overflow
sized t n none = do
  sz ← ok_or (type_size t) (unsized_type (name t))
  ok_or (checked_mul n sz) size_overflow

unfoldable pub nbytes_for_shape : GgufType → List ℕ → Result CheckpointError ℕ
unfolding sized fold_mul
nbytes_for_shape t shape = do n ← ok_or (fold_mul 1 shape) numel_overflow; sized t n (block_size t)
