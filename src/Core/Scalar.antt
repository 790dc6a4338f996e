-- ===== src/Core/Scalar.antt =====
-- crates/dyninfer-core/src/scalar.rs. Text that is walked is a list of code points.
pub mod Parsing
use dyninfer.Prelude.Eq.{Eq}
use dyninfer.Prelude.{
  ℕ, ◌+◌, ◌≡◌, ◌↔◌, ap, arith, ◌==◌, String, Bool, true, false, ◌&&◌, Option, none, some, List, [],
  ◌∷◌, map, leb, codes, codes_eq, if◌then◌else◌,
}

pub data ScalarType : Type 0 where
  f32 f16 bf16 f64 i8 i16 i32 i64 u8 u16 u32 u64 boolean : ScalarType

-- `size_bytes` is `Some` of each arm's number.
unfoldable pub size_bytes : ScalarType → Option ℕ
size_bytes f32 = some 4
size_bytes i32 = some 4
size_bytes u32 = some 4
size_bytes f16 = some 2
size_bytes bf16 = some 2
size_bytes i16 = some 2
size_bytes u16 = some 2
size_bytes f64 = some 8
size_bytes i64 = some 8
size_bytes u64 = some 8
size_bytes i8 = some 1
size_bytes u8 = some 1
size_bytes boolean = some 1

-- `char::to_ascii_lowercase`
unfoldable pub to_ascii_lowercase : ℕ → ℕ
to_ascii_lowercase c = if leb b'A' c && leb c b'Z' then c + 32 else c

-- one arm `"a" | "b" => Some(t)` of the match
abbrev pub arm : String → String → ScalarType → List ℕ → Option ScalarType → Option ScalarType
arm a b t s rest =
    if codes_eq s (codes a) then some t else if codes_eq s (codes b) then some t else rest

-- the match on the lowered text
unfoldable pub parse_lower : List ℕ → Option ScalarType
parse_lower s = arm "f32" "float32" f32 s (
    arm "f16" "float16" f16 s (
      arm "bf16" "bfloat16" bf16 s (
        arm "f64" "float64" f64 s (
          arm "i8" "int8" i8 s (
            arm "i16" "int16" i16 s (
              arm "i32" "int32" i32 s (
                arm "i64" "int64" i64 s (
                  arm "u8" "uint8" u8 s (
                    arm "u16" "uint16" u16 s (
                      arm "u32" "uint32" u32 s
                        (arm "u64" "uint64" u64 s (arm "bool" "boolean" boolean s none))))))))))))

unfoldable pub parse : List ℕ → Option ScalarType
unfolding parse_lower to_ascii_lowercase
parse s = parse_lower (map to_ascii_lowercase s)

-- `Display`
unfoldable pub display : ScalarType → String
display f32 = "f32"
display f16 = "f16"
display bf16 = "bf16"
display f64 = "f64"
display i8 = "i8"
display i16 = "i16"
display i32 = "i32"
display i64 = "i64"
display u8 = "u8"
display u16 = "u16"
display u32 = "u32"
display u64 = "u64"
display boolean = "bool"

pub data StorageElementType : Type 0 where
  scalar : ScalarType → StorageElementType
  packed_bits : ℕ → Bool → StorageElementType
  opaque : String → StorageElementType

pub data Endianness : Type 0 where
  little big native : Endianness

pub data TensorOrder : Type 0 where
  row_major column_major : TensorOrder

-- the derived `PartialEq`
unfoldable pub scalar_index : ScalarType → ℕ
scalar_index f32 = 0
scalar_index f16 = 1
scalar_index bf16 = 2
scalar_index f64 = 3
scalar_index i8 = 4
scalar_index i16 = 5
scalar_index i32 = 6
scalar_index i64 = 7
scalar_index u8 = 8
scalar_index u16 = 9
scalar_index u32 = 10
scalar_index u64 = 11
scalar_index boolean = 12

scalar_index_injective : (a b : ScalarType) → scalar_index a ≡ scalar_index b → a ≡ b
unfolding scalar_index
scalar_index_injective a b h = ground arith

abbrev pub scalar_beq : ScalarType → ScalarType → Bool
scalar_beq a b = scalar_index a == scalar_index b

pub scalar_beq_iff : (a b : ScalarType) → (scalar_beq a b ≡ true) ↔ (a ≡ b)
scalar_beq_iff a b =
    (λ h. scalar_index_injective a b (ground arith), λ h. ground (arith, ap scalar_index h))

instance abbrev pub scalar_eq : Eq ScalarType
scalar_eq = record { beq = scalar_beq; beq_iff = scalar_beq_iff }
