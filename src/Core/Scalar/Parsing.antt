-- ===== src/Core/Scalar/Parsing.antt =====
-- `parse` of crates/dyninfer-core/src/scalar.rs reads back what `Display` writes, in any case of letters.
use dyninfer.Prelude.{
  ℕ, ◌-◌, ◌≡◌, refl, ap, ◌∙◌, some, List, [], ◌∷◌, map, ◌&&◌, leb, arith, codes, if◌then◌else◌,
}
use dyninfer.Core.Scalar.{
  ScalarType, f32, f16, bf16, f64, i8, i16, i32, i64, u8, u16, u32, u64, boolean, parse,
  parse_lower, display, to_ascii_lowercase,
}

-- `char::to_ascii_uppercase`
unfoldable pub to_ascii_uppercase : ℕ → ℕ
to_ascii_uppercase c = if leb b'a' c && leb c b'z' then c - 32 else c

lower-upper : (c : ℕ) → to_ascii_lowercase (to_ascii_uppercase c) ≡ to_ascii_lowercase c
unfolding to_ascii_lowercase to_ascii_uppercase
lower-upper c = ground arith

map-lower-upper :
    (s : List ℕ) → map to_ascii_lowercase (map to_ascii_uppercase s) ≡ map to_ascii_lowercase s
map-lower-upper [] = refl
map-lower-upper (c ∷ s) = cc (lower-upper c, map-lower-upper s)

-- The case of the letters does not matter to `parse`.
pub parse-upper : (s : List ℕ) → parse (map to_ascii_uppercase s) ≡ parse s
unfolding parse
parse-upper s = ap parse_lower (map-lower-upper s)

parse-display_lower : (t : ScalarType) → parse (codes (display t)) ≡ some t
unfolding parse display
parse-display_lower f32 = refl
parse-display_lower f16 = refl
parse-display_lower bf16 = refl
parse-display_lower f64 = refl
parse-display_lower i8 = refl
parse-display_lower i16 = refl
parse-display_lower i32 = refl
parse-display_lower i64 = refl
parse-display_lower u8 = refl
parse-display_lower u16 = refl
parse-display_lower u32 = refl
parse-display_lower u64 = refl
parse-display_lower boolean = refl

-- For every scalar type, the text that `Display` writes, as it is and with its letters in upper
-- case, parses back to that type.
pub parse-display :
    (t : ScalarType)
    → (parse (codes (display t)) ≡ some t)
      × (parse (map to_ascii_uppercase (codes (display t))) ≡ some t)
parse-display t = (parse-display_lower t, parse-upper (codes (display t)) ∙ parse-display_lower t)
