-- ===== src/Tokenizer/Bytes.antt =====
-- `gpt2_bytes_to_unicode` of crates/dyninfer-runtime/src/tokenizer_bpe.rs, and the UTF-8 form of a text.
use dyninfer.Prelude.{
  ℕ, zero, suc, ◌+◌, ◌/◌, ◌%◌, Option, none, some, List, [], ◌∷◌, ◌++◌, map, any, ltb, ◌==◌,
  if◌then◌else◌,
}

-- a map from numbers: the list of its entries, newest first
unfoldable pub lookup : List (ℕ × ℕ) → ℕ → Option ℕ
lookup [] key = none
lookup ((k, v) ∷ rest) key = if k == key then some v else lookup rest key

-- `lo..` of `n` numbers
unfoldable pub range_from : ℕ → ℕ → List ℕ
range_from lo zero = []
range_from lo (suc n) = lo ∷ range_from (suc lo) n

-- the printable bytes
abbrev pub printable : List ℕ
printable = range_from 33 94 ++ range_from 161 12 ++ range_from 174 82

-- the loop over the bytes `bs`: `n` of them were mapped above 255 so far
unfoldable pub remaining : List ℕ → ℕ → List (ℕ × ℕ)
remaining [] n = []
remaining (b ∷ bs) n =
    let known = any (λ c. b == c) printable in
    let rest = remaining bs (if known then n else suc n) in
    if known then rest else (b, 256 + n) ∷ rest

-- the bytes zipped with their characters
abbrev pub byte_pairs : List (ℕ × ℕ)
byte_pairs = map (λ b. (b, b)) printable ++ remaining (range_from 0 256) 0

-- the map back
abbrev pub char_pairs : List (ℕ × ℕ)
char_pairs = map (λ p. (p.1, p.0)) byte_pairs

-- `char::encode_utf8`
unfoldable pub utf8 : ℕ → List ℕ
utf8 c =
    if ltb c 128
    then c ∷ []
    else (if ltb c 2048
        then (192 + c / 64) ∷ (128 + c % 64) ∷ []
        else (if ltb c 65536
            then (224 + c / 4096) ∷ (128 + c / 64 % 64) ∷ (128 + c % 64) ∷ []
            else (240 + c / 262144)
              ∷ (128 + c / 4096 % 64)
              ∷ (128 + c / 64 % 64)
              ∷ (128 + c % 64)
              ∷ []))

unfoldable pub utf8_text : List ℕ → List ℕ
unfolding utf8
utf8_text [] = []
utf8_text (c ∷ cs) = utf8 c ++ utf8_text cs
