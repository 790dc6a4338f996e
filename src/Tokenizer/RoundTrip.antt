-- ===== src/Tokenizer/RoundTrip.antt =====
-- What `decode_byte_level` makes of the ids of `encode_ordinary`, in
-- crates/dyninfer-runtime/src/tokenizer_bpe.rs.
use dyninfer.Prelude.{ℕ, ◌<◌, ◌≡◌, Bool, List, All}
use dyninfer.Tokenizer.Bpe.{Text}
use dyninfer.Tokenizer.Encode.{BpeTokenizer, piece_or_unknown}
use dyninfer.Tokenizer.Decode.{token_text}

-- A code point of Unicode.
abbrev pub IsCodePoint : ℕ → Type 0
IsCodePoint c = c < 1114112

abbrev AreBytes : List ℕ → Type 0
AreBytes bs = All (λ b. b < 256) bs

module _ (t : BpeTokenizer) (skip_special_tokens : Bool) where
  -- The piece's id gives the piece itself back: it is in the vocabulary, and no special token.
  abbrev pub HasToken : Text → Type 0
  HasToken p = token_text t skip_special_tokens (piece_or_unknown t p) ≡ p
