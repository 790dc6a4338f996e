-- ===== src/Tokenizer/Decode.antt =====
-- `decode_byte_level` of `BpeTokenizer`, in crates/dyninfer-runtime/src/tokenizer_bpe.rs, up to the bytes that
-- it hands to `String::from_utf8_lossy`.
use dyninfer.Prelude.{
  ℕ, Bool, false, not, ◌&&◌, ◌||◌, Option, none, some, List, [], ◌∷◌, ◌++◌, any, get_elem?,
  is_empty, codes, codes_eq, ◌==◌, if◌then◌else◌,
}
use dyninfer.Tokenizer.Bytes.{char_pairs, lookup, utf8}
use dyninfer.Tokenizer.Bpe.{Text}
use dyninfer.Tokenizer.Encode.{BpeTokenizer, starts_with}

abbrev pub same_id : Option ℕ → ℕ → Bool
same_id none id = false
same_id (some n) id = n == id

abbrev pub is_special : BpeTokenizer → ℕ → Bool
is_special t id = same_id t.bos_id id || same_id t.eos_id id || any (λ n. n == id) t.special_ids

-- `str::ends_with`
unfoldable pub ends_with : Text → Text → Bool
ends_with p [] = codes_eq p []
ends_with p (c ∷ text) = let later = ends_with p text in codes_eq p (c ∷ text) || later

abbrev pub text_or_empty : Option Text → Text
text_or_empty none = []
text_or_empty (some tok) = tok

-- what one round of the loop over the ids pushes
unfoldable pub token_text : BpeTokenizer → Bool → ℕ → Text
unfolding starts_with ends_with
token_text t skip_special_tokens id =
    let tok = text_or_empty (get_elem? t.id_to_token id) in
    if skip_special_tokens && is_special t id
    then []
    else (if is_empty tok
        then []
        else (if starts_with (codes "<|") tok && ends_with (codes "|>") tok
            then (if not skip_special_tokens then tok else [])
            else tok))

unfoldable pub byte_level_text : BpeTokenizer → Bool → List ℕ → Text
unfolding token_text
byte_level_text t skip_special_tokens [] = []
byte_level_text t skip_special_tokens (id ∷ ids) =
    token_text t skip_special_tokens id ++ byte_level_text t skip_special_tokens ids

abbrev pub gpt2_space : ℕ
gpt2_space = 288

abbrev pub byte_or_utf8 : Option ℕ → ℕ → List ℕ
byte_or_utf8 none c = if c == gpt2_space then 32 ∷ [] else utf8 c
byte_or_utf8 (some b) c = b ∷ []

unfoldable pub text_bytes : Text → List ℕ
unfolding lookup utf8
text_bytes [] = []
text_bytes (c ∷ cs) = byte_or_utf8 (lookup char_pairs c) c ++ text_bytes cs

unfoldable pub byte_level_bytes : BpeTokenizer → List ℕ → Bool → List ℕ
unfolding byte_level_text text_bytes
byte_level_bytes t ids skip_special_tokens = text_bytes (byte_level_text t skip_special_tokens ids)
