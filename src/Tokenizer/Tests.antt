-- ===== src/Tokenizer/Tests.antt =====
-- Runs of the tokenizer of crates/dyninfer-runtime/src/tokenizer_bpe.rs.
use dyninfer.Prelude.{
  ◌≡◌, refl, true, false, none, some, List, [], ◌∷◌, codes, ℕ, length, ◌++◌, arith,
}
use dyninfer.Tokenizer.Bpe.{Text, MergeRank, bpe_merge, merge_rank}
use dyninfer.Tokenizer.Merge.{Merged, bpe_merge-Merged}
use dyninfer.Tokenizer.Encode.{
  TokenEntry, BpeTokenizer, sentence_piece, find_special, encode, start_ids, token_id,
  initial_pieces_sp, mark_spaces, encode_ordinary, byte_level,
}
use dyninfer.Tokenizer.Table.{byte_pairs-char_pairs}
use dyninfer.Tokenizer.Bytes.{byte_pairs, char_pairs, lookup, range_from, utf8_text}
use dyninfer.Tokenizer.Segments.{Segments, encode-Segments, encode-none}

abbrev merge_table : List MergeRank
merge_table =
    record { left = codes "a"; right = codes "b"; rank = 1 }
    ∷ record { left = codes "b"; right = codes "c"; rank = 0 }
    ∷ record { left = codes "a"; right = codes "bc"; rank = 2 }
    ∷ []

abbrev letters : List Text
letters = codes "a" ∷ codes "b" ∷ codes "c" ∷ []

merges_letters : bpe_merge merge_table letters ≡ codes "abc" ∷ []
unfolding bpe_merge merge_rank
merges_letters = refl

bpe_merge-Merged_example : Merged merge_table letters (bpe_merge merge_table letters)
bpe_merge-Merged_example = bpe_merge-Merged merge_table letters

abbrev with_special : TokenEntry → BpeTokenizer
with_special q = record {
  kind = sentence_piece;
  token_to_id =
      record { piece = 9601 ∷ []; id = 1 }
      ∷ record { piece = codes "a"; id = 2 }
      ∷ record { piece = codes "b"; id = 3 }
      ∷ [];
  merges = merge_table;
  byte_fallback = false;
  id_to_token = [];
  bos_id = some 7;
  eos_id = none;
  special_ids = [];
  special_pieces = q ∷ [];
}

abbrev end_piece : TokenEntry
end_piece = record { piece = codes "<|e|>"; id = 9 }

abbrev prompt : Text
prompt = codes "ab<|e|>a"

encodes : encode 8 (with_special end_piece) prompt true ≡ some (7 ∷ 1 ∷ 0 ∷ 9 ∷ 1 ∷ 2 ∷ [])
unfolding encode merge_rank token_id initial_pieces_sp mark_spaces
encodes = refl

encode-Segments_example :
    (out : List ℕ) × (encode (length prompt) (with_special end_piece) prompt true
      ≡ some (start_ids (with_special end_piece) true ++ out))
    × Segments (with_special end_piece) prompt out
encode-Segments_example = encode-Segments (with_special end_piece) prompt true (omega arith, tt)

abbrev empty_piece : TokenEntry
empty_piece = record { piece = []; id = 9 }

found_first :
    find_special (empty_piece ∷ []) (codes "ab") none
    ≡ some (record { pos = 0; special = empty_piece })
unfolding find_special
found_first = refl

encode-none_example : encode 100 (with_special empty_piece) (codes "ab") false ≡ none
encode-none_example = encode-none (with_special empty_piece) 100 97 (98 ∷ []) 9 false found_first

abbrev byte_tokens : BpeTokenizer
byte_tokens = record {
  kind = byte_level;
  token_to_id =
      record { piece = codes "abc"; id = 1 }
      ∷ record { piece = 288 ∷ []; id = 0 }
      ∷ record { piece = codes "a"; id = 2 }
      ∷ [];
  merges = merge_table;
  byte_fallback = false;
  id_to_token = (288 ∷ []) ∷ codes "abc" ∷ codes "a" ∷ [];
  bos_id = none;
  eos_id = none;
  special_ids = [];
  special_pieces = [];
}

ordinary_ids : encode_ordinary byte_tokens (codes "abca") ≡ 1 ∷ 2 ∷ []
unfolding encode_ordinary merge_rank utf8_text lookup range_from token_id
ordinary_ids = refl

byte_pairs-char_pairs_example :
    (c : ℕ) × (lookup byte_pairs 32 ≡ some c) × (lookup char_pairs c ≡ some 32)
byte_pairs-char_pairs_example = byte_pairs-char_pairs 32 (omega arith)
