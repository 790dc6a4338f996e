-- ===== src/Tokenizer/Encode.antt =====
-- `encode` and `encode_ordinary` of `BpeTokenizer`, in crates/dyninfer-runtime/src/tokenizer_bpe.rs. Neither
-- has an error path. The state leaves the chat template out, and the byte
-- decoder, which is a table.
use dyninfer.Prelude.{
  ℕ, zero, suc, ◌+◌, ◌/◌, ◌%◌, Bool, true, false, ◌&&◌, Option, none, some, List, [], ◌∷◌, ◌++◌,
  map, length, take, drop, ltb, ◌==◌, codes, codes_eq, if◌then◌else◌,
}
use dyninfer.Tokenizer.Bytes.{byte_pairs, lookup, utf8, utf8_text}
use dyninfer.Tokenizer.Bpe.{Text, MergeRank, bpe_merge}

pub data TokenizerKind : Type 0 where
  sentence_piece byte_level : TokenizerKind

-- a piece and its token
pub record TokenEntry : Type 0 where
  pub piece : Text
  pub id : ℕ

pub record BpeTokenizer : Type 0 where
  pub kind : TokenizerKind
  pub token_to_id : List TokenEntry
  pub merges : List MergeRank
  pub byte_fallback : Bool
  pub id_to_token : List Text
  pub bos_id : Option ℕ
  pub eos_id : Option ℕ
  pub special_ids : List ℕ
  pub special_pieces : List TokenEntry

unfoldable pub token_id : List TokenEntry → Text → Option ℕ
token_id [] piece = none
token_id (t ∷ ts) piece = if codes_eq t.piece piece then some t.id else token_id ts piece

abbrev pub or_else : Option ℕ → Option ℕ → Option ℕ
or_else none b = b
or_else (some a) b = some a

abbrev pub or_value : Option ℕ → ℕ → ℕ
or_value none d = d
or_value (some n) d = n

abbrev pub space_mark : ℕ
space_mark = 9601

-- the loop over the characters
unfoldable pub mark_spaces : Text → Text
mark_spaces [] = []
mark_spaces (c ∷ cs) = (if c == 32 then space_mark else c) ∷ mark_spaces cs

abbrev pub normalize_sp : Text → Text
normalize_sp text = space_mark ∷ mark_spaces text

abbrev pub hex_digit : ℕ → ℕ
hex_digit n = if ltb n 10 then 48 + n else 55 + n

-- `format!("<0x{b:02X}>")`
abbrev pub byte_piece : ℕ → Text
byte_piece b = codes "<0x" ++ hex_digit (b / 16) ∷ hex_digit (b % 16) ∷ codes ">"

abbrev pub is_known : Option ℕ → Bool
is_known none = false
is_known (some n) = true

abbrev pub pieces_of_char : BpeTokenizer → ℕ → List Text
pieces_of_char t c =
    if is_known (token_id t.token_to_id (c ∷ []))
    then (c ∷ []) ∷ []
    else (if t.byte_fallback then map byte_piece (utf8 c) else codes "<unk>" ∷ [])

unfoldable pub initial_pieces_sp : BpeTokenizer → Text → List Text
initial_pieces_sp t [] = []
initial_pieces_sp t (c ∷ cs) = pieces_of_char t c ++ initial_pieces_sp t cs

-- `enc[b]`; the table has every byte
abbrev pub byte_char : ℕ → ℕ
byte_char b = or_value (lookup byte_pairs b) 0

abbrev pub initial_pieces_byte_level : Text → List Text
initial_pieces_byte_level text = map (λ b. byte_char b ∷ []) (utf8_text text)

abbrev pub pieces_of : BpeTokenizer → TokenizerKind → Text → List Text
pieces_of t sentence_piece text = initial_pieces_sp t (normalize_sp text)
pieces_of t byte_level text = initial_pieces_byte_level text

abbrev pub piece_or_unknown : BpeTokenizer → Text → ℕ
piece_or_unknown t p =
    or_value (or_else (token_id t.token_to_id p) (token_id t.token_to_id (codes "<unk>"))) 0

unfoldable pub encode_ordinary : BpeTokenizer → Text → List ℕ
unfolding bpe_merge
encode_ordinary t [] = []
encode_ordinary t (c ∷ cs) =
    map (piece_or_unknown t) (bpe_merge t.merges (pieces_of t t.kind (c ∷ cs)))

unfoldable pub starts_with : Text → Text → Bool
starts_with [] text = true
starts_with (c ∷ p) [] = false
starts_with (c ∷ p) (d ∷ text) = (c == d) && starts_with p text

abbrev pub next_position : Option ℕ → Option ℕ
next_position none = none
next_position (some n) = some (suc n)

-- `rest.find(piece)`
unfoldable pub find_piece : Text → Text → Option ℕ
unfolding starts_with
find_piece p [] = if starts_with p [] then some 0 else none
find_piece p (d ∷ text) =
    let later = find_piece p text in
    if starts_with p (d ∷ text) then some 0 else next_position later

-- the variable `special_at`
pub record SpecialAt : Type 0 where
  pub pos : ℕ
  pub special : TokenEntry

-- `special_at.is_none_or(|(best, _, _)| pos < best)`
abbrev pub is_earlier : Option SpecialAt → ℕ → Bool
is_earlier none pos = true
is_earlier (some s) pos = ltb pos s.pos

abbrev pub note_special : Option SpecialAt → TokenEntry → Option ℕ → Option SpecialAt
note_special best q none = best
note_special best q (some pos) =
    if is_earlier best pos then some (record { pos = pos; special = q }) else best

-- the loop over the special pieces
unfoldable pub find_special : List TokenEntry → Text → Option SpecialAt → Option SpecialAt
unfolding find_piece
find_special [] rest best = best
find_special (q ∷ qs) rest best =
    find_special qs rest (note_special best q (find_piece q.piece rest))

-- `if pos > 0 { … }`
abbrev pub ordinary_before : BpeTokenizer → ℕ → Text → List ℕ
ordinary_before t pos rest = if ltb 0 pos then encode_ordinary t (take pos rest) else []

-- the loop over the rest of the text; `none` when `fuel` rounds are not enough
unfoldable pub encode_loop : ℕ → BpeTokenizer → List ℕ → Text → Option (List ℕ)
unfolding encode_ordinary find_special
encode_loop fuel t ids [] = some ids
encode_loop zero t ids (c ∷ cs) = none
encode_loop (suc fuel) t ids (c ∷ cs) = elim (find_special t.special_pieces (c ∷ cs) none) [
  | none ↦ some (ids ++ encode_ordinary t (c ∷ cs))
  | some s ↦
      encode_loop fuel t ((ids ++ ordinary_before t s.pos (c ∷ cs)) ++ s.special.id ∷ [])
        (drop (s.pos + length s.special.piece) (c ∷ cs))
]

abbrev pub start_ids : BpeTokenizer → Bool → List ℕ
start_ids t add_special_tokens =
    if add_special_tokens then elim t.bos_id [ none ↦ [] | some bos ↦ bos ∷ [] ] else []

unfoldable pub encode : ℕ → BpeTokenizer → Text → Bool → Option (List ℕ)
unfolding encode_loop
encode fuel t text add_special_tokens = encode_loop fuel t (start_ids t add_special_tokens) text
