-- ===== src/Tokenizer/Segments.antt =====
-- `encode` of crates/dyninfer-runtime/src/tokenizer_bpe.rs as a division of the text at its special pieces.
use mathlib.Core.Path.{subst}
use mathlib.Core.List.{append_assoc, append-nil}
use dyninfer.Prelude.{
  ℕ, zero, suc, ◌+◌, ◌≤◌, ◌<◌, ◌≡◌, ◌∙◌, refl, sym, ap, inl, inr, Bool, Option, none, some, List,
  [], ◌∷◌, ◌++◌, Memᴰ, All, All-mem, length, length-drop, take, drop, Option-cases, lt→ltb,
  if◌then◌else◌, arith,
}
use dyninfer.Tokenizer.Bpe.{Text}
use dyninfer.Tokenizer.Encode.{
  TokenEntry, BpeTokenizer, encode_ordinary, SpecialAt, find_special, ordinary_before, encode_loop,
  start_ids, encode,
}
use dyninfer.Tokenizer.Special.{
  find_piece-StandsAt, NoSpecial, NoneBefore, find_special-none, find_special-some,
}

module _ (t : BpeTokenizer) where
  -- The ids of a text that is divided at its special pieces: each is the first that stands in the rest
  -- of the text, gives its own id, and what stands before it is encoded by itself.
  pub data Segments : Text → List ℕ → Type 0 where
    no_text : Segments [] []
    ordinary :
        {text : Text} → NoSpecial t.special_pieces text → Segments text (encode_ordinary t text)
    special :
        (q : TokenEntry) (before after : Text) {text : Text} (ids : List ℕ)
        → Memᴰ q t.special_pieces
        → text ≡ before ++ (q.piece ++ after)
        → NoneBefore t.special_pieces text (length before)
        → Segments after ids
        → Segments text (encode_ordinary t before ++ q.id ∷ ids)

  ordinary_before_eq :
      (pos : ℕ) (rest : Text) → ordinary_before t pos rest ≡ encode_ordinary t (take pos rest)
  unfolding encode_ordinary
  ordinary_before_eq zero rest = refl
  ordinary_before_eq (suc pos) rest =
      ap (λ x. if x then encode_ordinary t (take (suc pos) rest) else [])
        (lt→ltb 0 (suc pos) (omega arith))

  -- An empty piece would stand everywhere.
  abbrev pub NonEmpty : TokenEntry → Type 0
  NonEmpty q = 0 < length q.piece

  -- The ids that the loop adds.
  Added : ℕ → List ℕ → Text → Type 0
  Added fuel ids text =
      (out : List ℕ) × (encode_loop fuel t ids text ≡ some (ids ++ out)) × Segments text out

  -- the rest of a round, by what `find_special` returns
  abbrev round_by : ℕ → List ℕ → Text → Option SpecialAt → Option (List ℕ)
  round_by fuel ids text o = elim o [
    | none ↦ some (ids ++ encode_ordinary t text)
    | some s ↦
        encode_loop fuel t ((ids ++ ordinary_before t s.pos text) ++ s.special.id ∷ [])
          (drop (s.pos + length s.special.piece) text)
  ]

  loop_round :
      (fuel c : ℕ) (ids cs : List ℕ) (o : Option SpecialAt)
      → find_special t.special_pieces (c ∷ cs) none ≡ o
      → encode_loop (suc fuel) t ids (c ∷ cs) ≡ round_by fuel ids (c ∷ cs) o
  unfolding encode_loop
  loop_round fuel c ids cs none e = ap (round_by fuel ids (c ∷ cs)) e
  loop_round fuel c ids cs (some s) e = ap (round_by fuel ids (c ∷ cs)) e

  appended : (a b b' r : List ℕ) (x : ℕ) → b ≡ b' → ((a ++ b) ++ x ∷ []) ++ r ≡ a ++ (b' ++ x ∷ r)
  appended a b b' r x e =
      append_assoc (a ++ b) (x ∷ []) r ∙ append_assoc a b (x ∷ r) ∙ ap (λ l. a ++ (l ++ x ∷ r)) e

  round-Added :
      (fuel c : ℕ) (ids cs : List ℕ) (s : SpecialAt)
      → find_special t.special_pieces (c ∷ cs) none ≡ some s
      → Added fuel
          ((ids ++ ordinary_before t s.pos (c ∷ cs)) ++ s.special.id ∷ [])
          (drop (s.pos + length s.special.piece) (c ∷ cs))
      → Added (suc fuel) ids (c ∷ cs)
  unfolding Added
  round-Added fuel c ids cs s e (out, loops, rest) =
      let text = c ∷ cs in
      let found = find_special-some t.special_pieces text none s e in
      elim found.0 [
        | inl nothing ↦ absurd (cc)
        | inr (m, at_pos) ↦
            let stands = find_piece-StandsAt s.special.piece text s.pos at_pos in
            (
              encode_ordinary t (take s.pos text) ++ s.special.id ∷ out,
              loop_round fuel c ids cs (some s) e
                  ∙ loops
                  ∙ ap some (appended ids _ _ out s.special.id (ordinary_before_eq s.pos text)),
              special s.special (take s.pos text) (drop (s.pos + length s.special.piece) text) out m
                  stands.0 (subst (NoneBefore t.special_pieces text) (sym stands.1) found.2) rest,
            )
      ]

  drop_less :
      (fuel n k c : ℕ) (cs : List ℕ)
      → 0 < k
      → length cs ≤ fuel
      → length (drop (n + k) (c ∷ cs)) ≤ fuel
  drop_less fuel n k c cs pos h = let e = length-drop (n + k) (c ∷ cs) in omega arith

  chosen_less :
      (fuel c : ℕ) (cs : List ℕ) (s : SpecialAt)
      → All NonEmpty t.special_pieces
      → length cs ≤ fuel
      → find_special t.special_pieces (c ∷ cs) none ≡ some s
      → length (drop (s.pos + length s.special.piece) (c ∷ cs)) ≤ fuel
  chosen_less fuel c cs s full h e = elim (find_special-some t.special_pieces (c ∷ cs) none s e).0 [
    | inl nothing ↦ absurd (cc)
    | inr (m, at_pos) ↦
        drop_less fuel s.pos (length s.special.piece) c cs (All-mem NonEmpty full m) h
  ]

  encode_loop-Added :
      (fuel : ℕ) (ids : List ℕ) (text : Text)
      → All NonEmpty t.special_pieces
      → length text ≤ fuel
      → Added fuel ids text
  unfolding encode_loop Added
  encode_loop-Added fuel ids [] full h = ([], ap some (sym (append-nil ids)), no_text)
  encode_loop-Added zero ids (c ∷ cs) full h = absurd (omega arith)
  encode_loop-Added (suc fuel) ids (c ∷ cs) full h =
      elim (Option-cases (find_special t.special_pieces (c ∷ cs) none)) [
        | inl e ↦ (
          encode_ordinary t (c ∷ cs),
          loop_round fuel c ids cs none e,
          ordinary (find_special-none t.special_pieces (c ∷ cs) none e).1,
        )
        | inr (s, e) ↦
            round-Added fuel c ids cs s e
              (encode_loop-Added fuel _ _ full (chosen_less fuel c cs s full (omega arith) e))
      ]

  loops_on :
      (fuel c : ℕ) (ids cs : List ℕ) (id : ℕ)
      → find_special t.special_pieces (c ∷ cs) none
        ≡ some (record { pos = 0; special = record { piece = []; id = id } })
      → encode_loop fuel t ids (c ∷ cs) ≡ none
  unfolding encode_loop
  loops_on zero c ids cs id e = refl
  loops_on (suc fuel) c ids cs id e =
      loop_round fuel c ids cs (some _) e ∙ loops_on fuel c _ cs id e

  -- Where every special piece has a character, as many rounds as the text has characters are enough: the
  -- ids are the starting one, where it is asked for, and those of the text divided at the special pieces,
  -- each time at the first that stands in the rest.
  pub encode-Segments :
      (text : Text) (add_special_tokens : Bool)
      → All NonEmpty t.special_pieces
      → (out : List ℕ) × (encode (length text) t text add_special_tokens
          ≡ some (start_ids t add_special_tokens ++ out))
        × Segments text out
  unfolding encode Added
  encode-Segments text add full =
      encode_loop-Added (length text) (start_ids t add) text full (omega arith)

  -- Where the chosen special piece is empty and stands at the front, no number of rounds is enough.
  pub encode-none :
      (fuel c : ℕ) (cs : Text) (id : ℕ) (add_special_tokens : Bool)
      → find_special t.special_pieces (c ∷ cs) none
        ≡ some (record { pos = 0; special = record { piece = []; id = id } })
      → encode fuel t (c ∷ cs) add_special_tokens ≡ none
  unfolding encode
  encode-none fuel c cs id add e = loops_on fuel c (start_ids t add) cs id e
