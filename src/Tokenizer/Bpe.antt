-- ===== src/Tokenizer/Bpe.antt =====
-- `bpe_merge`, the first pieces of a text, and `encode` of `BpeTokenizer`, in
-- crates/dyninfer-runtime/src/tokenizer_bpe.rs. Its maps are lists of entries, newest first.
use dyninfer.Prelude.{
  ℕ, zero, suc, ◌&&◌, Option, none, some, List, [], ◌∷◌, ◌++◌, length, leb, ltb, codes_eq, u32_max,
  if◌then◌else◌,
}

abbrev pub Text : Type 0
Text = List ℕ

-- the key and the value of the map of merges
pub record MergeRank : Type 0 where
  pub left : Text
  pub right : Text
  pub rank : ℕ

unfoldable pub merge_rank : List MergeRank → Text → Text → Option ℕ
merge_rank [] a b = none
merge_rank (m ∷ ms) a b =
    if codes_eq m.left a && codes_eq m.right b then some m.rank else merge_rank ms a b

-- `best_rank` and `best_i`
pub record Best : Type 0 where
  pub rank : ℕ
  pub at : Option ℕ

-- the body of the inner loop, at the pair with the index `i`
abbrev pub better : Option ℕ → ℕ → Best → Best
better none i best = best
better (some rank) i best = if ltb rank best.rank then record { rank = rank; at = some i } else best

unfoldable pub best_pair : List MergeRank → ℕ → Best → List Text → Best
best_pair m i best [] = best
best_pair m i best (a ∷ []) = best
best_pair m i best (a ∷ b ∷ rest) =
    best_pair m (suc i) (better (merge_rank m a b) i best) (b ∷ rest)

-- `pieces[i] = merged; pieces.remove(i + 1)`
unfoldable pub merge_at : ℕ → List Text → List Text
merge_at i [] = []
merge_at i (a ∷ []) = a ∷ []
merge_at zero (a ∷ b ∷ rest) = (a ++ b) ∷ rest
merge_at (suc i) (a ∷ b ∷ rest) = a ∷ merge_at i (b ∷ rest)

-- the outer loop
unfoldable pub merge_loop : ℕ → List MergeRank → List Text → List Text
unfolding best_pair merge_at
merge_loop zero m pieces = pieces
merge_loop (suc fuel) m pieces =
    elim (best_pair m 0 (record { rank = u32_max; at = none }) pieces).at [
      | none ↦ pieces
      | some i ↦ merge_loop fuel m (merge_at i pieces)
    ]

-- Each round removes a piece, so the fuel is the number of pieces.
unfoldable pub bpe_merge : List MergeRank → List Text → List Text
unfolding merge_loop
bpe_merge m pieces = if leb (length pieces) 1 then pieces else merge_loop (length pieces) m pieces
