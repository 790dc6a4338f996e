-- ===== src/Tokenizer/Picks.antt =====
-- Which pair the inner loop of `bpe_merge` finds, in crates/dyninfer-runtime/src/tokenizer_bpe.rs.
use mathlib.Core.Path.{subst}
use dyninfer.Prelude.{
  ℕ, suc, ◌+◌, ◌≤◌, ◌<◌, ◌≡◌, ◌∙◌, refl, sym, ap, ◌⊎◌, inl, inr, Bool, true, false, Option, none,
  some, List, [], ◌∷◌, ◌++◌, Option-cases, Bool-cases, ltb, ltb→lt, if◌then◌else◌, arith,
}
use dyninfer.Tokenizer.Bpe.{Text, MergeRank, merge_rank, Best, better, best_pair}

module _ (m : List MergeRank) where
  -- The pair's rank is not below `r`.
  pub AtLeast : ℕ → Text → Text → Type 0
  AtLeast r a b = (q : ℕ) → merge_rank m a b ≡ some q → r ≤ q

  -- The pair's rank is above `r`.
  pub Above : ℕ → Text → Text → Type 0
  Above r a b = (q : ℕ) → merge_rank m a b ≡ some q → r < q

  -- No pair of neighbours has a rank below `r`.
  abbrev pub NoneBelow : ℕ → List Text → Type 0
  NoneBelow r [] = Unit
  NoneBelow r (a ∷ []) = Unit
  NoneBelow r (a ∷ b ∷ rest) = AtLeast r a b × NoneBelow r (b ∷ rest)

  -- The pair with the index `j` has the rank `r`, which is the lowest, and is the first such pair; the
  -- last list has its two pieces joined.
  pub data Pick : ℕ → ℕ → List Text → List Text → Type 0 where
    pick_here :
        {r : ℕ} {a b : Text} {rest : List Text}
        → merge_rank m a b ≡ some r
        → NoneBelow r (b ∷ rest)
        → Pick 0 r (a ∷ b ∷ rest) ((a ++ b) ∷ rest)
    pick_later :
        {j r : ℕ} {a b : Text} {rest out : List Text}
        → Above r a b
        → Pick j r (b ∷ rest) out
        → Pick (suc j) r (a ∷ b ∷ rest) (a ∷ out)

  AtLeast-none : (r : ℕ) (a b : Text) → merge_rank m a b ≡ none → AtLeast r a b
  unfolding AtLeast
  AtLeast-none r a b e q h = cc

  AtLeast-some : (r q : ℕ) (a b : Text) → merge_rank m a b ≡ some q → r ≤ q → AtLeast r a b
  unfolding AtLeast
  AtLeast-some r q a b e le q' h = ground arith

  Above-none : (r : ℕ) (a b : Text) → merge_rank m a b ≡ none → Above r a b
  unfolding Above
  Above-none r a b e q h = cc

  Above-some : (r q : ℕ) (a b : Text) → merge_rank m a b ≡ some q → r < q → Above r a b
  unfolding Above
  Above-some r q a b e lt q' h = ground arith

  abbrev found_at : ℕ → ℕ → Best
  found_at r i = record { rank = r; at = some i }

  at_index : (r i j : ℕ) → i ≡ j → found_at r i ≡ found_at r j
  at_index r i j e = ap (found_at r) e

  -- What the inner loop finds from the index `i` on.
  abbrev pub Found : ℕ → Best → List Text → Best → Type 0
  Found i s ps t =
      (NoneBelow s.rank ps × (t ≡ s))
      ⊎ ((j r : ℕ) × (out : List Text) × (r < s.rank)
          × Pick j r ps out
          × (t ≡ record { rank = r; at = some (i + j) }))

  Found-keep :
      (i : ℕ) (s : Best) (a b : Text) (rest : List Text) (t : Best)
      → AtLeast s.rank a b
      → ((r : ℕ) → r < s.rank → Above r a b)
      → Found (suc i) s (b ∷ rest) t
      → Found i s (a ∷ b ∷ rest) t
  Found-keep i s a b rest t least above (inl (none_below, e)) = inl ((least, none_below), e)
  Found-keep i s a b rest t least above (inr (j, r, out, lt, pick, e)) =
      inr (suc j, r, a ∷ out, lt, pick_later (above r lt) pick, e ∙ at_index r _ _ (omega arith))

  Found-take :
      (i r : ℕ) (s : Best) (a b : Text) (rest : List Text) (t : Best)
      → merge_rank m a b ≡ some r
      → r < s.rank
      → Found (suc i) (record { rank = r; at = some i }) (b ∷ rest) t
      → Found i s (a ∷ b ∷ rest) t
  Found-take i r s a b rest t e lt (inl (none_below, same)) =
      inr (0, r, (a ++ b) ∷ rest, lt, pick_here e none_below, same ∙ at_index r _ _ (omega arith))
  Found-take i r s a b rest t e lt (inr (j, q, out, less, pick, same)) = inr (
    suc j,
    q,
    a ∷ out,
    omega arith,
    pick_later (Above-some q r a b e less) pick,
    same ∙ at_index q _ _ (omega arith),
  )

  Found-along :
      (i : ℕ) (s : Best) (a b : Text) (rest : List Text) (o : Option ℕ)
      → merge_rank m a b ≡ o
      → Found i s (a ∷ b ∷ rest) (best_pair m (suc i) (better o i s) (b ∷ rest))
      → Found i s (a ∷ b ∷ rest) (best_pair m i s (a ∷ b ∷ rest))
  unfolding best_pair
  Found-along i s a b rest o e f =
      subst (λ u. Found i s (a ∷ b ∷ rest) (best_pair m (suc i) (better u i s) (b ∷ rest))) (sym e)
        f

  Found-test :
      (i q : ℕ) (s : Best) (a b : Text) (rest : List Text) (x : Bool)
      → ltb q s.rank ≡ x
      → Found i s (a ∷ b ∷ rest) (best_pair m (suc i) (if x then found_at q i else s) (b ∷ rest))
      → Found i s (a ∷ b ∷ rest) (best_pair m (suc i) (better (some q) i s) (b ∷ rest))
  Found-test i q s a b rest x e f =
      subst
        (λ u.
          Found i s (a ∷ b ∷ rest) (best_pair m (suc i) (if u then found_at q i else s) (b ∷ rest)))
        (sym e) f

  pub best_pair-Found : (i : ℕ) (s : Best) (ps : List Text) → Found i s ps (best_pair m i s ps)
  unfolding best_pair
  best_pair-Found i s [] = inl (tt, refl)
  best_pair-Found i s (a ∷ []) = inl (tt, refl)
  best_pair-Found i s (a ∷ b ∷ rest) = elim (Option-cases (merge_rank m a b)) [
    | inl e ↦ Found-along i s a b rest none e (
        Found-keep i s a b rest _ (AtLeast-none _ a b e) (λ r lt. Above-none r a b e)
          (best_pair-Found (suc i) s (b ∷ rest)))
    | inr (q, e) ↦ Found-along i s a b rest (some q) e (elim (Bool-cases (ltb q s.rank)) [
      | inl h ↦ Found-test i q s a b rest true h (
          Found-take i q s a b rest _ e (ltb→lt _ _ h)
            (best_pair-Found (suc i) (found_at q i) (b ∷ rest)))
      | inr h ↦ Found-test i q s a b rest false h (
          Found-keep i s a b rest _ (AtLeast-some _ q a b e (ground arith))
            (λ r lt. Above-some r q a b e (ground arith)) (best_pair-Found (suc i) s (b ∷ rest)))
    ])
  ]
