-- ===== src/Tokenizer/Merge.antt =====
-- `bpe_merge` of crates/dyninfer-runtime/src/tokenizer_bpe.rs as a sequence of merges, each of the first
-- pair that has the lowest rank.
use mathlib.Core.Path.{subst}
use mathlib.Core.List.{flatten, append_assoc}
use dyninfer.Prelude.{
  ℕ, zero, suc, ◌≤◌, ◌<◌, ◌≡◌, ◌∙◌, refl, sym, ap, inl, inr, Bool, true, false, Option, none, some,
  List, [], ◌∷◌, ◌++◌, length, leb, leb→le, u32_max, if◌then◌else◌, arith,
}
use dyninfer.Tokenizer.Bpe.{Text, MergeRank, Best, best_pair, merge_at, merge_loop, bpe_merge}
use dyninfer.Tokenizer.Picks.{NoneBelow, Pick, pick_here, pick_later, best_pair-Found}

module _ (m : List MergeRank) where
  -- The list after any number of such merges, each of a rank below `r`.
  pub data Merges (r : ℕ) (start : List Text) : List Text → Type 0 where
    unmerged : Merges r start start
    merged :
        {j q : ℕ} {now next : List Text}
        → Merges r start now
        → q < r
        → Pick m j q now next
        → Merges r start next

  Pick-merge_at : (j r : ℕ) (ps out : List Text) → Pick m j r ps out → merge_at j ps ≡ out
  unfolding merge_at
  Pick-merge_at _ _ _ _ (pick_here e n) = refl
  Pick-merge_at _ _ _ _ (pick_later {a = a} above p) = ap (λ l. a ∷ l) (Pick-merge_at _ _ _ _ p)

  Pick-shorter : (j r : ℕ) (ps out : List Text) → Pick m j r ps out → length ps ≡ suc (length out)
  Pick-shorter _ _ _ _ (pick_here e n) = refl
  Pick-shorter _ _ _ _ (pick_later above p) = ap suc (Pick-shorter _ _ _ _ p)

  pub Pick-flatten : (j r : ℕ) (ps out : List Text) → Pick m j r ps out → flatten out ≡ flatten ps
  unfolding flatten
  Pick-flatten _ _ _ _ (pick_here {a = a} {b = b} {rest = rest} e n) =
      append_assoc a b (flatten rest)
  Pick-flatten _ _ _ _ (pick_later {a = a} above p) = ap (λ l. a ++ l) (Pick-flatten _ _ _ _ p)

  NoneBelow-short : (r : ℕ) (ps : List Text) → length ps ≤ 1 → NoneBelow m r ps
  NoneBelow-short r [] h = tt
  NoneBelow-short r (a ∷ []) h = tt
  NoneBelow-short r (a ∷ b ∷ rest) h = absurd (omega arith)

  Merges-flatten : (r : ℕ) (ps qs : List Text) → Merges r ps qs → flatten qs ≡ flatten ps
  Merges-flatten r ps _ unmerged = refl
  Merges-flatten r ps _ (merged before lt p) = Pick-flatten _ _ _ _ p ∙ Merges-flatten r ps _ before

  -- The merges end at `out`, where no pair of neighbours is left to merge, and keep the text.
  pub record Merged (ps out : List Text) : Type 0 where
    pub by_merges : Merges u32_max ps out
    pub no_more : NoneBelow m u32_max out
    pub same_text : flatten out ≡ flatten ps

  abbrev none_yet : Best
  none_yet = record { rank = u32_max; at = none }

  Loop-along :
      (fuel : ℕ) (start ps : List Text) (o : Option ℕ) (t : Best)
      → best_pair m 0 none_yet ps ≡ t
      → t.at ≡ o
      → Merged start (elim o [ none ↦ ps | some i ↦ merge_loop fuel m (merge_at i ps) ])
      → Merged start (merge_loop (suc fuel) m ps)
  unfolding merge_loop
  Loop-along fuel start ps o t e e' f =
      subst (λ u. Merged start (elim u [ none ↦ ps | some i ↦ merge_loop fuel m (merge_at i ps) ]))
        (sym (ap (λ b. b.at) e ∙ e')) f

  merge_loop-Merged :
      (fuel : ℕ) (start ps : List Text)
      → length ps ≤ suc fuel
      → Merges u32_max start ps
      → Merged start (merge_loop fuel m ps)
  unfolding merge_loop
  merge_loop-Merged zero start ps h before = record {
    by_merges = before;
    no_more = NoneBelow-short _ ps h;
    same_text = Merges-flatten _ _ _ before;
  }
  merge_loop-Merged (suc fuel) start ps h before = elim (best_pair-Found m 0 none_yet ps) [
    | inl (none_below, e) ↦ Loop-along fuel start ps none _ e refl (record {
      by_merges = before;
      no_more = none_below;
      same_text = Merges-flatten _ _ _ before;
    })
    | inr (j, r, out, lt, pick, e) ↦ Loop-along fuel start ps (some j) _ e (ap some (omega arith)) (
        subst (λ l. Merged start (merge_loop fuel m l)) (sym (Pick-merge_at j r ps out pick))
          (merge_loop-Merged fuel start out (let n = Pick-shorter j r ps out pick in omega arith)
            (merged before lt pick)))
  ]

  if-Merged :
      (x : Bool) (ps a b : List Text)
      → (x ≡ true → Merged ps a)
      → Merged ps b
      → Merged ps (if x then a else b)
  if-Merged true ps a b h k = h refl
  if-Merged false ps a b h k = k

  -- The pieces that `bpe_merge` returns come from the given ones by merges, each of the first pair that
  -- has the lowest rank, and no pair of neighbours is left that has a rank; the pieces joined are the
  -- same text. The rank 2 ^ 32 - 1 counts as none.
  pub bpe_merge-Merged : (ps : List Text) → Merged ps (bpe_merge m ps)
  unfolding bpe_merge
  bpe_merge-Merged ps =
      if-Merged (leb (length ps) 1) ps ps (merge_loop (length ps) m ps)
        (λ h. record {
          by_merges = unmerged;
          no_more = NoneBelow-short _ ps (leb→le _ _ h);
          same_text = refl;
        })
        (merge_loop-Merged (length ps) ps ps (omega arith) unmerged)
