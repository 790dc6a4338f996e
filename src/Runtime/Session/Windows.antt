-- ===== src/Runtime/Session/Windows.antt =====
-- The chunks of a prefill against a context that records its invocations: each token is fed once, in
-- order, at its own position.
use mathlib.Core.Path.{subst}
use dyninfer.Prelude.{
  Bool-cases, leb→le, ℕ, zero, suc, ◌+◌, ◌-◌, ◌*◌, ◌≤◌, ◌≡◌, ◌∙◌, refl, sym, ap, ◌⊎◌, inl, inr,
  Bool, ◌==◌, List, [], ◌∷◌, ◌++◌, min, length, take, drop, replicate, leb, length-take,
  length-drop, take-append-drop, arith,
}
use dyninfer.Runtime.Session.{window_of}
use dyninfer.Runtime.Session.Prefill.{chunks_of}

pub record Invocation : Type 0 where
  pub window : List ℕ
  pub last : ℕ
  pub start : ℕ
  pub want_logits : Bool

-- the real tokens of the window
abbrev pub tokens_in : Invocation → List ℕ
tokens_in v = take (suc v.last) v.window

-- The invocations feed exactly these tokens, the first one at position `p`.
abbrev pub Feeds : ℕ → List Invocation → List ℕ → Type 0
Feeds p [] ts = ts ≡ []
Feeds p (v ∷ vs) ts =
    (v.start ≡ p)
    × (tokens_in v ++ drop (length (tokens_in v)) ts ≡ ts)
    × Feeds (p + length (tokens_in v)) vs (drop (length (tokens_in v)) ts)

take-length-append : (xs ys : List ℕ) → take (length xs) (xs ++ ys) ≡ xs
take-length-append [] ys = refl
take-length-append (x ∷ xs) ys = ap (λ t. x ∷ t) (take-length-append xs ys)

take_all : (n : ℕ) (xs : List ℕ) → length xs ≤ n → take n xs ≡ xs
take_all zero [] h = refl
take_all zero (x ∷ xs) h = absurd (omega arith)
take_all (suc n) [] h = refl
take_all (suc n) (x ∷ xs) h = ap (λ t. x ∷ t) (take_all n xs (omega arith))

drop_length-take : (n : ℕ) (xs : List ℕ) → drop (length (take n xs)) xs ≡ drop n xs
drop_length-take zero xs = refl
drop_length-take (suc n) [] = refl
drop_length-take (suc n) (x ∷ xs) = drop_length-take n xs

drop_all : (n : ℕ) (xs : List ℕ) → length xs ≤ n → drop n xs ≡ []
drop_all zero [] h = refl
drop_all zero (x ∷ xs) h = absurd (omega arith)
drop_all (suc n) [] h = refl
drop_all (suc n) (x ∷ xs) h = drop_all n xs (omega arith)

-- A window holds its chunk where the chunk fits.
pub window_tokens :
    (w pad : ℕ) (c : List ℕ)
    → 1 ≤ length c
    → length c ≤ w
    → take (suc ((window_of w pad c).1)) ((window_of w pad c).0) ≡ c
unfolding window_of
window_tokens w pad c some_token fits =
    let n : min (length c) w ≡ length c = omega arith in
    let m : suc (length c - 1) ≡ length c = omega arith in
    rw n (
      rw (take_all (length c) c (omega arith))
        (rw m (take-length-append c (replicate (w - length c) pad))))

-- what one turn of the loop passes to the context
abbrev pub invocation_of : ℕ → ℕ → ℕ → ℕ → ℕ → List ℕ → Invocation
invocation_of w pad size total i c = record {
  window = (window_of w pad c).0;
  last = (window_of w pad c).1;
  start = i * size;
  want_logits = suc i == total;
}

-- what the loop over the chunks passes to the context
unfoldable pub plan : ℕ → ℕ → ℕ → ℕ → ℕ → List (List ℕ) → List Invocation
plan w pad size total i [] = []
plan w pad size total i (c ∷ cs) =
    invocation_of w pad size total i c ∷ plan w pad size total (suc i) cs

-- an invocation whose real tokens are the first `n`
Feeds-cons :
    (n p : ℕ) (v : Invocation) (vs : List Invocation) (ts : List ℕ)
    → tokens_in v ≡ take n ts
    → v.start ≡ p
    → Feeds (p + length (take n ts)) vs (drop n ts)
    → Feeds p (v ∷ vs) ts
Feeds-cons n p v vs ts e q h =
    let rest = subst (λ r. Feeds (p + length (take n ts)) vs r) (sym (drop_length-take n ts)) h in
    let whole = ap (λ r. take n ts ++ r) (drop_length-take n ts) ∙ take-append-drop n ts in
    subst
      (λ c.
        (v.start ≡ p)
        × (c ++ drop (length c) ts ≡ ts)
        × Feeds (p + length c) vs (drop (length c) ts))
      (sym e) (q, whole, rest)

module _ (w pad size total : ℕ) (pos_size : 1 ≤ size) (fits : size ≤ w) where
  -- after a chunk there are no tokens left, or the next one starts at the next multiple
  pub next_start :
      (ts : List ℕ) (i p n : ℕ)
      → n ≡ min size (length ts)
      → p ≡ i * size
      → (drop size ts ≡ []) ⊎ (p + n ≡ suc i * size)
  next_start ts i p n h e = elim (Bool-cases (leb size (length ts))) [
    | inl b ↦ let le = leb→le _ _ b in inr (grind arith)
    | inr b ↦ inl (drop_all size ts (ground arith))
  ]

  pub plan-Feeds :
      (fuel i p : ℕ) (ts : List ℕ)
      → length ts ≤ fuel
      → (ts ≡ []) ⊎ (p ≡ i * size)
      → Feeds p (plan w pad size total i (chunks_of size fuel ts)) ts
  unfolding plan chunks_of
  plan-Feeds fuel i p [] h e = refl
  plan-Feeds zero i p (t ∷ ts) h e = absurd (omega arith)
  plan-Feeds (suc fuel) i p (t ∷ ts) h (inl e) = absurd (cc)
  plan-Feeds (suc fuel) i p (t ∷ ts) h (inr e) =
      let c = take size (t ∷ ts) in
      let n : length c ≡ min size (length (t ∷ ts)) = length-take size (t ∷ ts) in
      let d = length-drop size (t ∷ ts) in
      Feeds-cons size p (invocation_of w pad size total i c) _ (t ∷ ts)
        (window_tokens w pad c (omega arith) (omega arith)) (sym e)
        (plan-Feeds fuel (suc i) (p + length c) (drop size (t ∷ ts)) (omega arith)
          (next_start (t ∷ ts) i p (length c) n e))
