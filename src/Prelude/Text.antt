-- ===== src/Prelude/Text.antt =====
-- Rust's order of `str`: bytewise, which in UTF-8 is the order of the code points.
use Prim.Native.Nat.{ℕ, compare, Ordering}
use Prim.Native.Char.{code}
use Prim.Native.String.{String}
use text.Mathlib.TextEquality.{codes_equal}
use mathlib.Core.Path.{◌≡◌, refl}
use mathlib.Core.Bool.{Bool, true, false, ◌&&◌}
use mathlib.Core.Logic.{◌↔◌}
use mathlib.Core.List.{List, [], ◌∷◌}
use dyninfer.Prelude.Tests.{◌==◌}
use native.Mathlib.Omega.{arith}

-- The code points of a text, for a program that walks it.
abbrev pub codes : String → List ℕ
codes String.[] = []
codes (String.◌∷◌ c s) = code c ∷ codes s

-- `==` of two slices of numbers
abbrev pub codes_eq : List ℕ → List ℕ → Bool
codes_eq [] [] = true
codes_eq [] (d ∷ ds) = false
codes_eq (c ∷ cs) [] = false
codes_eq (c ∷ cs) (d ∷ ds) = (c == d) && codes_eq cs ds

pub codes_eq_iff : (xs ys : List ℕ) → (codes_eq xs ys ≡ true) ↔ (xs ≡ ys)
codes_eq_iff [] [] = (λ h. refl, λ h. refl)
codes_eq_iff [] (d ∷ ds) = (λ h. cc, λ h. cc)
codes_eq_iff (c ∷ cs) [] = (λ h. cc, λ h. cc)
codes_eq_iff (c ∷ cs) (d ∷ ds) =
    let r = codes_eq_iff cs ds in (λ h. ground (arith, r.0), λ h. ground (arith, r.1))

-- `a <= b`
unfoldable pub text_leq : String → String → Bool
text_leq String.[] t = true
text_leq (String.◌∷◌ c s) String.[] = false
text_leq (String.◌∷◌ c s) (String.◌∷◌ d t) =
    let rest = text_leq s t in
    elim (compare (code c) (code d)) [
      | Ordering.lt ↦ true
      | Ordering.eq ↦ rest
      | Ordering.gt ↦ false
    ]

pub text_leq_total : (a b : String) → text_leq a b ≡ false → text_leq b a ≡ true
unfolding text_leq
text_leq_total String.[] t h = cc
text_leq_total (String.◌∷◌ c s) String.[] h = refl
text_leq_total (String.◌∷◌ c s) (String.◌∷◌ d t) h = ground (arith, text_leq_total s t)

pub text_leq_trans :
    (a b c : String) → text_leq a b ≡ true → text_leq b c ≡ true → text_leq a c ≡ true
unfolding text_leq
text_leq_trans String.[] b c h k = refl
text_leq_trans (String.◌∷◌ x s) String.[] c h k = cc
text_leq_trans (String.◌∷◌ x s) (String.◌∷◌ y t) String.[] h k = cc
text_leq_trans (String.◌∷◌ x s) (String.◌∷◌ y t) (String.◌∷◌ z u) h k =
    ground (arith, text_leq_trans s t u)

pub text_leq_antisym : (a b : String) → text_leq a b ≡ true → text_leq b a ≡ true → a ≡ b
unfolding text_leq
text_leq_antisym String.[] String.[] h k = refl
text_leq_antisym String.[] (String.◌∷◌ d t) h k = cc
text_leq_antisym (String.◌∷◌ c s) String.[] h k = cc
text_leq_antisym (String.◌∷◌ c s) (String.◌∷◌ d t) h k =
    let same : compare (code c) (code d) ≡ Ordering.eq = ground arith in
    let rest : s ≡ t = text_leq_antisym s t (ground arith) (ground arith) in
    λ i. String.◌∷◌ (codes_equal c d same i) (rest i)
