-- ===== src/Runtime/Floats.antt =====
-- The floating-point numbers that the runtime touches: the language's `f32`, of which the code uses
-- four constants and the comparison `>`; and `argmax` of crates/dyninfer-runtime/src/generate.rs.
use dyninfer.Prelude.{ℕ, suc, ◌^◌, ◌%◌, Bool, List, [], ◌∷◌, if◌then◌else◌}

pub record Floats (F : Type 0) : Type 0 where
  pub zero : F
  pub masked : F
  pub neg_infinity : F
  pub gt : F → F → Bool

module _ {F : Type 0} (floats : Floats F) where
  -- the loop at index `i`, with the best index and value so far
  unfoldable pub argmax_from : ℕ → ℕ → F → List F → ℕ
  argmax_from i best_i best_v [] = best_i
  argmax_from i best_i best_v (v ∷ vs) =
      let better = argmax_from (suc i) i v vs in
      let same = argmax_from (suc i) best_i best_v vs in if floats.gt v best_v then better else same

  -- `best_i as TokenId`
  unfoldable pub argmax : List F → ℕ
  unfolding argmax_from
  argmax logits = argmax_from 0 0 floats.neg_infinity logits % 2 ^ 32
