-- ===== src/Runtime/Generate/Tests.antt =====
-- A run of the greedy loop of crates/dyninfer-runtime/src/generate.rs.
use dyninfer.Prelude.{ℕ, suc, ◌≡◌, refl, none, some, [], ◌∷◌, length, ok}
use dyninfer.Runtime.Generate.{ModelSession, stop_tokens, Generated, generate}
use dyninfer.Runtime.Generate.Greedy.{Greedy, generate-Greedy}

-- a session that counts up, from the length of the prompt, and whose state is the number of calls
abbrev counter : ModelSession ℕ ℕ
counter = record {
  prefill_argmax = λ ids s. (suc s, ok (length ids));
  decode_argmax = λ t s. (suc s, ok (suc t));
}

abbrev output : Generated
output = record { generated = 2 ∷ 3 ∷ 4 ∷ []; ids = 8 ∷ 9 ∷ 2 ∷ 3 ∷ 4 ∷ [] }

stops_at_five : generate counter (5 ∷ []) 10 0 (8 ∷ 9 ∷ []) 0 ≡ (4, ok output)
unfolding generate
stops_at_five = refl

configured_first : stop_tokens (7 ∷ []) none (some 5) (some 7) ≡ 7 ∷ 5 ∷ []
unfolding stop_tokens
configured_first = refl

generate-Greedy_example : Greedy counter (5 ∷ []) 10 (8 ∷ 9 ∷ []) 0 output 4
generate-Greedy_example =
    generate-Greedy counter (5 ∷ []) 10 0 (8 ∷ 9 ∷ []) 0 output 4 stops_at_five
