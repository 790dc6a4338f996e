-- ===== src/Runtime/Generate.antt =====
-- The greedy loop of `generate_greedy` in crates/dyninfer-runtime/src/generate.rs, without a repetition
-- penalty: the branch in which the session returns the best token and no logits. The session is the trait
-- `ModelSession`, an argument with a state of its own.
pub mod Greedy
mod Tests
use dyninfer.Prelude.{
  ℕ, zero, suc, Bool, true, false, not, Option, none, some, List, [], ◌∷◌, ◌++◌, length, any,
  Result, ok, err, ◌==◌, is_empty, if◌then◌else◌,
}

-- the two methods of `ModelSession` that the branch calls
pub record ModelSession (S E : Type 0) : Type 0 where
  pub prefill_argmax : List ℕ → S → S × Result E ℕ
  pub decode_argmax : ℕ → S → S × Result E ℕ

-- `stop.contains(&id)`
unfoldable pub is_stop : List ℕ → ℕ → Bool
is_stop stop id = any (λ t. t == id) stop

abbrev pub push_new : List ℕ → Option ℕ → List ℕ
push_new stop none = stop
push_new stop (some id) = if any (λ t. t == id) stop then stop else stop ++ id ∷ []

abbrev pub first_of : Option ℕ → Option ℕ → Option ℕ
first_of none b = b
first_of (some a) b = some a

-- the stop tokens: the configured ones, the end of the text, and `<|endoftext|>`
unfoldable pub stop_tokens : List ℕ → Option ℕ → Option ℕ → Option ℕ → List ℕ
stop_tokens configured eos_token_id eos_id endoftext =
    push_new (push_new configured (first_of eos_token_id eos_id)) endoftext

-- the tokens that the loop has produced
pub record Generated : Type 0 where
  pub generated : List ℕ
  pub ids : List ℕ

abbrev pub push_token : Generated → ℕ → Generated
push_token g next = record { generated = g.generated ++ next ∷ []; ids = g.ids ++ next ∷ [] }

module _ {S E : Type 0} where
  unfoldable pub after : {A B : Type 0} → (A → S → S × Result E B) → S × Result E A → S × Result E B
  after f (s, ok a) = f a s
  after f (s, err e) = (s, err e)

  -- `for _ in 0..n`
  unfoldable pub decode_loop :
      ModelSession S E → List ℕ → ℕ → Generated → ℕ → S → S × Result E Generated
  unfolding after is_stop
  decode_loop session stop zero g next s = (s, ok g)
  decode_loop session stop (suc n) g next s =
      let more =
        after (decode_loop session stop n (push_token g next)) (session.decode_argmax next s) in
      if is_stop stop next then (s, ok g) else more

  unfoldable pub generate : ModelSession S E → List ℕ → ℕ → E → List ℕ → S → S × Result E Generated
  unfolding decode_loop
  generate session stop max_new_tokens no_tokens ids s =
      if is_empty ids
      then (s, err no_tokens)
      else after (decode_loop session stop max_new_tokens (record { generated = []; ids = ids }))
          (session.prefill_argmax ids s)
