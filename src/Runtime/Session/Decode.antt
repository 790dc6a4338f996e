-- ===== src/Runtime/Session/Decode.antt =====
-- `decode`, `decode_argmax` and `reset` of `IreeSession`, and the attention bias of
-- crates/iree-runtime/src/lib.rs.
use dyninfer.Prelude.{
  ℕ, zero, suc, true, false, not, Option, none, some, List, [], ◌∷◌, ◌++◌, err, max, ltb,
  if◌then◌else◌,
}
use dyninfer.Prelude.Int.{ℤ}
use dyninfer.Runtime.Floats.{Floats, argmax}
use dyninfer.Runtime.Context.{Context, position_exceeded, invalid_token, panicked}
use dyninfer.Runtime.Session.{max_seq, paged_geometry}
use dyninfer.Runtime.Session.Actions.{Action, ◌>>=◌, ◌>>◌, pure, gets, modify, require, call}
use dyninfer.Runtime.Session.Prefill.{
  require_batch, require_vocabulary, ensure_pages, is_negative, as_token,
}

module _ {F : Type 0} (floats : Floats F) where
  -- entries `j`, `j + 1`, ... of the bias, `n` in all
  unfoldable pub bias_from : ℕ → ℕ → ℕ → List F
  bias_from pos j zero = []
  bias_from pos j (suc n) =
      let rest = bias_from pos (suc j) n in
      (if ltb pos j then floats.masked else floats.zero) ∷ rest

  unfoldable pub fill_causal_attn_bias : ℕ → ℕ → List F
  unfolding bias_from
  fill_causal_attn_bias pos max_kv = bias_from pos 0 (max max_kv 1)

module _ {S F : Type 0} where
  unfoldable pub require_position : Action S F (Unit {0})
  unfolding require max_seq
  require_position =
      require (λ s. ltb s.position (max_seq s)) (λ s. position_exceeded s.position (max_seq s))

  -- `history.push(token)` and `position += 1`
  unfoldable pub advance : ℕ → Action S F (Unit {0})
  unfolding modify
  advance token =
      modify (λ s. record s { history = s.history ++ token ∷ []; position = suc s.position })

  unfoldable pub want_logits : Option (List F) × ℤ → Action S F (List F)
  unfolding pure
  want_logits (none, token) = λ s. (s, err (panicked "want_logits"))
  want_logits (some logits, token) = pure logits

module _ {S F : Type 0} (ctx : Context S F) (floats : Floats F) where
  unfoldable pub decode_values : ℕ → Option (ℕ × ℕ) → Action S F (List F)
  unfolding gets call modify ensure_pages want_logits fill_causal_attn_bias
  decode_values token none = do
    modify (λ s. record s {
      attn_bias = fill_causal_attn_bias floats s.position (max s.kv.max_sequence_length 1);
    })
    (position, bias) ← gets (λ s. (s.position, s.attn_bias))
    call (ctx.invoke_decode token position bias)
  decode_values token (some (page, size)) = do
    ensure_pages ctx page
    position ← gets (λ s. s.position)
    out ← call (ctx.invoke_paged_chunk_ex (token ∷ []) 0 position true)
    want_logits out

  unfoldable pub decode : ℕ → Action S F (List F)
  unfolding require_batch require_position gets paged_geometry decode_values require_vocabulary
      advance pure
  decode token = do
    require_batch
    require_position
    geometry ← gets paged_geometry
    values ← decode_values token geometry
    require_vocabulary values
    advance token
    pure values

  unfoldable pub decode_argmax_paged : ℕ → ℕ → Action S F ℕ
  unfolding require_batch require_position gets call ensure_pages require advance pure
  decode_argmax_paged token page = do
    require_batch
    require_position
    ensure_pages ctx page
    position ← gets (λ s. s.position)
    (logits, next) ← call (ctx.invoke_paged_chunk_ex (token ∷ []) 0 position false)
    require (λ s. not (is_negative next)) (λ s. invalid_token next)
    advance token
    pure (as_token next)

  unfoldable pub decode_argmax_at : ℕ → Option (ℕ × ℕ) → Action S F ℕ
  unfolding decode pure argmax decode_argmax_paged
  decode_argmax_at token none = decode token >>= λ values. pure (argmax floats values)
  decode_argmax_at token (some (page, size)) = decode_argmax_paged token page

  unfoldable pub decode_argmax : ℕ → Action S F ℕ
  unfolding gets paged_geometry decode_argmax_at
  decode_argmax token = gets paged_geometry >>= decode_argmax_at token

module _ {S F : Type 0} (ctx : Context S F) where
  unfoldable pub reset_cache : Option (ℕ × ℕ) → Action S F (Unit {0})
  unfolding pure call
  reset_cache none = pure tt
  reset_cache (some geometry) = call ctx.reset_paged_kv

  unfoldable pub reset : Action S F (Unit {0})
  unfolding gets paged_geometry reset_cache modify
  reset = do
    geometry ← gets paged_geometry
    reset_cache geometry
    modify (λ s. record s { position = 0; history = [] })
