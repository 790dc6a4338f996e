-- ===== src/Runtime/Session/Prefill.antt =====
-- `prefill` and `prefill_argmax` of `IreeSession`. A warning on the size of the cache is not modelled:
-- it only prints.
use dyninfer.Prelude.{
  ℕ, zero, suc, ◌+◌, ◌-◌, ◌*◌, ◌/◌, ◌%◌, ◌^◌, Bool, true, false, not, ◌||◌, Option, none, some,
  List, [], ◌∷◌, err, max, length, take, drop, is_empty, leb, ◌==◌, if◌then◌else◌,
}
use dyninfer.Prelude.Int.{ℤ, pos, negsuc}
use dyninfer.Runtime.Floats.{Floats, argmax}
use dyninfer.Runtime.Context.{
  Context, RuntimeError, unsupported_batch, empty_prompt, window_exceeded, limit_exceeded,
  logits_mismatch, invalid_token, panicked,
}
use dyninfer.Runtime.Session.{max_seq, window_from_tokens, paged_geometry}
use dyninfer.Runtime.Session.Actions.{Action, ◌>>=◌, ◌>>◌, pure, gets, modify, require, call}

-- `chunks(k)`: pieces of `k` tokens, and a last one that may be shorter. `fuel` is the number of tokens.
unfoldable pub chunks_of : ℕ → ℕ → List ℕ → List (List ℕ)
chunks_of k fuel [] = []
chunks_of k zero (t ∷ ts) = []
chunks_of k (suc fuel) (t ∷ ts) = take k (t ∷ ts) ∷ chunks_of k fuel (drop k (t ∷ ts))

abbrev pub is_some {ℓ} : {A : Type ℓ} → Option A → Bool
is_some none = false
is_some (some a) = true

abbrev pub is_negative : ℤ → Bool
is_negative (pos n) = false
is_negative (negsuc n) = true

-- `token as TokenId`
abbrev pub as_token : ℤ → ℕ
as_token (pos n) = n % 2 ^ 32
as_token (negsuc n) = (2 ^ 32 - suc n % 2 ^ 32) % 2 ^ 32

module _ {S F : Type 0} where
  unfoldable pub panic_if : Bool → RuntimeError → Action S F (Unit {0})
  unfolding require
  panic_if b e = require (λ s. not b) (λ s. e)

  unfoldable pub require_batch : Action S F (Unit {0})
  unfolding require
  require_batch =
      require (λ s. s.config.batch_size == 1) (λ s. unsupported_batch s.config.batch_size)

  unfoldable pub require_limit : List ℕ → Action S F (Unit {0})
  unfolding require max_seq
  require_limit tokens =
      require (λ s. leb (length tokens) (max_seq s))
        (λ s. limit_exceeded (length tokens) (max_seq s))

  unfoldable pub require_nonempty : List ℕ → Action S F (Unit {0})
  unfolding require
  require_nonempty tokens = require (λ s. not (is_empty tokens)) (λ s. empty_prompt)

  -- `history.clear()` and `extend_from_slice(tokens)`
  unfoldable pub remember : List ℕ → Action S F (Unit {0})
  unfolding modify
  remember tokens = modify (λ s. record s { history = tokens })

  unfoldable pub set_position : ℕ → Action S F (Unit {0})
  unfolding modify
  set_position n = modify (λ s. record s { position = n })

  unfoldable pub require_vocabulary : List F → Action S F (Unit {0})
  unfolding require
  require_vocabulary values =
      require (λ s. length values == s.metadata.vocabulary_size)
        (λ s. logits_mismatch (length values) s.metadata.vocabulary_size)

  unfoldable pub expect_logits : Option (List F) → Action S F (List F)
  unfolding pure
  expect_logits none = λ s. (s, err (panicked "final prefill chunk returns logits"))
  expect_logits (some logits) = pure logits

module _ {S F : Type 0} (ctx : Context S F) where
  -- `max_seq().div_ceil(page_size).max(1)`, which panics on a page of no tokens
  unfoldable pub ensure_pages : ℕ → Action S F (Unit {0})
  unfolding panic_if gets call max_seq
  ensure_pages page = do
    panic_if (page == 0) (panicked "attempt to divide by zero")
    limit ← gets max_seq
    call (ctx.ensure_kv_pages (max ((limit + (page - 1)) / page) 1))

  -- one turn of the loop over the chunks
  unfoldable pub invoke_chunk : List ℕ → ℕ → Bool → Action S F (Option (List F) × ℤ)
  unfolding gets call window_from_tokens
  invoke_chunk tokens start want_logits = do
    (window, last) ← gets (λ s. window_from_tokens s tokens)
    call (ctx.invoke_paged_chunk_ex window last start want_logits)

  -- the loop of `prefill`, at chunk `i` of `total`
  unfoldable pub run_chunks : ℕ → ℕ → ℕ → List (List ℕ) → List F → Action S F (List F)
  unfolding invoke_chunk expect_logits pure
  run_chunks size total i [] logits = pure logits
  run_chunks size total i (c ∷ cs) logits = do
    let want = suc i == total
    (chunk_logits, token) ← invoke_chunk c (i * size) want
    next ← if want then expect_logits chunk_logits else pure logits
    run_chunks size total (suc i) cs next

  -- the loop of `prefill_argmax`
  unfoldable pub run_chunks_argmax : ℕ → ℕ → List (List ℕ) → ℤ → Action S F ℤ
  unfolding invoke_chunk pure
  run_chunks_argmax size i [] token = pure token
  run_chunks_argmax size i (c ∷ cs) token = do
    (chunk_logits, next) ← invoke_chunk c (i * size) false
    run_chunks_argmax size (suc i) cs next

  -- the cache is reset and grown, and the tokens are cut into chunks
  unfoldable pub paged_chunks : ℕ → ℕ → List ℕ → Action S F (List (List ℕ))
  unfolding call ensure_pages panic_if pure chunks_of
  paged_chunks page size tokens = do
    call ctx.reset_paged_kv
    ensure_pages page
    panic_if (size == 0) (panicked "chunk size must be non-zero")
    pure (chunks_of size (length tokens) tokens)

  unfoldable pub prefill_values : List ℕ → Option (ℕ × ℕ) → Action S F (List F)
  unfolding gets call window_from_tokens paged_chunks run_chunks
  prefill_values tokens none = do
    (window, last) ← gets (λ s. window_from_tokens s tokens)
    call (ctx.invoke_prefill window last)
  prefill_values tokens (some (page, size)) = do
    chunks ← paged_chunks page size tokens
    run_chunks size (length chunks) 0 chunks []

  unfoldable pub prefill : List ℕ → Action S F (List F)
  unfolding require_batch require_nonempty require require_limit remember gets prefill_values
      require_vocabulary set_position pure paged_geometry
  prefill tokens = do
    require_batch
    require_nonempty tokens
    require (λ s. is_some (paged_geometry s) || leb (length tokens) s.prefill_window)
        (λ s. window_exceeded (length tokens) s.prefill_window)
    require_limit tokens
    remember tokens
    geometry ← gets paged_geometry
    values ← prefill_values tokens geometry
    require_vocabulary values
    set_position (length tokens)
    pure values

  -- the part of `prefill_argmax` for the paged cache
  unfoldable pub prefill_argmax_paged : List ℕ → ℕ → ℕ → Action S F ℕ
  unfolding require_batch require_nonempty require require_limit remember paged_chunks
      run_chunks_argmax set_position pure
  prefill_argmax_paged tokens page size = do
    require_batch
    require_nonempty tokens
    require_limit tokens
    remember tokens
    chunks ← paged_chunks page size tokens
    token ← run_chunks_argmax size 0 chunks (negsuc 0)
    require (λ s. not (is_negative token)) (λ s. invalid_token token)
    set_position (length tokens)
    pure (as_token token)

  unfoldable pub prefill_argmax_at : Floats F → List ℕ → Option (ℕ × ℕ) → Action S F ℕ
  unfolding prefill prefill_argmax_paged pure argmax
  prefill_argmax_at floats tokens none = prefill tokens >>= λ values. pure (argmax floats values)
  prefill_argmax_at floats tokens (some (page, size)) = prefill_argmax_paged tokens page size

  unfoldable pub prefill_argmax : Floats F → List ℕ → Action S F ℕ
  unfolding gets paged_geometry prefill_argmax_at
  prefill_argmax floats tokens = gets paged_geometry >>= prefill_argmax_at floats tokens
