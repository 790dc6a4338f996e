-- ===== src/Runtime/Session/Frames.antt =====
-- The parts of `prefill` and `decode` that change only the context and the attention bias.
use dyninfer.Prelude.{
  ℕ, suc, ◌*◌, ◌==◌, Bool, true, false, Option, none, some, List, [], ◌∷◌, length, not,
  if◌then◌else◌,
}
use dyninfer.Prelude.Int.{ℤ}
use dyninfer.Runtime.Floats.{Floats}
use dyninfer.Runtime.Context.{Context, RuntimeError, panicked}
use dyninfer.Runtime.Session.Actions.{
  Action, Keeps, bind-Keeps, pure-Keeps, fail-Keeps, require-Keeps, gets-Keeps, call-Keeps,
  modify-Triple,
}
use dyninfer.Runtime.Session.Prefill.{
  panic_if, ensure_pages, invoke_chunk, expect_logits, run_chunks, run_chunks_argmax, paged_chunks,
  prefill_values,
}
use dyninfer.Runtime.Session.Decode.{want_logits, decode_values}

module _ {S F : Type 0} where
  panic_if-Keeps : (b : Bool) (e : RuntimeError) → Keeps {S = S} {F = F} (panic_if b e)
  unfolding panic_if
  panic_if-Keeps b e = require-Keeps (λ s. not b) (λ s. e)

  expect_logits-Keeps : (o : Option (List F)) → Keeps {S = S} {F = F} (expect_logits o)
  unfolding expect_logits
  expect_logits-Keeps none = fail-Keeps (panicked "final prefill chunk returns logits")
  expect_logits-Keeps (some logits) = pure-Keeps logits

  want_logits-Keeps : (out : Option (List F) × ℤ) → Keeps {S = S} {F = F} (want_logits out)
  unfolding want_logits
  want_logits-Keeps (none, token) = fail-Keeps (panicked "want_logits")
  want_logits-Keeps (some logits, token) = pure-Keeps logits

  if-Keeps :
      {A : Type 0} (b : Bool) {m k : Action S F A} → Keeps m → Keeps k → Keeps (if b then m else k)
  if-Keeps true h k = h
  if-Keeps false h k = k

module _ {S F : Type 0} (ctx : Context S F) where
  pub ensure_pages-Keeps : (page : ℕ) → Keeps (ensure_pages ctx page)
  unfolding ensure_pages
  ensure_pages-Keeps page =
      bind-Keeps (panic_if-Keeps _ _) (λ _. bind-Keeps (gets-Keeps _) (λ limit. call-Keeps _))

  invoke_chunk-Keeps :
      (c : List ℕ) (start : ℕ) (want : Bool) → Keeps (invoke_chunk ctx c start want)
  unfolding invoke_chunk
  invoke_chunk-Keeps c start want = bind-Keeps (gets-Keeps _) (λ w. call-Keeps _)

  pub run_chunks-Keeps :
      (size total i : ℕ) (cs : List (List ℕ)) (logits : List F)
      → Keeps (run_chunks ctx size total i cs logits)
  unfolding run_chunks
  run_chunks-Keeps size total i [] logits = pure-Keeps logits
  run_chunks-Keeps size total i (c ∷ cs) logits =
      bind-Keeps (invoke_chunk-Keeps c (i * size) (suc i == total)) (λ out.
        bind-Keeps (if-Keeps (suc i == total) (expect_logits-Keeps out.0) (pure-Keeps logits))
          (λ next. run_chunks-Keeps size total (suc i) cs next))

  pub run_chunks_argmax-Keeps :
      (size i : ℕ) (cs : List (List ℕ)) (token : ℤ) → Keeps (run_chunks_argmax ctx size i cs token)
  unfolding run_chunks_argmax
  run_chunks_argmax-Keeps size i [] token = pure-Keeps token
  run_chunks_argmax-Keeps size i (c ∷ cs) token =
      bind-Keeps (invoke_chunk-Keeps c (i * size) false)
        (λ out. run_chunks_argmax-Keeps size (suc i) cs out.1)

  pub paged_chunks-Keeps :
      (page size : ℕ) (tokens : List ℕ) → Keeps (paged_chunks ctx page size tokens)
  unfolding paged_chunks
  paged_chunks-Keeps page size tokens = bind-Keeps (call-Keeps _) (λ _.
      bind-Keeps (ensure_pages-Keeps page)
        (λ _. bind-Keeps (panic_if-Keeps _ _) (λ _. pure-Keeps _)))

  pub prefill_values-Keeps :
      (tokens : List ℕ) (geometry : Option (ℕ × ℕ)) → Keeps (prefill_values ctx tokens geometry)
  unfolding prefill_values
  prefill_values-Keeps tokens none = bind-Keeps (gets-Keeps _) (λ w. call-Keeps _)
  prefill_values-Keeps tokens (some (page, size)) =
      bind-Keeps (paged_chunks-Keeps page size tokens)
        (λ chunks. run_chunks-Keeps size (length chunks) 0 chunks [])

  pub decode_values-Keeps :
      (floats : Floats F) (token : ℕ) (geometry : Option (ℕ × ℕ))
      → Keeps (decode_values ctx floats token geometry)
  unfolding decode_values
  decode_values-Keeps floats token none =
      bind-Keeps (λ P frame. modify-Triple _ (λ s p. frame s s.context _ p))
        (λ _. bind-Keeps (gets-Keeps _) (λ out. call-Keeps _))
  decode_values-Keeps floats token (some (page, size)) =
      bind-Keeps (ensure_pages-Keeps page)
        (λ _. bind-Keeps (gets-Keeps _) (λ position. bind-Keeps (call-Keeps _) want_logits-Keeps))
