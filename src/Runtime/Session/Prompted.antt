-- ===== src/Runtime/Session/Prompted.antt =====
-- A prefill of crates/dyninfer-runtime/src/session.rs that succeeds leaves the prompt in the cells.
use dyninfer.Prelude.{
  ℕ, ◌≤◌, ◌≡◌, ◌∙◌, refl, sym, ap, inr, true, ◌||◌, Option, none, some, List, [], length, leb,
  leb→le, arith,
}
use dyninfer.Prelude.Int.{negsuc}
use dyninfer.Runtime.Floats.{Floats}
use dyninfer.Runtime.Context.{Context}
use dyninfer.Runtime.Session.{IreeSession, paged_geometry, window_from_tokens}
use dyninfer.Runtime.Session.Actions.{
  Action, Triple, bind-Triple, pure-Triple, modify-Triple, require-step, gets, ◌>>=◌, continue,
}
use dyninfer.Runtime.Session.Setup.{geometry-setup, Setup, setup}
use dyninfer.Runtime.Session.Cells.{Cells, mirror, Held}
use dyninfer.Runtime.Session.PrefillOutcome.{nonempty_le}
use dyninfer.Runtime.Session.Fed.{
  ChunksFit, Any, holds_nothing, test-step, call_window-Held, run_chunks-Held,
  run_chunks_argmax-Held, paged_chunks-Chunks,
}
use dyninfer.Runtime.Session.Prefill.{
  run_chunks_argmax, run_chunks, prefill, prefill_argmax, prefill_argmax_at, prefill_argmax_paged,
  prefill_values, is_some, require_batch, require_nonempty, require_limit, require_vocabulary,
  remember, set_position,
}

module _ {S F A : Type 0} where
  -- a fact beside the state becomes a hypothesis
  pub fact-Triple :
      {Fact : Type 0} {m : Action S F A} {P : IreeSession S F → Type 0}
      {Q : A → IreeSession S F → Type 0} {R : IreeSession S F → Type 0}
      → (Fact → Triple P m Q R)
      → Triple (λ s. P s × Fact) m Q R
  fact-Triple h = record { run = λ s p. (h p.1).run s p.0 }

module _ {S F : Type 0} (ctx : Context S F) (start : IreeSession (S × Cells) F)
    (fit : ChunksFit start) where
  abbrev Set : IreeSession (S × Cells) F → Type 0
  Set s = setup s ≡ setup start

  -- the tokens fit into the window where the cache is not paged
  abbrev Fits : List ℕ → Type 0
  Fits tokens = paged_geometry start ≡ none → length tokens ≤ start.prefill_window

  prefill_values-Held :
      (tokens : List ℕ) (geometry : Option (ℕ × ℕ))
      → 1 ≤ length tokens
      → Fits tokens
      → geometry ≡ paged_geometry start
      → Triple Set
          (prefill_values (mirror ctx) tokens geometry)
          (λ _. Held Set tokens)
          (Any ctx start)
  unfolding prefill_values gets window_from_tokens ◌>>=◌ continue
  prefill_values-Held tokens none some_token fits e = record {
    run = λ s p.
        call_window-Held ctx start ctx.invoke_prefill [] tokens 0 some_token (fits (sym e)) refl s
          (holds_nothing ctx start s p);
  }
  prefill_values-Held tokens (some (page, size)) some_token fits e =
      bind-Triple {f = λ chunks. run_chunks (mirror ctx) size (length chunks) 0 chunks []}
        (paged_chunks-Chunks ctx start page size tokens)
        (λ chunks. record {
          run = λ s p. rw p.2 (
              (run_chunks-Held ctx start size _ p.1 (fit page size (sym e)) (length tokens) 0 []
                  tokens [] (omega arith) (inr (omega arith))).run
                s (holds_nothing ctx start s p.0));
        })

  window-Fits :
      (tokens : List ℕ) (s : IreeSession (S × Cells) F)
      → Set s
      → (is_some (paged_geometry s) || leb (length tokens) s.prefill_window) ≡ true
      → Fits tokens
  window-Fits tokens s p e none_here =
      let q = geometry-setup s start p ∙ none_here in
      let w = ap (λ (t : Setup). t.3) p in
      let h : leb (length tokens) s.prefill_window ≡ true = sym (rw q refl) ∙ e in
      let k = leb→le _ _ h in omega (arith, w, k)

  geometry_step :
      Triple Set (gets paged_geometry) (λ g s. Set s × (g ≡ paged_geometry start)) (Any ctx start)
  unfolding gets
  geometry_step = record { run = λ s p. (p, geometry-setup s start p) }

  -- A prefill of tokens over any context, with chunks that fit into the window: on success the first
  -- positions of the cache hold these tokens.
  pub prefill-Held :
      (tokens : List ℕ)
      → Triple Set (prefill (mirror ctx) tokens) (λ values. Held Set tokens) (Any ctx start)
  unfolding prefill require_batch require_nonempty require_limit remember require_vocabulary
      set_position
  prefill-Held tokens = bind-Triple (test-step ctx start _ _) (λ _.
      bind-Triple
        (require-step _ _ {Q = λ s. Set s × (1 ≤ length tokens)}
          (λ s p e. (p, nonempty_le tokens e)) (λ s p. tt))
        (λ _.
          bind-Triple
            (require-step _ _ {Q = λ s. Set s × ((1 ≤ length tokens) × Fits tokens)}
              (λ s p e. (p.0, (p.1, window-Fits tokens s p.0 e))) (λ s p. tt))
            (λ _. fact-Triple (λ facts. bind-Triple (test-step ctx start _ _) (λ _.
              bind-Triple (modify-Triple _ {P = Set} {Q = Set} (λ s p. p)) (λ _.
                bind-Triple (geometry_step) (λ geometry. fact-Triple (λ same.
                  bind-Triple (prefill_values-Held tokens geometry facts.0 facts.1 same) (λ values.
                    bind-Triple (test-step ctx start _ _) (λ _.
                      bind-Triple
                        (modify-Triple _ {P = Held Set tokens} {Q = Held Set tokens} (λ s p. p))
                        (λ _. pure-Triple values _ (λ s p. p))))))))))))

  prefill_argmax_paged-Held :
      (tokens : List ℕ) (page size : ℕ)
      → paged_geometry start ≡ some (page, size)
      → Triple Set
          (prefill_argmax_paged (mirror ctx) tokens page size)
          (λ token. Held Set tokens)
          (Any ctx start)
  unfolding prefill_argmax_paged require_batch require_nonempty require_limit remember set_position
  prefill_argmax_paged-Held tokens page size e = bind-Triple (test-step ctx start _ _) (λ _.
      bind-Triple (test-step ctx start _ _) (λ _. bind-Triple (test-step ctx start _ _) (λ _.
        bind-Triple (modify-Triple _ {P = Set} {Q = Set} (λ s p. p)) (λ _.
          bind-Triple (paged_chunks-Chunks ctx start page size tokens) (λ chunks.
            bind-Triple {m = run_chunks_argmax (mirror ctx) size 0 chunks (negsuc 0)}
              {Q = λ token. Held Set tokens}
              (record {
                run = λ s p. rw p.2 (
                    (run_chunks_argmax-Held ctx start size 0 p.1 (fit page size e) (length tokens) 0
                        [] tokens (negsuc 0) (omega arith) (inr (omega arith))).run
                      s (holds_nothing ctx start s p.0));
              })
              (λ token. bind-Triple (test-step ctx start _ _) (λ _.
                bind-Triple (modify-Triple _ {P = Held Set tokens} {Q = Held Set tokens} (λ s p. p))
                  (λ _. pure-Triple _ _ (λ s p. p)))))))))

  prefill_argmax_at-Held :
      (floats : Floats F) (tokens : List ℕ) (geometry : Option (ℕ × ℕ))
      → geometry ≡ paged_geometry start
      → Triple Set
          (prefill_argmax_at (mirror ctx) floats tokens geometry)
          (λ token. Held Set tokens)
          (Any ctx start)
  unfolding prefill_argmax_at
  prefill_argmax_at-Held floats tokens none e =
      bind-Triple (prefill-Held tokens) (λ values. pure-Triple _ _ (λ s p. p))
  prefill_argmax_at-Held floats tokens (some (page, size)) e =
      prefill_argmax_paged-Held tokens page size (sym e)

  pub prefill_argmax-Held :
      (floats : Floats F) (tokens : List ℕ)
      → Triple Set
          (prefill_argmax (mirror ctx) floats tokens)
          (λ token. Held Set tokens)
          (Any ctx start)
  unfolding prefill_argmax
  prefill_argmax-Held floats tokens =
      bind-Triple geometry_step
        (λ geometry. fact-Triple (prefill_argmax_at-Held floats tokens geometry))
