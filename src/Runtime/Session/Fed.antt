-- ===== src/Runtime/Session/Fed.antt =====
-- A prefill of crates/dyninfer-runtime/src/session.rs that succeeds leaves the prompt in the cache's cells.
use mathlib.Core.List.{append_assoc, append-nil}
use mathlib.Core.Path.{subst}
use dyninfer.Prelude.{
  ℕ, zero, suc, ◌*◌, ◌≤◌, ◌≡◌, ◌∙◌, refl, sym, ap, ◌⊎◌, inl, inr, Bool, true, false, ◌==◌, Option,
  none, some, List, [], ◌∷◌, ◌++◌, Result, length, length-take, length-drop, length-append, take,
  drop, take-append-drop, if◌then◌else◌, arith,
}
use dyninfer.Prelude.Int.{ℤ}
use dyninfer.Runtime.Context.{Context, RuntimeError}
use dyninfer.Runtime.Session.{IreeSession, paged_geometry, window_of, window_from_tokens}
use dyninfer.Runtime.Session.Actions.{
  Outcome, Triple, bind-Triple, pure-Triple, require, require-step, keeps-step, call-Keeps,
  weaken-Outcome, pure, gets, call, ◌>>=◌, continue,
}
use dyninfer.Runtime.Session.Frames.{ensure_pages-Keeps}
use dyninfer.Runtime.Session.Setup.{Setup, setup}
use dyninfer.Runtime.Session.Windows.{window_tokens, next_start}
use dyninfer.Runtime.Session.Cells.{Cells, mirror, Held, writing, writing-Triple}
use dyninfer.Runtime.Session.Prefill.{
  paged_chunks, run_chunks, run_chunks_argmax, invoke_chunk, expect_logits, panic_if, chunks_of,
}

-- a chunk of the paged cache is no longer than the window
abbrev pub ChunksFit : {S F : Type 0} → IreeSession S F → Type 0
ChunksFit s = (page size : ℕ) → paged_geometry s ≡ some (page, size) → size ≤ s.prefill_window

module _ {S F : Type 0} (ctx : Context S F) (start : IreeSession (S × Cells) F) where
  abbrev Set : IreeSession (S × Cells) F → Type 0
  Set s = setup s ≡ setup start

  abbrev pub Any : IreeSession (S × Cells) F → Type 0
  Any s = Unit {0}

  pub holds_nothing : (s : IreeSession (S × Cells) F) → Set s → Held Set [] s
  holds_nothing s p = (p, λ i h. absurd (omega arith))

  -- a guard or another step that no predicate depends on
  pub test-step :
      (test : IreeSession (S × Cells) F → Bool) (error : IreeSession (S × Cells) F → RuntimeError)
      {P : IreeSession (S × Cells) F → Type 0}
      → Triple P (require test error) (λ _. P) Any
  test-step test error = require-step test error (λ s p e. p) (λ s p. tt)

  next-Held :
      (want : Bool) (o : Option (List F)) (acc : List F) {Q : IreeSession (S × Cells) F → Type 0}
      → Triple Q (if want then expect_logits o else pure acc) (λ _. Q) Any
  unfolding expect_logits
  next-Held true none acc = record { run = λ s p. tt }
  next-Held true (some l) acc = pure-Triple l _ (λ s p. p)
  next-Held false o acc = pure-Triple acc _ (λ s p. p)

  -- a call for the window of these tokens, at the first position behind the tokens that are held
  pub call_window-Held :
      {A : Type 0} (op : List ℕ → ℕ → S → S × Result RuntimeError A) (front c : List ℕ) (at : ℕ)
      → 1 ≤ length c
      → length c ≤ start.prefill_window
      → at ≡ length front
      → (s : IreeSession (S × Cells) F) → Held Set front s
      → Outcome
          (λ (a : A). Held Set (front ++ c))
          Any
          (let (window, last) = window_of s.prefill_window s.pad_token_id c in
            call (writing (op window last) at (take (suc last) window)) s)
  call_window-Held op front c at some_token fits e s p =
      let (window, last) = window_of s.prefill_window s.pad_token_id c in
      let whole : take (suc last) window ≡ c =
        window_tokens s.prefill_window s.pad_token_id c some_token
          (let q = ap (λ (t : Setup). t.3) p.0 in omega (arith, fits, q)) in
      weaken-Outcome {Q = λ _. Held Set (front ++ take (suc last) window)} {R = Held Set front}
        (λ out t q. subst (λ ts. Held Set (front ++ ts) t) whole q) (λ t q. tt)
        (call (writing (op window last) at (take (suc last) window)) s)
        ((writing-Triple (op window last) Set (λ t n q. q) at front (take (suc last) window) e).run
          s p)

  -- an invocation of a window that holds these tokens
  invoke_chunk-Held :
      (front c : List ℕ) (at : ℕ) (want : Bool)
      → 1 ≤ length c
      → length c ≤ start.prefill_window
      → at ≡ length front
      → Triple
          (Held Set front)
          (invoke_chunk (mirror ctx) c at want)
          (λ _. Held Set (front ++ c))
          Any
  unfolding invoke_chunk gets window_from_tokens ◌>>=◌ continue
  invoke_chunk-Held front c at want some_token fits e = record {
    run =
        call_window-Held (λ window last. ctx.invoke_paged_chunk_ex window last at want) front c at
          some_token fits e;
  }

  module _ (size total : ℕ) (some_size : 1 ≤ size) (fits : size ≤ start.prefill_window) where
    -- a chunk behind the front, and where the rest of the prompt starts
    chunk_len :
        (ts : List ℕ)
        → 1 ≤ length ts
        → (1 ≤ length (take size ts)) × (length (take size ts) ≤ start.prefill_window)
    chunk_len ts h =
        let n = length-take size ts in (omega (arith, n, h, some_size), omega (arith, n, fits))

    later :
        (front ts : List ℕ) (i : ℕ)
        → i * size ≡ length front
        → (drop size ts ≡ []) ⊎ (suc i * size ≡ length (front ++ take size ts))
    later front ts i e =
        let n = length-take size ts in
        let all = length-append front (take size ts) in
        elim (next_start start.prefill_window start.pad_token_id size total some_size fits ts i
          (length front) (length (take size ts)) n (sym e)) [
            | inl q ↦ inl q
            | inr q ↦ inr (sym q ∙ sym all)
          ]

    rejoin : (front ts : List ℕ) → (front ++ take size ts) ++ drop size ts ≡ front ++ ts
    rejoin front ts =
        append_assoc front (take size ts) (drop size ts)
        ∙ ap (λ r. front ++ r) (take-append-drop size ts)

    pub run_chunks-Held :
        (fuel i : ℕ) (front rest : List ℕ) (acc : List F)
        → length rest ≤ fuel
        → (rest ≡ []) ⊎ (i * size ≡ length front)
        → Triple
            (Held Set front)
            (run_chunks (mirror ctx) size total i (chunks_of size fuel rest) acc)
            (λ _. Held Set (front ++ rest))
            Any
    unfolding run_chunks chunks_of
    run_chunks-Held fuel i front [] acc h e =
        pure-Triple acc _ (λ s p. subst (λ ts. Held Set ts s) (sym (append-nil front)) p)
    run_chunks-Held zero i front (t ∷ ts) acc h e = absurd (omega arith)
    run_chunks-Held (suc fuel) i front (t ∷ ts) acc h (inl e) = absurd (cc)
    run_chunks-Held (suc fuel) i front (t ∷ ts) acc h (inr e) =
        let c = take size (t ∷ ts) in
        let (some_token, short) = chunk_len (t ∷ ts) (omega arith) in
        let shorter = length-drop size (t ∷ ts) in
        bind-Triple (invoke_chunk-Held front c (i * size) (suc i == total) some_token short e)
          (λ out. bind-Triple (next-Held (suc i == total) out.0 acc) (λ next.
            subst
              (λ ts'.
                Triple (Held Set (front ++ c))
                  (run_chunks (mirror ctx) size total (suc i)
                    (chunks_of size fuel (drop size (t ∷ ts))) next)
                  (λ _. Held Set ts') Any)
              (rejoin front (t ∷ ts))
              (run_chunks-Held fuel (suc i) (front ++ c) (drop size (t ∷ ts)) next (omega arith)
                (later front (t ∷ ts) i e))))

    pub run_chunks_argmax-Held :
        (fuel i : ℕ) (front rest : List ℕ) (token : ℤ)
        → length rest ≤ fuel
        → (rest ≡ []) ⊎ (i * size ≡ length front)
        → Triple
            (Held Set front)
            (run_chunks_argmax (mirror ctx) size i (chunks_of size fuel rest) token)
            (λ _. Held Set (front ++ rest))
            Any
    unfolding run_chunks_argmax chunks_of
    run_chunks_argmax-Held fuel i front [] token h e =
        pure-Triple token _ (λ s p. subst (λ ts. Held Set ts s) (sym (append-nil front)) p)
    run_chunks_argmax-Held zero i front (t ∷ ts) token h e = absurd (omega arith)
    run_chunks_argmax-Held (suc fuel) i front (t ∷ ts) token h (inl e) = absurd (cc)
    run_chunks_argmax-Held (suc fuel) i front (t ∷ ts) token h (inr e) =
        let c = take size (t ∷ ts) in
        let (some_token, short) = chunk_len (t ∷ ts) (omega arith) in
        let shorter = length-drop size (t ∷ ts) in
        bind-Triple (invoke_chunk-Held front c (i * size) false some_token short e) (λ out.
          subst
            (λ ts'.
              Triple (Held Set (front ++ c))
                (run_chunks_argmax (mirror ctx) size (suc i)
                  (chunks_of size fuel (drop size (t ∷ ts))) out.1)
                (λ _. Held Set ts') Any)
            (rejoin front (t ∷ ts))
            (run_chunks_argmax-Held fuel (suc i) (front ++ c) (drop size (t ∷ ts)) out.1
              (omega arith) (later front (t ∷ ts) i e)))

  pub paged_chunks-Chunks :
      (page size : ℕ) (tokens : List ℕ)
      → Triple Set
          (paged_chunks (mirror ctx) page size tokens)
          (λ chunks s. Set s × (1 ≤ size) × (chunks ≡ chunks_of size (length tokens) tokens))
          Any
  unfolding paged_chunks panic_if
  paged_chunks-Chunks page size tokens =
      bind-Triple (keeps-step (call-Keeps _) (λ s c b p. p) (λ s p. tt)) (λ _.
        bind-Triple (keeps-step (ensure_pages-Keeps (mirror ctx) page) (λ s c b p. p) (λ s p. tt))
          (λ _.
            bind-Triple
              (require-step _ _ {Q = λ s. Set s × (1 ≤ size)} (λ s p e. (p, ground arith))
                (λ s p. tt))
              (λ _. pure-Triple _ _ (λ s p. (p.0, p.1, refl)))))
