-- ===== src/Runtime/Session/Recorder.antt =====
-- A context that records its invocations and never fails, under the loop of a paged prefill of
-- crates/dyninfer-runtime/src/session.rs.
use dyninfer.Prelude.{
  ℕ, suc, ◌+◌, ◌*◌, ◌/◌, ◌-◌, ◌≤◌, ◌≡◌, ◌∙◌, refl, sym, ap, Bool, true, false, ◌==◌, max, Option,
  none, some, List, [], ◌∷◌, ◌++◌, ok, length, if◌then◌else◌, arith, ==_iff,
}
use mathlib.Core.List.{append_assoc, append-nil}
use mathlib.Core.Path.{ap₂}
use dyninfer.Prelude.Int.{pos}
use dyninfer.Runtime.Context.{Context}
use dyninfer.Runtime.Session.{IreeSession, max_seq, window_from_tokens, window_of}
use dyninfer.Runtime.Session.Actions.{
  Triple, bind-Triple, pure-Triple, gets-Triple, call, pure, gets, require-pass, weaken-Outcome,
  continue, ◌>>=◌,
}
use dyninfer.Runtime.Session.Setup.{Setup, setup}
use dyninfer.Runtime.Session.Windows.{Invocation, plan, invocation_of}
use dyninfer.Runtime.Session.Prefill.{
  paged_chunks, run_chunks, invoke_chunk, expect_logits, ensure_pages, panic_if, chunks_of,
}

module _ {F : Type 0} (logits : List Invocation → List F) where
  -- A reset forgets the recorded invocations; a call of the static prefill or decode is recorded too. The
  -- logits of an invocation are those of all that has been recorded up to it and with it.
  abbrev pub recorder : Context (List Invocation) F
  recorder = record {
    reset_paged_kv = λ s. ([], ok tt);
    ensure_kv_pages = λ pages s. (s, ok tt);
    invoke_paged_chunk_ex = λ window last start want s.
        let vs =
          s ++ record { window = window; last = last; start = start; want_logits = want } ∷ [] in
        (vs, ok (if want then some (logits vs) else none, pos 0));
    invoke_prefill = λ window last s.
        let vs = record { window = window; last = last; start = 0; want_logits = true } ∷ [] in
        (vs, ok (logits vs));
    invoke_decode = λ token position bias s.
        let vs =
          s
          ++ record { window = token ∷ []; last = 0; start = position; want_logits = true } ∷ [] in
        (vs, ok (logits vs));
  }

  module _ (start : IreeSession (List Invocation) F) where
    abbrev pub Never : IreeSession (List Invocation) F → Type 0
    Never s = ⊥

    -- the session has the setup of `start`, and these invocations are recorded
    abbrev pub Recorded : List Invocation → IreeSession (List Invocation) F → Type 0
    Recorded vs s = (setup s ≡ setup start) × (s.context ≡ vs)

    abbrev turn : ℕ → ℕ → ℕ → List ℕ → Invocation
    turn size total i c = invocation_of start.prefill_window start.pad_token_id size total i c

    invoke_chunk-Triple :
        (vs : List Invocation) (size total i : ℕ) (c : List ℕ)
        → Triple
            (Recorded vs)
            (invoke_chunk recorder c (i * size) (suc i == total))
            (λ out s.
              Recorded (vs ++ turn size total i c ∷ []) s
              × (out.0 ≡ (
                  if suc i == total then some (logits (vs ++ turn size total i c ∷ [])) else none)))
            Never
    unfolding invoke_chunk gets call window_from_tokens window_of ◌>>=◌ continue
    invoke_chunk-Triple vs size total i c = record {
      run = λ s p.
          let same = ap (λ (t : Setup). invocation_of t.3 t.4 size total i c) p.0 in
          let vs' = ap₂ (λ xs v. xs ++ v ∷ []) p.1 same in
          ((p.0, vs'), ap (λ xs. if suc i == total then some (logits xs) else none) vs');
    }

    -- the value of the loop: the logits after the last chunk
    abbrev pub final : List Invocation → ℕ → ℕ → ℕ → List (List ℕ) → List F → List F
    final vs size total i [] acc = acc
    final vs size total i (c ∷ cs) acc =
        logits (vs ++ plan start.prefill_window start.pad_token_id size total i (c ∷ cs))

    expect-Triple :
        (P : IreeSession (List Invocation) F → Type 0) (want : Bool) (out : Option (List F))
        (found acc : List F)
        → Triple
            (λ s. P s × (out ≡ (if want then some found else none)))
            (if want then expect_logits out else pure acc)
            (λ next s. P s × (next ≡ (if want then found else acc)))
            Never
    unfolding expect_logits
    expect-Triple P true none found acc = record { run = λ s p. absurd (let e = p.1 in cc) }
    expect-Triple P true (some l) found acc = pure-Triple l _ (λ s p. (p.0, let e = p.1 in cc))
    expect-Triple P false out found acc = pure-Triple acc _ (λ s p. (p.0, refl))

    next_final :
        (vs : List Invocation) (size total i : ℕ) (c : List ℕ) (cs : List (List ℕ))
        (next acc : List F)
        → suc i + length cs ≡ total
        → next ≡ (if suc i == total then logits (vs ++ turn size total i c ∷ []) else acc)
        → final (vs ++ turn size total i c ∷ []) size total (suc i) cs next
          ≡ final vs size total i (c ∷ cs) acc
    unfolding plan
    next_final vs size total i c [] next acc n e =
        let t : (suc i == total) ≡ true = (==_iff _ _).1 (omega arith) in e ∙ rw t refl
    next_final vs size total i c (d ∷ cs) next acc n e = ap logits (
        append_assoc vs (turn size total i c ∷ [])
          (plan start.prefill_window start.pad_token_id size total (suc i) (d ∷ cs)))

    pub run_chunks-Triple :
        (vs : List Invocation) (size total i : ℕ) (cs : List (List ℕ)) (acc : List F)
        → i + length cs ≡ total
        → Triple
            (Recorded vs)
            (run_chunks recorder size total i cs acc)
            (λ values s.
              Recorded (vs ++ plan start.prefill_window start.pad_token_id size total i cs) s
              × (values ≡ final vs size total i cs acc))
            Never
    unfolding run_chunks plan
    run_chunks-Triple vs size total i [] acc n =
        pure-Triple acc _ (λ s p. ((p.0, p.1 ∙ sym (append-nil vs)), refl))
    run_chunks-Triple vs size total i (c ∷ cs) acc n =
        let rest = plan start.prefill_window start.pad_token_id size total (suc i) cs in
        bind-Triple (invoke_chunk-Triple vs size total i c) (λ out.
          bind-Triple
            (expect-Triple (Recorded (vs ++ turn size total i c ∷ [])) (suc i == total) out.0
              (logits (vs ++ turn size total i c ∷ [])) acc)
            (λ next. record {
              run = λ s p.
                  weaken-Outcome
                    {Q = λ values t.
                      Recorded ((vs ++ turn size total i c ∷ []) ++ rest) t
                      × (values
                          ≡ final (vs ++ turn size total i c ∷ []) size total (suc i) cs next)}
                    {Q' = λ values t.
                      Recorded (vs ++ turn size total i c ∷ rest) t
                      × (values ≡ final vs size total i (c ∷ cs) acc)}
                    {R = Never} {R' = Never}
                    (λ values t q. (
                      (q.0.0, q.0.1 ∙ append_assoc vs (turn size total i c ∷ []) rest),
                      q.1 ∙ next_final vs size total i c cs next acc (omega arith) p.1,
                    ))
                    (λ t q. q) (run_chunks recorder size total (suc i) cs next s)
                    ((run_chunks-Triple (vs ++ turn size total i c ∷ []) size total (suc i) cs next
                        (omega arith)).run
                      s p.0);
            }))

    ensure_call :
        (vs : List Invocation) (pages : ℕ) (Fact : IreeSession (List Invocation) F → Type 0)
        → Triple
            (λ s. Recorded vs s × Fact s)
            (call (recorder.ensure_kv_pages pages))
            (λ _. Recorded vs)
            Never
    unfolding call
    ensure_call vs pages Fact = record { run = λ s p. p.0 }

    ensure_pages-Triple :
        (vs : List Invocation) (page : ℕ)
        → 1 ≤ page
        → Triple (Recorded vs) (ensure_pages recorder page) (λ _. Recorded vs) Never
    unfolding ensure_pages panic_if
    ensure_pages-Triple vs page h = bind-Triple (require-pass _ _ (λ s p. ground arith)) (λ _.
        bind-Triple (gets-Triple max_seq)
          (λ limit. ensure_call vs (max ((limit + (page - 1)) / page) 1) (λ s. limit ≡ max_seq s)))

    reset_call :
        Triple (λ s. setup s ≡ setup start) (call recorder.reset_paged_kv) (λ _. Recorded []) Never
    unfolding call
    reset_call = record { run = λ s p. (p, refl) }

    pub paged_chunks-Triple :
        (page size : ℕ) (tokens : List ℕ)
        → 1 ≤ page
        → 1 ≤ size
        → Triple
            (λ s. setup s ≡ setup start)
            (paged_chunks recorder page size tokens)
            (λ chunks s. Recorded [] s × (chunks ≡ chunks_of size (length tokens) tokens))
            Never
    unfolding paged_chunks panic_if
    paged_chunks-Triple page size tokens h k = bind-Triple reset_call (λ _.
        bind-Triple (ensure_pages-Triple [] page h) (λ _.
          bind-Triple (require-pass _ _ (λ s p. ground arith))
            (λ _. pure-Triple _ _ (λ s p. (p, refl)))))
