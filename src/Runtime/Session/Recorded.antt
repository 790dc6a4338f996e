-- ===== src/Runtime/Session/Recorded.antt =====
-- A prefill of the paged cache against a context that records its invocations and never fails: `prefill`
-- of crates/dyninfer-runtime/src/session.rs.
use dyninfer.Prelude.{
  ℕ, ◌≤◌, ◌≡◌, ◌∙◌, refl, sym, ap, inr, true, not, is_empty, Option, some, List, [], ◌∷◌, ◌++◌,
  length, arith, ==_iff,
}
use mathlib.Core.Path.{subst}
use dyninfer.Runtime.Session.{IreeSession, max_seq, paged_geometry}
use dyninfer.Runtime.Session.Actions.{
  Outcome, Triple, bind-Triple, pure-Triple, modify-Triple, gets-Triple, require-pass,
  weaken-Outcome,
}
use dyninfer.Runtime.Session.Setup.{geometry-setup, Setup, setup, max_seq-setup}
use dyninfer.Runtime.Session.Windows.{Invocation, Feeds, plan, plan-Feeds}
use dyninfer.Runtime.Session.Prefill.{
  prefill, prefill_values, run_chunks, chunks_of, require_batch, require_nonempty, require_limit,
  require_vocabulary, remember, set_position,
}
use dyninfer.Runtime.Session.Recorder.{
  recorder, Never, Recorded, final, run_chunks-Triple, paged_chunks-Triple,
}

nonempty_true : (ts : List ℕ) → 1 ≤ length ts → not (is_empty ts) ≡ true
nonempty_true [] h = absurd (omega arith)
nonempty_true (t ∷ ts) h = refl

module _ {F : Type 0} (logits : List Invocation → List F)
    (start : IreeSession (List Invocation) F) where
  module _ (page size : ℕ) (tokens : List ℕ) (some_token : 1 ≤ length tokens) (some_page : 1 ≤ page)
      (some_size : 1 ≤ size) (fits : size ≤ start.prefill_window) where
    -- the prompt has been fed, and the logits are those after the last invocation
    abbrev pub Fed : List F → IreeSession (List Invocation) F → Type 0
    Fed values s = (setup s ≡ setup start) × Feeds 0 s.context tokens × (values ≡ logits s.context)

    final_chunks :
        (total : ℕ) (ts : List ℕ)
        → 1 ≤ length ts
        → final logits start [] size total 0 (chunks_of size (length ts) ts) []
          ≡ logits (
              plan start.prefill_window start.pad_token_id size total 0
                (chunks_of size (length ts) ts))
    unfolding chunks_of
    final_chunks total [] h = absurd (omega arith)
    final_chunks total (t ∷ ts) h = refl

    loop-Triple :
        (chunks : List (List ℕ))
        → Triple
            (λ s. Recorded logits start [] s × (chunks ≡ chunks_of size (length tokens) tokens))
            (run_chunks (recorder logits) size (length chunks) 0 chunks [])
            Fed
            (Never logits start)
    loop-Triple chunks = record {
      run = λ s p.
          let total = length chunks in
          let fed =
            plan-Feeds start.prefill_window start.pad_token_id size total some_size fits
              (length tokens) 0 0 tokens (omega arith) (inr (omega arith)) in
          weaken-Outcome
            {Q = λ values t.
              Recorded logits start
                ([] ++ plan start.prefill_window start.pad_token_id size total 0 chunks) t
              × (values ≡ final logits start [] size total 0 chunks [])}
            {Q' = Fed} {R = (Never logits start)} {R' = (Never logits start)}
            (λ values t q. (
              q.0.0,
              subst (λ vs. Feeds 0 vs tokens) (sym q.0.1)
                  (subst
                    (λ cs.
                      Feeds 0 (plan start.prefill_window start.pad_token_id size total 0 cs) tokens)
                    (sym p.1) fed),
              q.1
                  ∙ ap (λ cs. final logits start [] size total 0 cs []) p.1
                  ∙ final_chunks total tokens some_token
                  ∙ ap (λ cs. logits (plan start.prefill_window start.pad_token_id size total 0 cs))
                      (sym p.1)
                  ∙ ap logits (sym q.0.1),
            ))
            (λ t q. q) (run_chunks (recorder logits) size total 0 chunks [] s)
            ((run_chunks-Triple logits start [] size total 0 chunks [] (omega arith)).run s p.0);
    }

    paged_values-Triple :
        Triple
          (λ s. setup s ≡ setup start)
          (prefill_values (recorder logits) tokens (some (page, size)))
          Fed
          (Never logits start)
    unfolding prefill_values
    paged_values-Triple =
        bind-Triple (paged_chunks-Triple logits start page size tokens some_page some_size)
          loop-Triple

    module _ (geometry : paged_geometry start ≡ some (page, size))
        (one_sequence : start.config.batch_size ≡ 1) (room : length tokens ≤ max_seq start)
        (vocabulary : (vs : List Invocation)
          → length (logits vs) ≡ start.metadata.vocabulary_size) where
      same_geometry :
          (s : IreeSession (List Invocation) F)
          → setup s ≡ setup start
          → paged_geometry s ≡ some (page, size)
      same_geometry s e = geometry-setup s start e ∙ geometry

      values-Triple :
          (g : Option (ℕ × ℕ))
          → Triple
              (λ s. (setup s ≡ setup start) × (g ≡ paged_geometry s))
              (prefill_values (recorder logits) tokens g)
              Fed
              (Never logits start)
      values-Triple g = record {
        run = λ s p.
            subst
              (λ h. Outcome Fed (Never logits start) (prefill_values (recorder logits) tokens h s))
              (sym (p.1 ∙ same_geometry s p.0)) (paged_values-Triple.run s p.0);
      }

      prefill-Fed-Triple :
          Triple
            (λ s. setup s ≡ setup start)
            (prefill (recorder logits) tokens)
            Fed
            (Never logits start)
      unfolding prefill require_batch require_nonempty require_limit require_vocabulary remember
          set_position
      prefill-Fed-Triple =
          bind-Triple
            (require-pass _ _
              (λ s p. (==_iff _ _).1 (ap (λ (t : Setup). t.1.batch_size) p ∙ one_sequence)))
            (λ _. bind-Triple (require-pass _ _ (λ s p. nonempty_true tokens some_token)) (λ _.
              bind-Triple (require-pass _ _ (λ s p. let e = same_geometry s p in rw e refl)) (λ _.
                bind-Triple
                  (require-pass _ _ (λ s p. let q = max_seq-setup s start p in ground arith))
                  (λ _. bind-Triple (modify-Triple _ (λ s p. p)) (λ _.
                    bind-Triple (gets-Triple paged_geometry) (λ g.
                      bind-Triple (values-Triple g) (λ values.
                        bind-Triple
                          (require-pass _ _ (λ s p. (==_iff _ _).1 (
                            ap length p.2
                            ∙ vocabulary s.context
                            ∙ sym (ap (λ (t : Setup). t.0.vocabulary_size) p.0))))
                          (λ _.
                            bind-Triple (modify-Triple _ (λ s p. p))
                              (λ _. pure-Triple values _ (λ s p. p))))))))))

      -- A prefill of a paged session of batch size 1, with tokens that fit into its limit, pages and
      -- chunks that are not empty, and chunks no longer than the window, against a context that never
      -- fails, and whose logits are any function of the invocations since the reset: it succeeds, the
      -- invocations feed exactly these tokens, each at its own position from 0 on, and the result is the
      -- logits of all these invocations, that is, those that the last one returns.
      pub prefill_feeds : Outcome Fed (Never logits start) (prefill (recorder logits) tokens start)
      prefill_feeds = prefill-Fed-Triple.run start refl
