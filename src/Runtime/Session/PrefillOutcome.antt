-- ===== src/Runtime/Session/PrefillOutcome.antt =====
-- What `prefill` and `prefill_argmax` do to a session, on success and on failure.
use dyninfer.Prelude.{
  ℕ, ◌≤◌, ◌≡◌, ◌∙◌, refl, ap, ◌⊎◌, inl, inr, true, not, is_empty, Option, none, some, List, [], ◌∷◌,
  length, leb, ==_iff, leb→le, arith,
}
use dyninfer.Prelude.Int.{negsuc}
use dyninfer.Runtime.Floats.{Floats}
use dyninfer.Runtime.Context.{Context}
use dyninfer.Runtime.Session.{IreeSession, max_seq}
use dyninfer.Runtime.Session.Actions.{
  Outcome, Triple, bind-Triple, pure-Triple, modify-Triple, require-step, keeps-step, gets-Keeps,
  require-Keeps,
}
use dyninfer.Runtime.Session.Frames.{
  prefill_values-Keeps, paged_chunks-Keeps, run_chunks_argmax-Keeps,
}
use dyninfer.Runtime.Session.Prefill.{
  prefill, prefill_argmax, prefill_argmax_at, prefill_argmax_paged, require_batch, require_nonempty,
  require_limit, remember, require_vocabulary, set_position,
}
use dyninfer.Runtime.Session.Setup.{Setup, setup, max_seq-setup, Unchanged}

-- a list that is not empty has an element
pub nonempty_le : (ts : List ℕ) → not (is_empty ts) ≡ true → 1 ≤ length ts
nonempty_le [] h = cc
nonempty_le (t ∷ ts) h = omega arith

module _ {S F : Type 0} where
  module _ (start : IreeSession S F) (tokens : List ℕ) where
    -- the tokens have passed the guards
    abbrev pub Admissible : Type 0
    Admissible = (1 ≤ length tokens) × (length tokens ≤ max_seq start)

    abbrev pub Remembered : IreeSession S F → Type 0
    Remembered s =
        ((setup s ≡ setup start) × (s.position ≡ start.position) × (s.history ≡ tokens))
        × Admissible

    abbrev pub Prefilled : IreeSession S F → Type 0
    Prefilled s =
        ((setup s ≡ setup start) × (s.position ≡ length tokens) × (s.history ≡ tokens)) × Admissible

    -- a failure before the guards have passed, or after
    abbrev pub PrefillFailed : IreeSession S F → Type 0
    PrefillFailed s = Unchanged start s ⊎ Remembered s

    -- the guards and the new history
    le_of_test :
        (s : IreeSession S F)
        → leb (length tokens) (max_seq s) ≡ true
        → max_seq s ≡ max_seq start
        → length tokens ≤ max_seq start
    le_of_test s e q = let r = leb→le _ _ e in omega arith

    batch_step : Triple (Unchanged start) require_batch (λ _. Unchanged start) PrefillFailed
    unfolding require_batch
    batch_step = require-step _ _ (λ s p e. p) (λ s p. inl p)

    nonempty_step :
        Triple
          (Unchanged start)
          (require_nonempty tokens)
          (λ _ s. Unchanged start s × (1 ≤ length tokens))
          PrefillFailed
    unfolding require_nonempty
    nonempty_step = require-step _ _ (λ s p e. (p, nonempty_le tokens e)) (λ s p. inl p)

    limit_step :
        Triple
          (λ s. Unchanged start s × (1 ≤ length tokens))
          (require_limit tokens)
          (λ _ s. Unchanged start s × Admissible)
          PrefillFailed
    unfolding require_limit
    limit_step =
        require-step _ _ (λ s p e. (p.0, (p.1, le_of_test s e (max_seq-setup s start p.0.0))))
          (λ s p. inl p.0)

    remember_step :
        Triple
          (λ s. Unchanged start s × Admissible)
          (remember tokens)
          (λ _. Remembered)
          PrefillFailed
    unfolding remember
    remember_step = modify-Triple _ (λ s p. ((p.0.0, p.0.1, refl), p.1))

    position_step :
        {Fact : Type 0}
        → Triple
            (λ s. Remembered s × Fact)
            (set_position (length tokens))
            (λ _ s. Prefilled s × Fact)
            PrefillFailed
    unfolding set_position
    position_step = modify-Triple _ (λ s p. ((((p.0.0.0, refl, p.0.0.2), p.0.1)), p.1))

    vocabulary_step :
        (values : List F)
        → Triple Remembered
            (require_vocabulary values)
            (λ _ s. Remembered s × (length values ≡ start.metadata.vocabulary_size))
            PrefillFailed
    unfolding require_vocabulary
    vocabulary_step values =
        require-step _ _
          (λ s p e. (p, (==_iff _ _).0 e ∙ ap (λ (t : Setup). t.0.vocabulary_size) p.0.0))
          (λ s p. inr p)

  module _ (ctx : Context S F) where
    -- the whole of `prefill`
    prefill-Triple :
        (start : IreeSession S F) (tokens : List ℕ)
        → Triple
            (Unchanged start)
            (prefill ctx tokens)
            (λ values s.
              Prefilled start tokens s × (length values ≡ start.metadata.vocabulary_size))
            (PrefillFailed start tokens)
    unfolding prefill
    prefill-Triple start tokens = bind-Triple (batch_step start tokens) (λ _.
        bind-Triple (nonempty_step start tokens) (λ _.
          bind-Triple (keeps-step (require-Keeps _ _) (λ s c b p. p) (λ s p. inl p.0)) (λ _.
            bind-Triple (limit_step start tokens) (λ _.
              bind-Triple (remember_step start tokens) (λ _.
                bind-Triple (keeps-step (gets-Keeps _) (λ s c b p. p) (λ s p. inr p)) (λ geometry.
                  bind-Triple
                    (keeps-step (prefill_values-Keeps ctx tokens geometry) (λ s c b p. p)
                      (λ s p. inr p))
                    (λ values. bind-Triple (vocabulary_step start tokens values) (λ _.
                      bind-Triple (position_step start tokens)
                        (λ _. pure-Triple values _ (λ s p. p))))))))))

    -- `prefill` of tokens, from any session. On success there are tokens, they fit into the session's limit,
    -- the position is their number, the history is these tokens, and there is one logit for each entry of
    -- the vocabulary. On failure the position is the old one, and the history is the old one, or the new
    -- tokens where these have passed the guards. The setup of the session never changes.
    pub prefill_lem :
        (start : IreeSession S F) (tokens : List ℕ)
        → Outcome
            (λ values s.
              Prefilled start tokens s × (length values ≡ start.metadata.vocabulary_size))
            (PrefillFailed start tokens)
            (prefill ctx tokens start)
    prefill_lem start tokens = (prefill-Triple start tokens).run start (refl, refl, refl)

    prefill_argmax_paged-Triple :
        (start : IreeSession S F) (tokens : List ℕ) (page size : ℕ)
        → Triple
            (Unchanged start)
            (prefill_argmax_paged ctx tokens page size)
            (λ token. Prefilled start tokens)
            (PrefillFailed start tokens)
    unfolding prefill_argmax_paged
    prefill_argmax_paged-Triple start tokens page size = bind-Triple (batch_step start tokens) (λ _.
        bind-Triple (nonempty_step start tokens) (λ _. bind-Triple (limit_step start tokens) (λ _.
          bind-Triple (remember_step start tokens) (λ _.
            bind-Triple
              (keeps-step (paged_chunks-Keeps ctx page size tokens) (λ s c b p. p) (λ s p. inr p))
              (λ chunks.
                bind-Triple
                  (keeps-step (run_chunks_argmax-Keeps ctx size 0 chunks (negsuc 0)) (λ s c b p. p)
                    (λ s p. inr p))
                  (λ token.
                    bind-Triple (keeps-step (require-Keeps _ _) (λ s c b p. p) (λ s p. inr p)) (λ _.
                      bind-Triple (modify-Triple _ (λ s p. ((p.0.0, refl, p.0.2), p.1)))
                        (λ _. pure-Triple _ _ (λ s p. p)))))))))

    prefill_argmax_at-Triple :
        (floats : Floats F) (start : IreeSession S F) (tokens : List ℕ) (geometry : Option (ℕ × ℕ))
        → Triple
            (Unchanged start)
            (prefill_argmax_at ctx floats tokens geometry)
            (λ token. Prefilled start tokens)
            (PrefillFailed start tokens)
    unfolding prefill_argmax_at
    prefill_argmax_at-Triple floats start tokens none =
        bind-Triple (prefill-Triple start tokens) (λ values. pure-Triple _ _ (λ s p. p.0))
    prefill_argmax_at-Triple floats start tokens (some (page, size)) =
        prefill_argmax_paged-Triple start tokens page size

    -- `prefill_argmax` of tokens, from any session: on success there are tokens, they fit into the session's
    -- limit, the position is their number and the history is these tokens. On failure the position is the
    -- old one, and the history is the old one, or the new tokens where these have passed the guards. The
    -- setup of the session never changes.
    pub prefill_argmax_lem :
        (floats : Floats F) (start : IreeSession S F) (tokens : List ℕ)
        → Outcome
            (λ token. Prefilled start tokens)
            (PrefillFailed start tokens)
            (prefill_argmax ctx floats tokens start)
    unfolding prefill_argmax
    prefill_argmax_lem floats start tokens =
        let whole : Triple (Unchanged start) (prefill_argmax ctx floats tokens)
            (λ token. Prefilled start tokens) (PrefillFailed start tokens) =
          bind-Triple (keeps-step (gets-Keeps _) (λ s c b p. p) (λ s p. inl p))
            (prefill_argmax_at-Triple floats start tokens) in
        whole.run start (refl, refl, refl)
