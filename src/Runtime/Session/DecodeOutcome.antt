-- ===== src/Runtime/Session/DecodeOutcome.antt =====
-- What `decode`, `decode_argmax` and `reset` do to a session, on success and on failure.
use dyninfer.Prelude.{
  ℕ, suc, ◌<◌, ◌≡◌, ◌∙◌, refl, ap, true, Option, none, some, [], ◌∷◌, ◌++◌, length, ltb, ==_iff,
  ltb→lt, arith,
}
use dyninfer.Runtime.Floats.{Floats}
use dyninfer.Runtime.Context.{Context}
use dyninfer.Runtime.Session.{IreeSession, max_seq}
use dyninfer.Runtime.Session.Actions.{
  Outcome, Triple, bind-Triple, pure-Triple, modify-Triple, require-step, keeps-step, gets-Keeps,
  call-Keeps, require-Keeps,
}
use dyninfer.Runtime.Session.Frames.{decode_values-Keeps, ensure_pages-Keeps}
use dyninfer.Runtime.Session.Prefill.{require_batch, require_vocabulary}
use dyninfer.Runtime.Session.Decode.{
  decode, decode_argmax, decode_argmax_at, decode_argmax_paged, reset, reset_cache,
  require_position, advance,
}
use dyninfer.Runtime.Session.Setup.{Setup, setup, max_seq-setup, Unchanged}

module _ {S F : Type 0} where
  module _ (ctx : Context S F) (floats : Floats F) (start : IreeSession S F) (token : ℕ) where
    -- one token more
    abbrev pub Advanced : IreeSession S F → Type 0
    Advanced s =
        (setup s ≡ setup start)
        × (s.position ≡ suc start.position)
        × (s.history ≡ start.history ++ token ∷ [])

    abbrev Room : IreeSession S F → Type 0
    Room s = Unchanged start s × (start.position < max_seq start)

    lt_of_test :
        (s : IreeSession S F)
        → ltb s.position (max_seq s) ≡ true
        → Unchanged start s
        → start.position < max_seq start
    lt_of_test s e p =
        let r = ltb→lt _ _ e in let q = max_seq-setup s start p.0 in let k = p.1 in omega arith

    position_guard : Triple (Unchanged start) require_position (λ _. Room) (Unchanged start)
    unfolding require_position
    position_guard = require-step _ _ (λ s p e. (p, lt_of_test s e p)) (λ s p. p)

    batch_guard : Triple (Unchanged start) require_batch (λ _. Unchanged start) (Unchanged start)
    unfolding require_batch
    batch_guard = require-step _ _ (λ s p e. p) (λ s p. p)

    advance-Triple :
        {Fact : Type 0}
        → Triple
            (λ s. Room s × Fact)
            (advance token)
            (λ _ s. (Advanced s × (start.position < max_seq start)) × Fact)
            (Unchanged start)
    unfolding advance
    advance-Triple =
        modify-Triple _
          (λ s p. (((p.0.0.0, ap suc p.0.0.1, ap (λ h. h ++ token ∷ []) p.0.0.2), p.0.1), p.1))

    decode-Triple :
        Triple
          (Unchanged start)
          (decode ctx floats token)
          (λ values s.
            (Advanced s × (start.position < max_seq start))
            × (length values ≡ start.metadata.vocabulary_size))
          (Unchanged start)
    unfolding decode require_vocabulary
    decode-Triple = bind-Triple batch_guard (λ _. bind-Triple position_guard (λ _.
        bind-Triple (keeps-step (gets-Keeps _) (λ s c b p. p) (λ s p. p.0)) (λ geometry.
          bind-Triple
            (keeps-step (decode_values-Keeps ctx floats token geometry) (λ s c b p. p) (λ s p. p.0))
            (λ values.
              bind-Triple
                (require-step _ _
                  (λ s p e. (p, (==_iff _ _).0 e ∙ ap (λ (t : Setup). t.0.vocabulary_size) p.0.0))
                  (λ s p. p.0))
                (λ _. bind-Triple advance-Triple (λ _. pure-Triple values _ (λ s p. p)))))))

    decode_argmax_paged-Triple :
        (page : ℕ)
        → Triple
            (Unchanged start)
            (decode_argmax_paged ctx floats token page)
            (λ next s. Advanced s × (start.position < max_seq start))
            (Unchanged start)
    unfolding decode_argmax_paged advance
    decode_argmax_paged-Triple page = bind-Triple batch_guard (λ _. bind-Triple position_guard (λ _.
        bind-Triple (keeps-step (ensure_pages-Keeps ctx page) (λ s c b p. p) (λ s p. p.0)) (λ _.
          bind-Triple (keeps-step (gets-Keeps _) (λ s c b p. p) (λ s p. p.0)) (λ position.
            bind-Triple (keeps-step (call-Keeps _) (λ s c b p. p) (λ s p. p.0)) (λ out.
              bind-Triple (keeps-step (require-Keeps _ _) (λ s c b p. p) (λ s p. p.0)) (λ _.
                bind-Triple
                  (modify-Triple _
                    (λ s p. ((p.0.0, ap suc p.0.1, ap (λ h. h ++ token ∷ []) p.0.2), p.1)))
                  (λ _. pure-Triple _ _ (λ s p. p))))))))

    decode_argmax_at-Triple :
        (geometry : Option (ℕ × ℕ))
        → Triple
            (Unchanged start)
            (decode_argmax_at ctx floats token geometry)
            (λ next s. Advanced s × (start.position < max_seq start))
            (Unchanged start)
    unfolding decode_argmax_at
    decode_argmax_at-Triple none =
        bind-Triple decode-Triple (λ values. pure-Triple _ _ (λ s p. p.0))
    decode_argmax_at-Triple (some (page, size)) = decode_argmax_paged-Triple page

    -- `decode` of a token, from any session. On success the position was below the session's limit and has
    -- grown by one, the token ends the history, and there is one logit for each entry of the vocabulary. On
    -- failure the position and the history are the old ones. The setup never changes.
    pub decode_lem :
        Outcome
          (λ values s.
            (Advanced s × (start.position < max_seq start))
            × (length values ≡ start.metadata.vocabulary_size))
          (Unchanged start)
          (decode ctx floats token start)
    decode_lem = decode-Triple.run start (refl, refl, refl)

    -- `decode_argmax` of a token, from any session: on success the position was below the session's limit and
    -- has grown by one, and the token ends the history. On failure the position and the history are the old
    -- ones. The setup never changes.
    pub decode_argmax_lem :
        Outcome
          (λ next s. Advanced s × (start.position < max_seq start))
          (Unchanged start)
          (decode_argmax ctx floats token start)
    unfolding decode_argmax
    decode_argmax_lem =
        let whole : Triple (Unchanged start) (decode_argmax ctx floats token)
            (λ next s. Advanced s × (start.position < max_seq start)) (Unchanged start) =
          bind-Triple (keeps-step (gets-Keeps _) (λ s c b p. p) (λ s p. p))
            decode_argmax_at-Triple in
        whole.run start (refl, refl, refl)

  module _ (ctx : Context S F) (start : IreeSession S F) where
    reset_cache-Triple :
        (geometry : Option (ℕ × ℕ))
        → Triple
            (Unchanged start)
            (reset_cache ctx geometry)
            (λ _. Unchanged start)
            (Unchanged start)
    unfolding reset_cache
    reset_cache-Triple none = pure-Triple tt _ (λ s p. p)
    reset_cache-Triple (some g) = keeps-step (call-Keeps _) (λ s c b p. p) (λ s p. p)

    -- `reset`: on success the position is 0 and the history empty, on failure both are the old ones.
    pub reset_lem :
        Outcome
          (λ _ s. (setup s ≡ setup start) × (s.position ≡ 0) × (s.history ≡ []))
          (Unchanged start)
          (reset ctx start)
    unfolding reset
    reset_lem =
        let whole : Triple (Unchanged start) (reset ctx)
            (λ _ s. (setup s ≡ setup start) × (s.position ≡ 0) × (s.history ≡ []))
            (Unchanged start) =
          bind-Triple (keeps-step (gets-Keeps _) (λ s c b p. p) (λ s p. p)) (λ geometry.
            bind-Triple (reset_cache-Triple geometry)
              (λ _. modify-Triple _ (λ s p. (p.0, refl, refl)))) in
        whole.run start (refl, refl, refl)
