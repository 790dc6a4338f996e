-- ===== src/Runtime/Session/Stepped.antt =====
-- What a decode and a reset of crates/dyninfer-runtime/src/session.rs do to the cells of the cache.
use dyninfer.Prelude.{ℕ, ◌≡◌, ◌∙◌, Option, none, some, List, [], ◌∷◌, ◌++◌, length}
use dyninfer.Prelude.Int.{ℤ}
use dyninfer.Runtime.Floats.{Floats}
use dyninfer.Runtime.Context.{Context}
use dyninfer.Runtime.Session.{IreeSession}
use dyninfer.Runtime.Session.Actions.{
  Triple, bind-Triple, pure-Triple, modify-Triple, require-step, gets,
}
use dyninfer.Runtime.Session.Setup.{Unchanged}
use dyninfer.Runtime.Session.Cells.{
  Cells, Holds, Holds-front, mirror, Held, writing-Triple, keeping-Triple,
}
use dyninfer.Runtime.Session.Prompted.{fact-Triple}
use dyninfer.Runtime.Session.Prefill.{require_batch, require_vocabulary, ensure_pages, panic_if}
use dyninfer.Runtime.Session.Decode.{
  decode, decode_argmax, decode_argmax_at, decode_argmax_paged, decode_values, require_position,
  advance, want_logits,
}

module _ {S F : Type 0} (ctx : Context S F) (floats : Floats F) (start : IreeSession (S × Cells) F)
    (token : ℕ) (counted : start.position ≡ length start.history) where
  abbrev Same : IreeSession (S × Cells) F → Type 0
  Same = Unchanged start

  abbrev Before : IreeSession (S × Cells) F → Type 0
  Before = Held Same start.history

  abbrev After : IreeSession (S × Cells) F → Type 0
  After = Held Same (start.history ++ token ∷ [])

  forget : (s : IreeSession (S × Cells) F) → After s → Before s
  forget s p = (p.0, Holds-front s.context.1 start.history (token ∷ []) p.1)

  ensure_pages-Before :
      (page : ℕ) → Triple Before (ensure_pages (mirror ctx) page) (λ _. Before) Before
  unfolding ensure_pages panic_if gets
  ensure_pages-Before page = bind-Triple (require-step _ _ (λ s p e. p) (λ s p. p)) (λ _.
      bind-Triple {Q = λ n. Before} (record { run = λ s p. p })
        (λ limit. keeping-Triple (ctx.ensure_kv_pages _) Same (λ s c p. p) start.history))

  at_position :
      Triple Before (gets (λ s. s.position)) (λ at s. Before s × (at ≡ length start.history)) Before
  unfolding gets
  at_position = record { run = λ s p. (p, p.0.1 ∙ counted) }

  want_logits-After :
      (out : Option (List F) × ℤ) → Triple After (want_logits out) (λ _. After) Before
  unfolding want_logits
  want_logits-After (none, next) = record { run = forget }
  want_logits-After (some values, next) = pure-Triple values _ (λ s p. p)

  decode_values-After :
      (geometry : Option (ℕ × ℕ))
      → Triple Before (decode_values (mirror ctx) floats token geometry) (λ _. After) Before
  unfolding decode_values gets
  decode_values-After none =
      bind-Triple (modify-Triple _ {P = Before} {Q = Before} (λ s p. p)) (λ _.
        bind-Triple {Q = λ out s. Before s × (out.0 ≡ length start.history)}
          (record { run = λ s p. (p, p.0.1 ∙ counted) })
          (λ out.
            fact-Triple (writing-Triple _ Same (λ s c p. p) out.0 start.history (token ∷ []))))
  decode_values-After (some (page, size)) = bind-Triple (ensure_pages-Before page) (λ _.
      bind-Triple at_position (λ at.
        bind-Triple (fact-Triple (writing-Triple _ Same (λ s c p. p) at start.history (token ∷ [])))
          want_logits-After))

  -- A decode over any context, where the position is the length of the history: on success the cells hold
  -- the history and the token, on failure they still hold the history.
  pub decode-Stepped :
      Triple Before
        (decode (mirror ctx) floats token)
        (λ values s. Holds s.context.1 (start.history ++ token ∷ []))
        Before
  unfolding decode require_batch require_position require_vocabulary advance gets
  decode-Stepped = bind-Triple (require-step _ _ (λ s p e. p) (λ s p. p)) (λ _.
      bind-Triple (require-step _ _ (λ s p e. p) (λ s p. p)) (λ _.
        bind-Triple {Q = λ n. Before} (record { run = λ s p. p })
          (λ geometry. bind-Triple (decode_values-After geometry) (λ values.
            bind-Triple (require-step _ _ (λ s p e. p) forget) (λ _.
              bind-Triple (modify-Triple _ (λ s p. p.1)) (λ _. pure-Triple values _ (λ s p. p)))))))

  decode_argmax_paged-Stepped :
      (page : ℕ)
      → Triple Before
          (decode_argmax_paged (mirror ctx) floats token page)
          (λ next s. Holds s.context.1 (start.history ++ token ∷ []))
          Before
  unfolding decode_argmax_paged require_batch require_position advance
  decode_argmax_paged-Stepped page = bind-Triple (require-step _ _ (λ s p e. p) (λ s p. p)) (λ _.
      bind-Triple (require-step _ _ (λ s p e. p) (λ s p. p)) (λ _.
        bind-Triple (ensure_pages-Before page) (λ _. bind-Triple at_position (λ at.
          bind-Triple
            (fact-Triple (writing-Triple _ Same (λ s c p. p) at start.history (token ∷ [])))
            (λ out. bind-Triple (require-step _ _ (λ s p e. p) forget) (λ _.
              bind-Triple (modify-Triple _ (λ s p. p.1)) (λ _. pure-Triple _ _ (λ s p. p))))))))

  decode_argmax_at-Stepped :
      (geometry : Option (ℕ × ℕ))
      → Triple Before
          (decode_argmax_at (mirror ctx) floats token geometry)
          (λ next s. Holds s.context.1 (start.history ++ token ∷ []))
          Before
  unfolding decode_argmax_at
  decode_argmax_at-Stepped none = bind-Triple decode-Stepped (λ values. pure-Triple _ _ (λ s p. p))
  decode_argmax_at-Stepped (some (page, size)) = decode_argmax_paged-Stepped page

  pub decode_argmax-Stepped :
      Triple Before
        (decode_argmax (mirror ctx) floats token)
        (λ next s. Holds s.context.1 (start.history ++ token ∷ []))
        Before
  unfolding decode_argmax gets
  decode_argmax-Stepped =
      bind-Triple {Q = λ n. Before} (record { run = λ s p. p }) decode_argmax_at-Stepped
