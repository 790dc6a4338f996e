-- ===== src/Runtime/Session/Invariant.antt =====
-- Sessions of crates/dyninfer-runtime/src/session.rs over any sequence of calls: the bound on the position.
use dyninfer.Prelude.{
  ℕ, ◌≤◌, ◌<◌, ◌≡◌, ◌∙◌, refl, inl, inr, List, [], ◌∷◌, length, Result, ok, err, arith,
}
use dyninfer.Runtime.Floats.{Floats}
use dyninfer.Runtime.Context.{Context, RuntimeError}
use dyninfer.Runtime.Session.{IreeSession, max_seq}
use dyninfer.Runtime.Session.Actions.{Outcome}
use dyninfer.Runtime.Session.Setup.{setup, max_seq-setup, Unchanged}
use dyninfer.Runtime.Session.PrefillOutcome.{
  Prefilled, PrefillFailed, prefill_lem, prefill_argmax_lem,
}
use dyninfer.Runtime.Session.DecodeOutcome.{Advanced, decode_lem, decode_argmax_lem, reset_lem}
use dyninfer.Runtime.Session.Prefill.{prefill, prefill_argmax}
use dyninfer.Runtime.Session.Decode.{decode, decode_argmax, reset}

-- a call of the `ModelSession` interface that may change the session
pub data Call : Type 0 where
  prefill_call prefill_argmax_call : List ℕ → Call
  decode_call decode_argmax_call : ℕ → Call
  reset_call : Call

module _ {S F : Type 0} where
  -- what holds on success and on failure holds of the state
  state-Outcome :
      {A : Type 0} (Q : A → IreeSession S F → Type 0) (R P : IreeSession S F → Type 0)
      → ((a : A) (s : IreeSession S F) → Q a s → P s)
      → ((s : IreeSession S F) → R s → P s)
      → (o : IreeSession S F × Result RuntimeError A) → Outcome Q R o
      → P o.0
  state-Outcome Q R P f g (s, ok a) q = f a s q
  state-Outcome Q R P f g (s, err e) q = g s q

  -- the position is within the limit, and the setup is that of `start`
  abbrev pub Bounded : IreeSession S F → IreeSession S F → Type 0
  Bounded start s = (setup s ≡ setup start) × (s.position ≤ max_seq s)

module _ {S F : Type 0} (ctx : Context S F) (floats : Floats F) where
  abbrev pub PrefillOk : IreeSession S F → List ℕ → List F → IreeSession S F → Type 0
  PrefillOk s tokens values t = Prefilled s tokens t × (length values ≡ s.metadata.vocabulary_size)

  abbrev pub DecodeOk : IreeSession S F → ℕ → List F → IreeSession S F → Type 0
  DecodeOk s token values t =
      (Advanced ctx floats s token t × (s.position < max_seq s))
      × (length values ≡ s.metadata.vocabulary_size)

  abbrev pub ResetOk : IreeSession S F → Unit {0} → IreeSession S F → Type 0
  ResetOk s u t = (setup t ≡ setup s) × (t.position ≡ 0) × (t.history ≡ [])

  -- the session after the call, whether it succeeded or not
  unfoldable pub perform : Call → IreeSession S F → IreeSession S F
  unfolding prefill prefill_argmax decode decode_argmax reset
  perform (prefill_call tokens) s = (prefill ctx tokens s).0
  perform (prefill_argmax_call tokens) s = (prefill_argmax ctx floats tokens s).0
  perform (decode_call token) s = (decode ctx floats token s).0
  perform (decode_argmax_call token) s = (decode_argmax ctx floats token s).0
  perform reset_call s = (reset ctx s).0

  unfoldable pub perform_all : List Call → IreeSession S F → IreeSession S F
  unfolding perform
  perform_all [] s = s
  perform_all (c ∷ cs) s = perform_all cs (perform c s)

  module _ (s : IreeSession S F) (bound : s.position ≤ max_seq s) where
    Unchanged-Bounded : (t : IreeSession S F) → Unchanged s t → Bounded s t
    Unchanged-Bounded t u = let q = max_seq-setup t s u.0 in let p = u.1 in (u.0, omega arith)

    Prefilled-Bounded : (tokens : List ℕ) (t : IreeSession S F) → Prefilled s tokens t → Bounded s t
    Prefilled-Bounded tokens t u =
        let q = max_seq-setup t s u.0.0 in let p = u.0.1 in let h = u.1.1 in (u.0.0, omega arith)

    remembered-Bounded :
        (tokens : List ℕ) (t : IreeSession S F) → PrefillFailed s tokens t → Bounded s t
    remembered-Bounded tokens t (inl u) = Unchanged-Bounded t u
    remembered-Bounded tokens t (inr u) = Unchanged-Bounded' t u.0.0 u.0.1
      where
        Unchanged-Bounded' :
            (t : IreeSession S F) → setup t ≡ setup s → t.position ≡ s.position → Bounded s t
        Unchanged-Bounded' t e p = let q = max_seq-setup t s e in (e, omega arith)

    Advanced-Bounded :
        (token : ℕ) (t : IreeSession S F)
        → Advanced ctx floats s token t × (s.position < max_seq s)
        → Bounded s t
    Advanced-Bounded token t u =
        let q = max_seq-setup t s u.0.0 in let p = u.0.1 in let h = u.1 in (u.0.0, omega arith)

    perform-Bounded : (c : Call) → Bounded s (perform c s)
    unfolding perform
    perform-Bounded (prefill_call tokens) =
        state-Outcome (PrefillOk s tokens) _ (Bounded s) (λ v t q. Prefilled-Bounded tokens t q.0)
          (remembered-Bounded tokens) (prefill ctx tokens s) (prefill_lem ctx s tokens)
    perform-Bounded (prefill_argmax_call tokens) =
        state-Outcome _ _ (Bounded s) (λ v. Prefilled-Bounded tokens) (remembered-Bounded tokens)
          (prefill_argmax ctx floats tokens s) (prefill_argmax_lem ctx floats s tokens)
    perform-Bounded (decode_call token) =
        state-Outcome (DecodeOk s token) _ (Bounded s) (λ v t q. Advanced-Bounded token t q.0)
          Unchanged-Bounded (decode ctx floats token s) (decode_lem ctx floats s token)
    perform-Bounded (decode_argmax_call token) =
        state-Outcome _ _ (Bounded s) (λ v. Advanced-Bounded token) Unchanged-Bounded
          (decode_argmax ctx floats token s) (decode_argmax_lem ctx floats s token)
    perform-Bounded reset_call =
        state-Outcome (ResetOk s) _ (Bounded s) (λ v t q. let p = q.1 in (q.0, omega arith))
          Unchanged-Bounded (reset ctx s) (reset_lem ctx s)

  -- After any calls, failing ones included, the position of a session is within the session's limit where
  -- it was so before, and the metadata, the configuration, the cache's description, the window and the pad
  -- token are the same.
  pub perform_all-Bounded :
      (cs : List Call) (s : IreeSession S F) → s.position ≤ max_seq s → Bounded s (perform_all cs s)
  unfolding perform_all
  perform_all-Bounded [] s bound = (refl, bound)
  perform_all-Bounded (c ∷ cs) s bound =
      let step = perform-Bounded s bound c in
      let rest = perform_all-Bounded cs (perform c s) step.1 in (rest.0 ∙ step.0, rest.1)
