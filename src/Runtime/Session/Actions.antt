-- ===== src/Runtime/Session/Actions.antt =====
-- The actions on a session: `&mut self` methods with `Result`, in which `?` leaves the state as it
-- is at the failing call; and what an action guarantees, on success and on failure.
use dyninfer.Prelude.{◌≡◌, refl, Bool, true, false, List, Result, ok, err, if◌then◌else◌}
use dyninfer.Runtime.Context.{RuntimeError}
use dyninfer.Runtime.Session.{IreeSession}

abbrev pub Action : Type 0 → Type 0 → Type 0 → Type 0
Action S F A = IreeSession S F → IreeSession S F × Result RuntimeError A

module _ {S F : Type 0} where
  infixl 5 ◌>>=◌ ◌>>◌
  unfoldable pub continue :
      {A B : Type 0}
      → (A → Action S F B)
      → IreeSession S F × Result RuntimeError A
      → IreeSession S F × Result RuntimeError B
  continue f (s, ok a) = f a s
  continue f (s, err e) = (s, err e)

  unfoldable pub ◌>>=◌ : {A B : Type 0} → Action S F A → (A → Action S F B) → Action S F B
  unfolding continue
  (m >>= f) s = continue f (m s)

  abbrev pub ◌>>◌ : {B : Type 0} → Action S F (Unit {0}) → Action S F B → Action S F B
  m >> k = m >>= λ _. k

  unfoldable pub pure : {A : Type 0} → A → Action S F A
  pure a s = (s, ok a)

  unfoldable pub gets : {A : Type 0} → (IreeSession S F → A) → Action S F A
  gets f s = (s, ok (f s))

  unfoldable pub modify : (IreeSession S F → IreeSession S F) → Action S F (Unit {0})
  modify f s = (f s, ok tt)

  -- `if !test { return Err(error); }`
  unfoldable pub require :
      (IreeSession S F → Bool) → (IreeSession S F → RuntimeError) → Action S F (Unit {0})
  require test error s = if test s then (s, ok tt) else (s, err (error s))

  -- a call of the context
  unfoldable pub call : {A : Type 0} → (S → S × Result RuntimeError A) → Action S F A
  call op s = let r = op s.context in (record s { context = r.0 }, r.1)

  -- What holds of the outcome: `Q` of a value and the state on success, `R` of the state on failure.
  abbrev pub Outcome :
      {A : Type 0}
      → (A → IreeSession S F → Type 0)
      → (IreeSession S F → Type 0)
      → IreeSession S F × Result RuntimeError A
      → Type 0
  Outcome Q R (s, ok a) = Q a s
  Outcome Q R (s, err e) = R s

  pub record Triple {A : Type 0} (P : IreeSession S F → Type 0) (m : Action S F A)
      (Q : A → IreeSession S F → Type 0) (R : IreeSession S F → Type 0) : Type 0 where
    pub run : (s : IreeSession S F) → P s → Outcome Q R (m s)

  continue-Outcome :
      {A B : Type 0} (f : A → Action S F B) (Q : A → IreeSession S F → Type 0)
      (Q' : B → IreeSession S F → Type 0) (R : IreeSession S F → Type 0)
      → ((a : A) → Triple (Q a) (f a) Q' R)
      → (o : IreeSession S F × Result RuntimeError A) → Outcome Q R o
      → Outcome Q' R (continue f o)
  unfolding continue
  continue-Outcome f Q Q' R h (s, ok a) q = (h a).run s q
  continue-Outcome f Q Q' R h (s, err e) q = q

  module _ {A : Type 0} {P : IreeSession S F → Type 0} {R : IreeSession S F → Type 0} where
    -- the rule of sequences
    pub bind-Triple :
        {B : Type 0} {m : Action S F A} {f : A → Action S F B} {Q : A → IreeSession S F → Type 0}
        {Q' : B → IreeSession S F → Type 0}
        → Triple P m Q R
        → ((a : A) → Triple (Q a) (f a) Q' R)
        → Triple P (m >>= f) Q' R
    unfolding ◌>>=◌
    bind-Triple {m = m} {f = f} {Q = Q} {Q' = Q'} h k = record {
      run = λ s p. continue-Outcome f Q Q' R k (m s) (h.run s p);
    }

    pub pure-Triple :
        (a : A) (Q : A → IreeSession S F → Type 0)
        → ((s : IreeSession S F) → P s → Q a s)
        → Triple P (pure a) Q R
    unfolding pure
    pure-Triple a Q h = record { run = h }

    pub gets-Triple : (f : IreeSession S F → A) → Triple P (gets f) (λ a s. P s × (a ≡ f s)) R
    unfolding gets
    gets-Triple f = record { run = λ s p. (p, refl) }

  -- a consequence of a guarantee
  pub weaken-Outcome :
      {A : Type 0} {Q Q' : A → IreeSession S F → Type 0} {R R' : IreeSession S F → Type 0}
      → ((a : A) (s : IreeSession S F) → Q a s → Q' a s)
      → ((s : IreeSession S F) → R s → R' s)
      → (o : IreeSession S F × Result RuntimeError A) → Outcome Q R o
      → Outcome Q' R' o
  weaken-Outcome f g (s, ok a) q = f a s q
  weaken-Outcome f g (s, err e) q = g s q

  pub modify-Triple :
      (f : IreeSession S F → IreeSession S F) {P Q R : IreeSession S F → Type 0}
      → ((s : IreeSession S F) → P s → Q (f s))
      → Triple P (modify f) (λ _. Q) R
  unfolding modify
  modify-Triple f h = record { run = h }

  require-Outcome :
      (b : Bool) (test : IreeSession S F → Bool) (error : RuntimeError)
      (P : IreeSession S F → Type 0) (s : IreeSession S F)
      → P s
      → test s ≡ b
      → Outcome (λ _ t. P t × (test t ≡ true)) P (if b then (s, ok tt) else (s, err error))
  require-Outcome true test error P s p e = (p, e)
  require-Outcome false test error P s p e = p

  -- a test adds what it tests
  pub require-Triple :
      (test : IreeSession S F → Bool) (error : IreeSession S F → RuntimeError)
      {P : IreeSession S F → Type 0}
      → Triple P (require test error) (λ _ s. P s × (test s ≡ true)) P
  unfolding require
  require-Triple test error {P} = record {
    run = λ s p. require-Outcome (test s) test (error s) P s p refl;
  }

  call-Outcome :
      {A : Type 0} {s : IreeSession S F} (P : IreeSession S F → Type 0) (r : Result RuntimeError A)
      → P s
      → Outcome (λ (a : A). P) P (s, r)
  call-Outcome P (ok a) q = q
  call-Outcome P (err e) q = q

  -- a call keeps what does not look at the context
  pub call-Triple :
      {A : Type 0} (op : S → S × Result RuntimeError A) {P : IreeSession S F → Type 0}
      → ((s : IreeSession S F) (c : S) → P s → P (record s { context = c }))
      → Triple P (call op) (λ _. P) P
  unfolding call
  call-Triple op {P} stable = record {
    run = λ s p. let r = op s.context in call-Outcome P r.1 (stable s r.0 p);
  }

  -- steps of a proof, with what is left to show written out
  pub require-step :
      (test : IreeSession S F → Bool) (error : IreeSession S F → RuntimeError)
      {P Q R : IreeSession S F → Type 0}
      → ((s : IreeSession S F) → P s → test s ≡ true → Q s)
      → ((s : IreeSession S F) → P s → R s)
      → Triple P (require test error) (λ _. Q) R
  require-step test error {P} f g = record {
    run = λ s p.
        weaken-Outcome {Q = λ _ t. P t × (test t ≡ true)} (λ _ t q. f t q.0 q.1) g
          (require test error s) ((require-Triple test error {P = P}).run s p);
  }

  -- an action that keeps every predicate on what the context and the bias are not part of
  abbrev pub Frame : (IreeSession S F → Type 0) → Type 0
  Frame P =
      (s : IreeSession S F) (c : S) (b : List F) → P s → P (record s { context = c; attn_bias = b })

  abbrev pub Keeps : {A : Type 0} → Action S F A → Type 1
  Keeps m = (P : IreeSession S F → Type 0) → Frame P → Triple P m (λ _. P) P

  pub bind-Keeps :
      {A B : Type 0} {m : Action S F A} {f : A → Action S F B}
      → Keeps m
      → ((a : A) → Keeps (f a))
      → Keeps (m >>= f)
  bind-Keeps h k P frame = bind-Triple (h P frame) (λ a. k a P frame)

  pub pure-Keeps : {A : Type 0} (a : A) → Keeps (pure a)
  pure-Keeps a P frame = pure-Triple a (λ _. P) (λ s p. p)

  pub fail-Keeps : {A : Type 0} (e : RuntimeError) → Keeps {A = A} (λ s. (s, err e))
  fail-Keeps e P frame = record { run = λ s p. p }

  pub require-Keeps :
      (test : IreeSession S F → Bool) (error : IreeSession S F → RuntimeError)
      → Keeps (require test error)
  require-Keeps test error P frame = require-step test error (λ s p e. p) (λ s p. p)

  pub gets-Keeps : {A : Type 0} (f : IreeSession S F → A) → Keeps (gets f)
  unfolding gets
  gets-Keeps f P frame = record { run = λ s p. p }

  pub call-Keeps : {A : Type 0} (op : S → S × Result RuntimeError A) → Keeps (call op)
  call-Keeps op P frame = call-Triple op (λ s c p. frame s c s.attn_bias p)

  -- a keeping action inside a proof with other guarantees
  pub keeps-step :
      {A : Type 0} {m : Action S F A} {P R : IreeSession S F → Type 0}
      → Keeps m
      → Frame P
      → ((s : IreeSession S F) → P s → R s)
      → Triple P m (λ _. P) R
  keeps-step {m = m} {P = P} h frame g = record {
    run = λ s p. weaken-Outcome {Q = λ _. P} (λ _ t q. q) g (m s) ((h P frame).run s p);
  }

  -- a test that is known to pass
  pub require-pass :
      (test : IreeSession S F → Bool) (error : IreeSession S F → RuntimeError)
      {P R : IreeSession S F → Type 0}
      → ((s : IreeSession S F) → P s → test s ≡ true)
      → Triple P (require test error) (λ _. P) R
  unfolding require
  require-pass test error {P} {R} f = record { run = λ s p. let e = f s p in rw e p }
