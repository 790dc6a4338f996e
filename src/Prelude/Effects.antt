-- ===== src/Prelude/Effects.antt =====
-- `&mut self` methods with `Result`: a function of the state, in which `?` leaves the state as it is at
-- the failing step.
use mathlib.Core.Path.{subst, subst₂}
use dyninfer.Prelude.{◌≡◌, refl, Bool, true, false, Result, ok, err, if◌then◌else◌}

abbrev pub Effect : Type 0 → Type 0 → Type 0 → Type 0
Effect S E A = S → S × Result E A

module _ {S E : Type 0} where
  abbrev pub resume : {A B : Type 0} → (A → Effect S E B) → S × Result E A → S × Result E B
  resume f (s, err e) = (s, err e)
  resume f (s, ok a) = f a s

  infixl 5 ◌>>=◌ ◌>>◌
  unfoldable pub ◌>>=◌ : {A B : Type 0} → Effect S E A → (A → Effect S E B) → Effect S E B
  ◌>>=◌ m f s = resume f (m s)

  unfoldable pub ◌>>◌ : {B : Type 0} → Effect S E (Unit {0}) → Effect S E B → Effect S E B
  unfolding ◌>>=◌
  m >> k = m >>= λ _. k

  unfoldable pub pure : {A : Type 0} → A → Effect S E A
  pure a s = (s, ok a)

  unfoldable pub get_state : Effect S E S
  get_state s = (s, ok s)

  unfoldable pub modify : (S → S) → Effect S E (Unit {0})
  modify f s = (f s, ok tt)

  -- a step that does not touch the state
  unfoldable pub lift : {A : Type 0} → Result E A → Effect S E A
  lift r s = (s, r)

  -- `if !test { return Err(error); }`
  unfoldable pub check : Bool → E → Effect S E (Unit {0})
  check true e s = (s, ok tt)
  check false e s = (s, err e)

-- Where the step succeeds from a state with `P`, its value and the state after it have `Q`.
pub record Hoare {S E A : Type 0} (P : S → Type 0) (m : Effect S E A) (Q : A → S → Type 0)
    : Type 0 where
  pub run : (s : S) → P s → (a : A) (s' : S) → m s ≡ (s', ok a) → Q a s'

resume-ok :
    {S E A B : Type 0} (f : A → Effect S E B) (o : S × Result E A) {b : B} {s' : S}
    → resume f o ≡ (s', ok b)
    → (t : S) × (a : A) × (o ≡ (t, ok a)) × (f a t ≡ (s', ok b))
resume-ok f (t, err e) h = absurd (cc)
resume-ok f (t, ok a) h = (t, a, refl, h)

module _ {S E : Type 0} where
  pub bind-Hoare :
      {A B : Type 0} {P : S → Type 0} {m : Effect S E A} {f : A → Effect S E B} {Q : A → S → Type 0}
      {R : B → S → Type 0}
      → Hoare P m Q
      → ((a : A) → Hoare (Q a) (f a) R)
      → Hoare P (m >>= f) R
  unfolding ◌>>=◌
  bind-Hoare {m = m} {f = f} first after = record {
    run = λ s p b s' h.
        let (t, a, stepped, finished) = resume-ok f (m s) h in
        (after a).run t (first.run s p a t stepped) b s' finished;
  }

  -- from what is wanted after a step to what it needs before
  pub get_state-Hoare : {Q : S → S → Type 0} → Hoare {E = E} (λ s. Q s s) get_state Q
  unfolding get_state
  get_state-Hoare {Q = Q} = record { run = λ s p a s' h. subst₂ Q (cc) (cc) p }

  pub modify-Hoare :
      {Q : Unit {0} → S → Type 0} (f : S → S) → Hoare {E = E} (λ s. Q tt (f s)) (modify f) Q
  unfolding modify
  modify-Hoare {Q} f = record { run = λ s p a s' h. subst (Q a) (cc) p }

  pub pure-Hoare : {A : Type 0} {Q : A → S → Type 0} (a : A) → Hoare {E = E} (λ s. Q a s) (pure a) Q
  unfolding pure
  pure-Hoare {Q = Q} a = record { run = λ s p a s' h. subst₂ Q (cc) (cc) p }

  pub check-Hoare :
      {Q : Unit {0} → S → Type 0} (b : Bool) (e : E) → Hoare (λ s. b ≡ true → Q tt s) (check b e) Q
  unfolding check
  check-Hoare {Q} true e = record { run = λ s p a s' h. subst (Q a) (cc) (p refl) }
  check-Hoare {Q} false e = record { run = λ s p a s' h. absurd (cc) }

  pub lift-Hoare :
      {A : Type 0} {Q : A → S → Type 0} (r : Result E A)
      → Hoare (λ s. (a : A) → r ≡ ok a → Q a s) (lift r) Q
  unfolding lift
  lift-Hoare {Q = Q} (err e) = record { run = λ s p a s' h. absurd (cc) }
  lift-Hoare {Q = Q} (ok v) = record { run = λ s p a s' h. subst₂ Q (cc) (cc) (p v refl) }

  pub then-Hoare :
      {B : Type 0} {P : S → Type 0} {m : Effect S E (Unit {0})} {k : Effect S E B} {Q : S → Type 0}
      {R : B → S → Type 0}
      → Hoare P m (λ u. Q)
      → Hoare Q k R
      → Hoare P (m >> k) R
  unfolding ◌>>◌
  then-Hoare first after = bind-Hoare first (λ u. after)

  pub from-Hoare :
      {A : Type 0} {P P' : S → Type 0} {m : Effect S E A} {Q : A → S → Type 0}
      → ((s : S) → P s → P' s)
      → Hoare P' m Q
      → Hoare P m Q
  from-Hoare f h = record { run = λ s p a s' e. h.run s (f s p) a s' e }

  pub to-Hoare :
      {A : Type 0} {P : S → Type 0} {m : Effect S E A} {Q Q' : A → S → Type 0}
      → ((a : A) (s : S) → Q a s → Q' a s)
      → Hoare P m Q
      → Hoare P m Q'
  to-Hoare f h = record { run = λ s p a s' e. f a s' (h.run s p a s' e) }

  -- a fact that the steps before have tested
  pub given-Hoare :
      {A : Type 0} {P : S → Type 0} {m : Effect S E A} {Q : A → S → Type 0} {X : Type 0}
      → (X → Hoare P m Q)
      → Hoare (λ s. X × P s) m Q
  given-Hoare f = record { run = λ s p a s' e. (f p.0).run s p.1 a s' e }

  pub if-Hoare :
      {A : Type 0} {P : S → Type 0} {m k : Effect S E A} {Q : A → S → Type 0} (b : Bool)
      → Hoare P m Q
      → Hoare P k Q
      → Hoare P (if b then m else k) Q
  if-Hoare true h g = h
  if-Hoare false h g = g

  pub fail-Hoare :
      {A : Type 0} {P : S → Type 0} {Q : A → S → Type 0} (e : E) → Hoare P (lift (err e)) Q
  unfolding lift
  fail-Hoare e = record { run = λ s p a s' h. absurd (cc) }
