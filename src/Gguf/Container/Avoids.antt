-- ===== src/Gguf/Container/Avoids.antt =====
-- Steps of the cursor of crates/dyninfer-checkpoint-gguf/src/container.rs that do not end for want of fuel.
use dyninfer.Prelude.{ℕ, ◌≡◌, ◌≢◌, refl, Bool, true, false, Result, ok, err, if◌then◌else◌}
use dyninfer.Prelude.Effects.{◌>>=◌, ◌>>◌, resume, pure, get_state, modify, lift, check}
use dyninfer.Checkpoint.Errors.{CheckpointError, nested_too_deep}
use dyninfer.Gguf.Cursor.{Read}

-- From a position with `P` the step does not end for want of fuel, and after its value `Q` holds.
pub record Avoids {A : Type 0} (P : ℕ → Type 0) (m : Read A) (Q : A → ℕ → Type 0) : Type 0 where
  pub run :
      (s : ℕ) → P s → ((m s).1 ≢ err nested_too_deep) × ((a : A) → (m s).1 ≡ ok a → Q a (m s).0)

pub resume-Avoids :
    {A B : Type 0} {Q : A → ℕ → Type 0} {R : B → ℕ → Type 0} (f : A → Read B)
    (o : ℕ × Result CheckpointError A)
    → (o.1 ≢ err nested_too_deep)
    → ((a : A) → o.1 ≡ ok a → Q a o.0)
    → ((a : A) → Avoids (Q a) (f a) R)
    → ((resume f o).1 ≢ err nested_too_deep)
      × ((b : B) → (resume f o).1 ≡ ok b → R b (resume f o).0)
resume-Avoids f (t, err x) avoids gives after = (λ h. avoids (cc), λ b h. absurd (cc))
resume-Avoids f (t, ok a) avoids gives after = (after a).run t (gives a refl)

pub bind-Avoids :
    {A B : Type 0} {P : ℕ → Type 0} {Q : A → ℕ → Type 0} {R : B → ℕ → Type 0} {m : Read A}
    {f : A → Read B}
    → Avoids P m Q
    → ((a : A) → Avoids (Q a) (f a) R)
    → Avoids P (m >>= f) R
unfolding ◌>>=◌
bind-Avoids {m = m} {f = f} first after = record {
  run = λ s p. let r = first.run s p in resume-Avoids f (m s) r.0 r.1 after;
}

pub then-Avoids :
    {B : Type 0} {P Q : ℕ → Type 0} {R : B → ℕ → Type 0} {m : Read (Unit {0})} {k : Read B}
    → Avoids P m (λ u. Q)
    → Avoids Q k R
    → Avoids P (m >> k) R
unfolding ◌>>◌
then-Avoids first after = bind-Avoids first (λ u. after)

pub pure-Avoids : {A : Type 0} {P : ℕ → Type 0} (a : A) → Avoids P (pure a) (λ b. P)
unfolding pure
pure-Avoids a = record { run = λ s p. (λ h. cc, λ b h. p) }

pub check-Avoids :
    {P : ℕ → Type 0} (b : Bool) (e : CheckpointError)
    → e ≢ nested_too_deep
    → Avoids P (check b e) (λ u. P)
unfolding check
check-Avoids true e other = record { run = λ s p. (λ h. cc, λ a h. p) }
check-Avoids false e other = record { run = λ s p. (λ h. other (cc), λ a h. absurd (cc)) }

pub lift-Avoids :
    {A : Type 0} {P : ℕ → Type 0} (r : Result CheckpointError A)
    → r ≢ err nested_too_deep
    → Avoids P (lift r) (λ a s. (r ≡ ok a) × P s)
unfolding lift
lift-Avoids r other = record { run = λ s p. (other, λ a h. (h, p)) }

pub get_state-Avoids : {P : ℕ → Type 0} → Avoids P get_state (λ pos s. (pos ≡ s) × P s)
unfolding get_state
get_state-Avoids = record { run = λ s p. (λ h. cc, λ a h. (cc, p)) }

pub to-Avoids :
    {A : Type 0} {P P' : ℕ → Type 0} {m : Read A} {Q Q' : A → ℕ → Type 0}
    → ((s : ℕ) → P' s → P s)
    → ((a : A) (s : ℕ) → Q a s → Q' a s)
    → Avoids P m Q
    → Avoids P' m Q'
to-Avoids f g h = record { run = λ s p. let r = h.run s (f s p) in (r.0, λ a e. g a _ (r.1 a e)) }

pub modify-Avoids : {P : ℕ → Type 0} (n : ℕ) → Avoids (λ s. P n) (modify (λ p. n)) (λ u. P)
unfolding modify
modify-Avoids n = record { run = λ s p. (λ h. cc, λ a h. p) }

pub if-Avoids :
    {A : Type 0} {P : ℕ → Type 0} {Q : A → ℕ → Type 0} {m k : Read A} (b : Bool)
    → Avoids P m Q
    → Avoids P k Q
    → Avoids P (if b then m else k) Q
if-Avoids true h g = h
if-Avoids false h g = g
