-- ===== src/Prelude/Results.antt =====
-- `Result<T, E>` and the `?` operator, which is the bind of a `do` block.
use mathlib.Core.Path.{◌≡◌, refl, subst}
use mathlib.Core.Bool.{Bool, true, false}
use dyninfer.Prelude.Tests.{if◌then◌else◌}
use mathlib.Core.Option.{Option, none, some}

-- `E` stands in the lowest universe: every error type of the program is plain data.
pub data Result {ℓ} (E : Type 0) (A : Type ℓ) : Type ℓ where
  err : E → Result E A
  ok : A → Result E A

module _ {E : Type 0} where
  infixl 5 ◌>>=◌ ◌>>◌
  -- what `?` does with a failure: the rest is passed over
  abbrev pub ◌>>=◌ {κ ℓ} : {B : Type κ} {A : Type ℓ} → Result E B → (B → Result E A) → Result E A
  err failure >>= rest = err failure
  ok value >>= rest = rest value

  -- the same for a step without a value
  abbrev pub ◌>>◌ {ℓ} : {A : Type ℓ} → Result E (Unit {0}) → Result E A → Result E A
  first >> rest = first >>= λ done. rest

  -- `if !passed { return Err(failure); }`
  abbrev pub guard : Bool → E → Result E (Unit {0})
  guard passed failure = elim passed [ false ↦ err failure | true ↦ ok tt ]

-- `o.ok_or_else(|| e)?`
abbrev pub ok_or {ℓ} : {E : Type 0} {A : Type ℓ} → Option A → E → Result E A
ok_or none e = err e
ok_or (some a) e = ok a

module _ {ℓ κ} {E : Type 0} {A : Type ℓ} {B : Type κ} where
  pub >>=-eq-ok :
      (m : Result E A) (f : A → Result E B) {b : B}
      → (m >>= f) ≡ ok b
      → (a : A) × (m ≡ ok a) × (f a ≡ ok b)
  >>=-eq-ok (err failure) rest h = cc
  >>=-eq-ok (ok value) rest h = (value, refl, h)

pub guard-eq-ok : {E : Type 0} (b : Bool) (e : E) (u : Unit) → guard b e ≡ ok u → b ≡ true
guard-eq-ok true e u h = refl
guard-eq-ok false e u h = cc

pub ok_or-eq-ok {ℓ} :
    {E : Type 0} {A : Type ℓ} (o : Option A) (e : E) {a : A} → ok_or o e ≡ ok a → o ≡ some a
ok_or-eq-ok none e h = cc
ok_or-eq-ok (some b) e h = cc

-- Where the computation returns a value, the value has the property.
pub record Ensures {E A : Type 0} (m : Result E A) (Q : A → Type 0) : Type 0 where
  pub run : (a : A) → m ≡ ok a → Q a

module _ {E A : Type 0} where
  -- the rule of sequences: what the first step ensures is given to the rest
  pub then-Ensures :
      {B : Type 0} {m : Result E B} {rest : B → Result E A} {P : B → Type 0} {Q : A → Type 0}
      → Ensures m P
      → ((b : B) → P b → Ensures (rest b) Q)
      → Ensures (m >>= rest) Q
  then-Ensures {m = m} {rest = rest} first after = record {
    run = λ a e.
        let (b, stepped, finished) = >>=-eq-ok m rest e in
        (after b (first.run b stepped)).run a finished;
  }

  pub ok-Ensures : {a : A} {Q : A → Type 0} → Q a → Ensures {E = E} (ok a) Q
  ok-Ensures {a = a} {Q = Q} q = record { run = λ b e. let same : a ≡ b = cc in subst Q same q }

  pub ok_or-Ensures : (o : Option A) (e : E) → Ensures (ok_or o e) (λ a. o ≡ some a)
  ok_or-Ensures o e = record { run = λ a h. ok_or-eq-ok o e h }

  -- any result ensures that it is the result
  pub self-Ensures : (m : Result E A) → Ensures m (λ a. m ≡ ok a)
  self-Ensures m = record { run = λ a h. h }

pub guard-Ensures : {E : Type 0} (b : Bool) (e : E) → Ensures (guard b e) (λ u. b ≡ true)
guard-Ensures b e = record { run = λ u h. guard-eq-ok b e u h }

pub imp-Ensures :
    {E A : Type 0} {m : Result E A} {P Q : A → Type 0}
    → Ensures m P
    → ((a : A) → P a → Q a)
    → Ensures m Q
imp-Ensures h f = record { run = λ a e. f a (h.run a e) }

pub if-Ensures :
    {E A : Type 0} (b : Bool) {m k : Result E A} {Q : A → Type 0}
    → Ensures m Q
    → Ensures k Q
    → Ensures (if b then m else k) Q
if-Ensures true h k = h
if-Ensures false h k = k
