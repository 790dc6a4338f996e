-- ===== src/Prelude/Options.antt =====
-- The combinators of Rust's `Option` that the program calls.
use dyninfer.Prelude.{Option, none, some, List, [], ◌∷◌}

module _ {ℓ} {A : Type ℓ} where
  abbrev pub or_else : Option A → Option A → Option A
  or_else none b = b
  or_else (some a) b = some a

  abbrev pub and_then {κ} : {B : Type κ} → Option A → (A → Option B) → Option B
  and_then none f = none
  and_then (some a) f = f a

  abbrev pub map_some {κ} : {B : Type κ} → (A → B) → Option A → Option B
  map_some f none = none
  map_some f (some a) = some (f a)

  abbrev pub some_or : Option A → A → A
  some_or none d = d
  some_or (some a) d = a

  -- the list of one element or of none
  abbrev pub list_of : Option A → List A
  list_of none = []
  list_of (some a) = a ∷ []
