-- ===== src/Prelude/Assoc.antt =====
-- A `BTreeMap` with text keys that is only looked up: the list of its entries, newest first.
use dyninfer.Prelude.{◌≡◌, ap, String, Option, none, some, List, [], ◌∷◌, str_eq, if◌then◌else◌}

module _ {ℓ} {V : Type ℓ} where
  unfoldable pub get : List (String × V) → String → Option V
  get [] key = none
  get ((k, v) ∷ rest) key = if str_eq k key then some v else get rest key

  -- `insert(key, value)`: the new entry hides an older one
  abbrev pub insert : List (String × V) → String → V → List (String × V)
  insert m key value = (key, value) ∷ m

  abbrev insert_absent : List (String × V) → String → V → Option V → List (String × V)
  insert_absent m key value none = insert m key value
  insert_absent m key value (some old) = m

  -- `entry(key).or_insert(value)`
  unfoldable pub or_insert : List (String × V) → String → V → List (String × V)
  unfolding get
  or_insert m key value = insert_absent m key value (get m key)

  pub or_insert_absent :
      (m : List (String × V)) (key : String) (v : V)
      → get m key ≡ none
      → or_insert m key v ≡ insert m key v
  unfolding or_insert
  or_insert_absent m key v e = ap (insert_absent m key v) e

  pub or_insert_present :
      (m : List (String × V)) (key : String) (v : V) {w : V}
      → get m key ≡ some w
      → or_insert m key v ≡ m
  unfolding or_insert
  or_insert_present m key v e = ap (insert_absent m key v) e
