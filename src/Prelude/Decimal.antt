-- ===== src/Prelude/Decimal.antt =====
-- The decimal form of a number, as `format!` writes it.
use Prim.Native.String.{◌++◌ as ◌<>◌}
use dyninfer.Prelude.{
  ℕ, zero, suc, ◌/◌, ◌%◌, String, List, [], ◌∷◌, ltb, get_elem?, Option, none, some, if◌then◌else◌,
}

abbrev pub digits : List String
digits = "0" ∷ "1" ∷ "2" ∷ "3" ∷ "4" ∷ "5" ∷ "6" ∷ "7" ∷ "8" ∷ "9" ∷ []

abbrev pub text_of : Option String → String
text_of none = ""
text_of (some s) = s

abbrev pub digit : ℕ → String
digit n = text_of (get_elem? digits n)

-- One round writes one digit, so the number itself is enough fuel.
unfoldable pub decimal_loop : ℕ → ℕ → String
decimal_loop zero n = digit n
decimal_loop (suc fuel) n =
    let front = decimal_loop fuel (n / 10) <> digit (n % 10) in if ltb n 10 then digit n else front

unfoldable pub decimal : ℕ → String
unfolding decimal_loop
decimal n = decimal_loop n n
