-- ===== src/Prelude/Utf8.antt =====
-- `String::from_utf8`: the text of a sequence of bytes, where they are well-formed UTF-8.
use Prim.Native.Char.{Char, char, IsScalar}
use Prim.Native.Nat.{Ordering, compare}
use dyninfer.Prelude.{
  ℕ, zero, suc, ◌+◌, ◌*◌, ◌-◌, String, ◌≡◌, refl, ◌&&◌, ◌||◌, ◌==◌, Option, none, some, List, [],
  ◌∷◌, leb, ltb, if◌then◌else◌,
}
use dyninfer.Prelude.Options.{and_then, map_some}

-- a surrogate lies between the two ranges of characters
pub char_below : (n : ℕ) → compare n 55296 ≡ Ordering.lt → IsScalar n
char_below n e = rw e tt

pub char_above :
    (n : ℕ)
    → compare n 55296 ≡ Ordering.gt
    → compare 57343 n ≡ Ordering.lt
    → compare n 1114112 ≡ Ordering.lt
    → IsScalar n
char_above n e f g = rw (e, f, g) tt

-- the character of a number, where it has one
unfoldable pub char_of : ℕ → Option Char
char_of n =
    (elim (compare n 55296) as (λ o. compare n 55296 ≡ o → Option Char) [
      | Ordering.lt ↦ λ e. some (char n (char_below n e))
      | Ordering.eq ↦ λ e. none
      | Ordering.gt ↦ λ e.
          (elim (compare 57343 n) as (λ o. compare 57343 n ≡ o → Option Char) [
            | Ordering.lt ↦ λ f.
                (elim (compare n 1114112) as (λ o. compare n 1114112 ≡ o → Option Char) [
                  | Ordering.lt ↦ λ g. some (char n (char_above n e f g))
                  | Ordering.eq ↦ λ g. none
                  | Ordering.gt ↦ λ g. none
                ])
                  refl
            | Ordering.eq ↦ λ f. none
            | Ordering.gt ↦ λ f. none
          ])
            refl
    ])
      refl

-- A character that is being read: its value so far, how many bytes follow the next one, and the range
-- of the next.
pub record Partial : Type 0 where
  pub value : ℕ
  pub after : ℕ
  pub low : ℕ
  pub high : ℕ

abbrev pub partial : ℕ → ℕ → ℕ → ℕ → Option Partial
partial value after low high =
    some (record { value = value; after = after; low = low; high = high })

-- what the first byte of a longer character begins
abbrev pub begin : ℕ → Option Partial
begin b =
    if leb 194 b && leb b 223
    then partial (b - 192) 0 128 191
    else (if b == 224
        then partial 0 1 160 191
        else (if (leb 225 b && leb b 236) || (leb 238 b && leb b 239)
            then partial (b - 224) 1 128 191
            else (if b == 237
                then partial 13 1 128 159
                else (if b == 240
                    then partial 0 2 144 191
                    else (if leb 241 b && leb b 243
                        then partial (b - 240) 2 128 191
                        else (if b == 244 then partial 4 2 128 143 else none))))))

abbrev pub cons_char : Option ℕ → Option String → Option String
cons_char none rest = rest
cons_char (some n) rest = and_then (char_of n) λ c. map_some (λ s. String.◌∷◌ c s) rest

-- a byte at the start of a character, or within one: the character that goes on, and the number of one
-- that ends
abbrev pub start_byte : ℕ → Option (Option Partial × Option ℕ)
start_byte b = if ltb b 128 then some (none, some b) else map_some (λ p. (some p, none)) (begin b)

abbrev pub next_byte : ℕ → ℕ → Option Partial × Option ℕ
next_byte value zero = (none, some value)
next_byte value (suc after) =
    (some (record { value = value; after = after; low = 128; high = 191 }), none)

abbrev pub take_byte : Option Partial → ℕ → Option (Option Partial × Option ℕ)
take_byte none b = start_byte b
take_byte (some p) b =
    if leb p.low b && leb b p.high
    then some (next_byte (p.value * 64 + (b - 128)) p.after)
    else none

unfoldable pub from_utf8_at : Option Partial → List ℕ → Option String
unfolding char_of
from_utf8_at none [] = some ""
from_utf8_at (some p) [] = none
from_utf8_at state (b ∷ bs) =
    and_then (take_byte state b) λ (state', ended). cons_char ended (from_utf8_at state' bs)

unfoldable pub from_utf8 : List ℕ → Option String
unfolding from_utf8_at
from_utf8 bytes = from_utf8_at none bytes
