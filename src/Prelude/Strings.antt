-- ===== src/Prelude/Strings.antt =====
-- The operations of Rust's `str` that the program calls, by clauses on the characters of a text.
mod Tests
use Prim.Native.Char.{Char, code}
use Prim.Native.String.{◌++◌ as ◌<>◌}
use dyninfer.Prelude.{
  ℕ, ◌+◌, ◌*◌, ◌-◌, ◌^◌, String, Bool, true, false, ◌&&◌, ◌||◌, Option, none, some, List, [], ◌∷◌,
  any, str_eq, if◌then◌else◌, ◌==◌, leb, ltb,
}

abbrev is_space : ℕ → Bool
is_space n =
    (leb 9 n && leb n 13)
    || n == 32
    || n == 133
    || n == 160
    || n == 5760
    || (leb 8192 n && leb n 8202)
    || n == 8232
    || n == 8233
    || n == 8239
    || n == 8287
    || n == 12288

abbrev cons_trimmed : Char → String → String
cons_trimmed c String.[] = if is_space (code c) then "" else String.◌∷◌ c ""
cons_trimmed c (String.◌∷◌ d s) = String.◌∷◌ c (String.◌∷◌ d s)

abbrev trim_end : String → String
trim_end String.[] = ""
trim_end (String.◌∷◌ c s) = cons_trimmed c (trim_end s)

abbrev trim_start : String → String
trim_start String.[] = ""
trim_start (String.◌∷◌ c s) =
    let rest = trim_start s in if is_space (code c) then rest else String.◌∷◌ c s

-- `trim()`
unfoldable pub trim : String → String
trim s = trim_end (trim_start s)

unfoldable pub is_empty_text : String → Bool
is_empty_text String.[] = true
is_empty_text (String.◌∷◌ c s) = false

-- the letter in the second text at the place of the character in the first
abbrev letter_in : String → String → Char → Char
letter_in String.[] lower c = c
letter_in (String.◌∷◌ u upper) String.[] c = c
letter_in (String.◌∷◌ u upper) (String.◌∷◌ l lower) c =
    if code u == code c then l else letter_in upper lower c

unfoldable pub to_ascii_lowercase : String → String
to_ascii_lowercase String.[] = ""
to_ascii_lowercase (String.◌∷◌ c s) =
    String.◌∷◌ (letter_in "ABCDEFGHIJKLMNOPQRSTUVWXYZ" "abcdefghijklmnopqrstuvwxyz" c)
      (to_ascii_lowercase s)

abbrev pub eq_ignore_ascii_case : String → String → Bool
eq_ignore_ascii_case s t = str_eq (to_ascii_lowercase s) (to_ascii_lowercase t)

abbrev cons_some : Char → Option String → Option String
cons_some c none = none
cons_some c (some s) = some (String.◌∷◌ c s)

unfoldable pub strip_suffix : String → String → Option String
strip_suffix String.[] t = if str_eq "" t then some "" else none
strip_suffix (String.◌∷◌ c s) t =
    let rest = strip_suffix s t in if str_eq (String.◌∷◌ c s) t then some "" else cons_some c rest

unfoldable pub strip_prefix : String → String → Option String
strip_prefix s String.[] = some s
strip_prefix String.[] (String.◌∷◌ d t) = none
strip_prefix (String.◌∷◌ c s) (String.◌∷◌ d t) = if code c == code d then strip_prefix s t else none

abbrev is_some_text : Option String → Bool
is_some_text none = false
is_some_text (some s) = true

abbrev pub ends_with : String → String → Bool
ends_with s t = is_some_text (strip_suffix s t)

abbrev pub starts_with : String → String → Bool
starts_with s t = is_some_text (strip_prefix s t)

unfoldable pub contains_text : String → String → Bool
unfolding strip_prefix
contains_text String.[] t = is_some_text (strip_prefix "" t)
contains_text (String.◌∷◌ c s) t =
    is_some_text (strip_prefix (String.◌∷◌ c s) t) || contains_text s t

abbrev cons_first : Char → Option (String × String) → Option (String × String)
cons_first c none = none
cons_first c (some (s, t)) = some (String.◌∷◌ c s, t)

-- `split_once('.')`
unfoldable pub split_at_dot : String → Option (String × String)
split_at_dot String.[] = none
split_at_dot (String.◌∷◌ c s) =
    let rest = split_at_dot s in if code c == 46 then some ("", s) else cons_first c rest

abbrev digit_step : ℕ → ℕ → Option ℕ → Option ℕ
digit_step bound d none = none
digit_step bound d (some n) = if ltb (n * 10 + d) bound then some (n * 10 + d) else none

-- the digits after a value read so far; a value that reaches the bound is an overflow
abbrev digits_from : ℕ → Option ℕ → String → Option ℕ
digits_from bound n String.[] = n
digits_from bound n (String.◌∷◌ c s) =
    digits_from bound
      (if leb 48 (code c) && leb (code c) 57 then digit_step bound (code c - 48) n else none) s

abbrev digits_or_none : ℕ → String → Option ℕ
digits_or_none bound String.[] = none
digits_or_none bound (String.◌∷◌ c s) = digits_from bound (some 0) (String.◌∷◌ c s)

-- `parse::<u32>()`, which takes a leading plus sign
unfoldable pub parse_u32 : String → Option ℕ
parse_u32 String.[] = none
parse_u32 (String.◌∷◌ c s) =
    if code c == 43 then digits_or_none (2 ^ 32) s else digits_or_none (2 ^ 32) (String.◌∷◌ c s)
