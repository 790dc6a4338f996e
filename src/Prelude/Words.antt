-- ===== src/Prelude/Words.antt =====
-- The operations of Rust's `u64` that the program uses, on numbers below 2 ^ 64.
use Prim.Native.Nat.{ℕ, zero, suc, ◌+◌, ◌-◌, ◌*◌, ◌^◌, ◌<◌, ◌≤◌, min}
use mathlib.Core.Path.{◌≡◌}
use mathlib.Core.Option.{Option, none, some}
use mathlib.Core.List.{List, [], ◌∷◌}
use native.Mathlib.Omega.{arith}
use dyninfer.Prelude.Tests.{ltb, if◌then◌else◌}

abbrev pub u64_mod : ℕ
u64_mod = 2 ^ 64

abbrev pub u64_max : ℕ
u64_max = 2 ^ 64 - 1

abbrev pub u32_max : ℕ
u32_max = 2 ^ 32 - 1

abbrev pub checked_add : ℕ → ℕ → Option ℕ
checked_add a b = if ltb (a + b) u64_mod then some (a + b) else none

abbrev pub checked_mul : ℕ → ℕ → Option ℕ
checked_mul a b = if ltb (a * b) u64_mod then some (a * b) else none

abbrev pub saturating_add : ℕ → ℕ → ℕ
saturating_add a b = if ltb (a + b) u64_mod then a + b else u64_max

unfoldable pub saturating_mul : ℕ → ℕ → ℕ
saturating_mul a b = if ltb (a * b) u64_mod then a * b else u64_max

pub checked_add-some :
    (a b : ℕ) {c : ℕ} → checked_add a b ≡ some c → (c ≡ a + b) × (a + b < u64_mod)
checked_add-some a b h = ground arith

pub checked_mul-some :
    (a b : ℕ) {c : ℕ} → checked_mul a b ≡ some c → (c ≡ a * b) × (a * b < u64_mod)
checked_mul-some a b h = ground arith

pub saturating_add-lt : (a b : ℕ) → saturating_add a b < u64_mod
saturating_add-lt a b = ground arith

mul_mono : (a b c : ℕ) → a ≤ b → a * c ≤ b * c
mul_mono a b c h = grind arith

mul_mono_right : (a b c : ℕ) → b ≤ c → a * b ≤ a * c
mul_mono_right a b c h = grind arith

pub saturating_mul_mono : (a b c : ℕ) → a ≤ b → saturating_mul a c ≤ saturating_mul b c
unfolding saturating_mul
saturating_mul_mono a b c h = ground (arith, mul_mono a b c h)

pub saturating_mul_mono_right : (a b c : ℕ) → b ≤ c → saturating_mul a b ≤ saturating_mul a c
unfolding saturating_mul
saturating_mul_mono_right a b c h = ground (arith, mul_mono_right a b c h)

-- A saturated number times another saturates where the exact product does.
pub saturating_mul-min : (a b : ℕ) → saturating_mul (min a u64_max) b ≡ min (a * b) u64_max
unfolding saturating_mul
saturating_mul-min a zero = ground arith
saturating_mul-min a (suc b) = ground (
  arith,
  mul_mono_right a 1 (suc b) (omega arith),
  mul_mono_right u64_max 1 (suc b) (omega arith),
)

-- the number that bytes give, the least significant first
unfoldable pub from_le_bytes : List ℕ → ℕ
from_le_bytes [] = 0
from_le_bytes (b ∷ bs) = b + 256 * from_le_bytes bs
