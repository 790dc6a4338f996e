-- ===== src/Prelude/Eq.antt =====
-- Derived equality (`PartialEq`) as an interface, and `contains` of a slice.
use dyninfer.Prelude.{
  ℕ, String, ◌≡◌, ◌↔◌, refl, Bool, true, false, Option, none, some, List, [], ◌∷◌, Memᴰ, arith,
  ◌==◌, ==_iff, str_eq, str_eq_iff, any, any-mem, Bool-cases, inl, inr,
}

-- the derived test, and that it is equality
pub record Eq {ℓ} (T : Type ℓ) : Type ℓ where
  pub beq : T → T → Bool
  pub beq_iff : (x y : T) → (beq x y ≡ true) ↔ (x ≡ y)

-- `PartialEq for String`
instance abbrev pub string_eq : Eq String
string_eq = record { beq_iff = str_eq_iff; beq = str_eq }

abbrev pub eq {ℓ} : {T : Type ℓ} ⦃derived : Eq T⦄ → T → T → Bool
eq ⦃derived⦄ x y = derived.beq x y

-- `PartialEq for u64`
instance abbrev pub nat_eq : Eq ℕ
nat_eq = record { beq_iff = ==_iff; beq = ◌==◌ }

module _ {ℓ} {A : Type ℓ} ⦃e : Eq A⦄ where
  abbrev pub option_beq : Option A → Option A → Bool
  option_beq none none = true
  option_beq none (some b) = false
  option_beq (some a) none = false
  option_beq (some a) (some b) = e.beq a b

  pub option_beq_iff : (o p : Option A) → (option_beq o p ≡ true) ↔ (o ≡ p)
  option_beq_iff none none = (λ h. refl, λ h. refl)
  option_beq_iff none (some b) = (λ h. cc, λ h. cc)
  option_beq_iff (some a) none = (λ h. cc, λ h. cc)
  option_beq_iff (some a) (some b) = let r = e.beq_iff a b in (λ h. cc (r.0 h), λ h. r.1 (cc))

  instance abbrev pub option_eq : Eq (Option A)
  option_eq = record { beq = option_beq; beq_iff = option_beq_iff }

  -- `xs.contains(&a)`
  abbrev pub contains : List A → A → Bool
  contains xs a = any (e.beq a) xs

  pub mem_of_contains : (xs : List A) (a : A) → contains xs a ≡ true → Memᴰ a xs
  mem_of_contains [] a h = absurd (cc)
  mem_of_contains (x ∷ xs) a h = elim (Bool-cases (e.beq a x)) [
    | inl q ↦ Memᴰ.head ((e.beq_iff a x).0 q)
    | inr q ↦ Memᴰ.tail (mem_of_contains xs a (ground arith))
  ]

  pub contains_of_mem : (xs : List A) (a : A) → Memᴰ a xs → contains xs a ≡ true
  contains_of_mem xs a m = any-mem (e.beq a) m ((e.beq_iff a a).1 refl)

  pub contains_iff : (xs : List A) (a : A) → (contains xs a ≡ true) ↔ Memᴰ a xs
  contains_iff xs a = (mem_of_contains xs a, contains_of_mem xs a)
