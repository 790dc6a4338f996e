-- ===== src/Prelude/Membership.antt =====
-- Membership in appended lists.
use dyninfer.Prelude.{List, [], ◌∷◌, ◌++◌, Memᴰ, ◌⊎◌, inl, inr}

module _ {ℓ} {A : Type ℓ} where
  pub mem-append_parts : {id : A} (xs ys : List A) → Memᴰ id (xs ++ ys) → Memᴰ id xs ⊎ Memᴰ id ys
  mem-append_parts [] ys m = inr m
  mem-append_parts (x ∷ xs) ys (Memᴰ.head e) = inl (Memᴰ.head e)
  mem-append_parts (x ∷ xs) ys (Memᴰ.tail m) = elim (mem-append_parts xs ys m) [
    | inl n ↦ inl (Memᴰ.tail n)
    | inr n ↦ inr n
  ]

  pub mem-append_left : {id : A} (xs ys : List A) → Memᴰ id xs → Memᴰ id (xs ++ ys)
  mem-append_left [] ys m = elim m [ ]
  mem-append_left (x ∷ xs) ys (Memᴰ.head e) = Memᴰ.head e
  mem-append_left (x ∷ xs) ys (Memᴰ.tail m) = Memᴰ.tail (mem-append_left xs ys m)

  pub mem-append_right : {id : A} (xs ys : List A) → Memᴰ id ys → Memᴰ id (xs ++ ys)
  mem-append_right [] ys m = m
  mem-append_right (x ∷ xs) ys m = Memᴰ.tail (mem-append_right xs ys m)
