-- ===== src/Prelude/Sort.antt =====
-- Rust's stable `sort_by`: `leq a b` is `cmp(a, b) != Greater`. A stable sort has one result, which
-- insertion from the right computes. Its order, its elements, and its least element.
use mathlib.Core.List.Perm
use mathlib.Core.List.{Perm}
use mathlib.Core.Path.{subst, refl, ap, ◌∙◌}
use dyninfer.Prelude.{
  ◌++◌, All-append, length, suc, ◌≡◌, inl, inr, Bool, true, false, List, [], ◌∷◌, Memᴰ, Bool-cases,
  if◌then◌else◌, All, All-imp, All-of-mem, All-mem, none, some, first, first-mem, first-none,
}

-- every two elements are related, the earlier to the later
abbrev pub Pairwise {ℓ κ} : {A : Type ℓ} → (A → A → Type κ) → List A → Type κ
Pairwise R [] = Unit
Pairwise R (x ∷ xs) = All (R x) xs × Pairwise R xs

pub Pairwise-append {ℓ κ} :
    {A : Type ℓ} (R : A → A → Type κ) (xs : List A) (d : A)
    → Pairwise R xs
    → All (λ x. R x d) xs
    → Pairwise R (xs ++ d ∷ [])
Pairwise-append R [] d h k = (tt, tt)
Pairwise-append R (x ∷ xs) d h k =
    (All-append (R x) xs (d ∷ []) h.0 (k.0, tt), Pairwise-append R xs d h.1 k.1)

module _ {ℓ} {A : Type ℓ} (leq : A → A → Bool) where
  unfoldable pub insert : A → List A → List A
  insert x [] = x ∷ []
  insert x (y ∷ ys) = let rest = insert x ys in if leq x y then x ∷ y ∷ ys else y ∷ rest

  unfoldable pub sort : List A → List A
  unfolding insert
  sort [] = []
  sort (x ∷ xs) = insert x (sort xs)

  -- each element is at most every later one
  abbrev pub IsSorted : List A → Type ℓ
  IsSorted [] = Unit
  IsSorted (x ∷ xs) = All (λ y. leq x y ≡ true) xs × IsSorted xs

  All-insert {κ} : (P : A → Type κ) (x : A) (ys : List A) → P x → All P ys → All P (insert x ys)
  unfolding insert
  All-insert P x [] p h = (p, tt)
  All-insert P x (y ∷ ys) p h = elim (Bool-cases (leq x y)) [
    | inl e ↦ rw e (p, h)
    | inr e ↦ rw e (h.0, All-insert P x ys p h.1)
  ]

  pub All-sort {κ} : (P : A → Type κ) (xs : List A) → All P xs → All P (sort xs)
  unfolding sort
  All-sort P [] h = tt
  All-sort P (x ∷ xs) h = All-insert P x (sort xs) h.0 (All-sort P xs h.1)

  insert-perm : (x : A) (ys : List A) → Perm (insert x ys) (x ∷ ys)
  unfolding insert
  insert-perm x [] = Perm.refl (x ∷ [])
  insert-perm x (y ∷ ys) = elim (Bool-cases (leq x y)) [
    | inl e ↦ rw e (Perm.refl (x ∷ y ∷ ys))
    | inr e ↦ rw e (Perm.trans (Perm.cons y (insert-perm x ys)) (Perm.swap x y ys))
  ]

  pub sort-perm : (xs : List A) → Perm (sort xs) xs
  unfolding sort
  sort-perm [] = Perm.refl []
  sort-perm (x ∷ xs) = Perm.trans (insert-perm x (sort xs)) (Perm.cons x (sort-perm xs))

  mem-swap :
      {a : A} (x y : A) (ys zs : List A)
      → (Memᴰ a (x ∷ ys) → Memᴰ a zs)
      → Memᴰ a (x ∷ y ∷ ys)
      → Memᴰ a (y ∷ zs)
  mem-swap x y ys zs f (Memᴰ.head p) = Memᴰ.tail (f (Memᴰ.head p))
  mem-swap x y ys zs f (Memᴰ.tail (Memᴰ.head p)) = Memᴰ.head p
  mem-swap x y ys zs f (Memᴰ.tail (Memᴰ.tail q)) = Memᴰ.tail (f (Memᴰ.tail q))

  mem-insert : {a : A} (x : A) (ys : List A) → Memᴰ a (x ∷ ys) → Memᴰ a (insert x ys)
  unfolding insert
  mem-insert x [] m = m
  mem-insert x (y ∷ ys) m = elim (Bool-cases (leq x y)) [
    | inl e ↦ rw e m
    | inr e ↦ rw e (mem-swap x y ys (insert x ys) (mem-insert x ys) m)
  ]

  pub mem-sort : {a : A} (xs : List A) → Memᴰ a xs → Memᴰ a (sort xs)
  unfolding sort
  mem-sort [] m = elim m [ ]
  mem-sort (x ∷ xs) (Memᴰ.head p) = mem-insert x (sort xs) (Memᴰ.head p)
  mem-sort (x ∷ xs) (Memᴰ.tail q) = mem-insert x (sort xs) (Memᴰ.tail (mem-sort xs q))

  pub mem_of_mem-sort : {a : A} (xs : List A) → Memᴰ a (sort xs) → Memᴰ a xs
  mem_of_mem-sort xs m =
      All-mem (λ b. Memᴰ b xs)
        (All-sort (λ b. Memᴰ b xs) xs (All-of-mem (λ b. Memᴰ b xs) xs (λ b q. q))) m

  -- a symmetric relation between all pairs stays one
  module _ {κ} (R : A → A → Type κ) (symmetric : (a b : A) → R a b → R b a) where
    Pairwise-insert :
        (x : A) (ys : List A) → All (R x) ys → Pairwise R ys → Pairwise R (insert x ys)
    unfolding insert
    Pairwise-insert x [] h k = (tt, tt)
    Pairwise-insert x (y ∷ ys) h k = elim (Bool-cases (leq x y)) [
      | inl e ↦ rw e (h, k)
      | inr e ↦ rw e (All-insert (R y) x ys (symmetric x y h.0) k.0, Pairwise-insert x ys h.1 k.1)
    ]

    pub Pairwise-sort : (xs : List A) → Pairwise R xs → Pairwise R (sort xs)
    unfolding sort
    Pairwise-sort [] h = tt
    Pairwise-sort (x ∷ xs) h =
        Pairwise-insert x (sort xs) (All-sort (R x) xs h.0) (Pairwise-sort xs h.1)

  length-insert : (x : A) (ys : List A) → length (insert x ys) ≡ suc (length ys)
  unfolding insert
  length-insert x [] = refl
  length-insert x (y ∷ ys) = elim (Bool-cases (leq x y)) [
    | inl e ↦ rw e refl
    | inr e ↦ rw e (ap suc (length-insert x ys))
  ]

  pub length-sort : (xs : List A) → length (sort xs) ≡ length xs
  unfolding sort
  length-sort [] = refl
  length-sort (x ∷ xs) = length-insert x (sort xs) ∙ ap suc (length-sort xs)

  -- and what the sorted list has, the list itself has
  module _ {κ} (R : A → A → Type κ) (symmetric : (a b : A) → R a b → R b a) where
    Pairwise-of_insert :
        (x : A) (ys : List A) → Pairwise R (insert x ys) → All (R x) ys × Pairwise R ys
    unfolding insert
    Pairwise-of_insert x [] h = (tt, tt)
    Pairwise-of_insert x (y ∷ ys) h = elim (Bool-cases (leq x y)) [
      | inl e ↦ let k : Pairwise R (x ∷ y ∷ ys) = rw e at h in k
      | inr e ↦
          let k : Pairwise R (y ∷ insert x ys) = rw e at h in
          let (first_all, rest) = Pairwise-of_insert x ys k.1 in
          let later =
            All-of-mem (R y) ys (λ z m. All-mem (R y) k.0 (mem-insert x ys (Memᴰ.tail m))) in
          let here = All-mem (R y) k.0 (mem-insert x ys (Memᴰ.head refl)) in
          ((symmetric y x here, first_all), (later, rest))
    ]

    pub Pairwise-of_sort : (xs : List A) → Pairwise R (sort xs) → Pairwise R xs
    unfolding sort
    Pairwise-of_sort [] h = tt
    Pairwise-of_sort (x ∷ xs) h =
        let (first_all, rest) = Pairwise-of_insert x (sort xs) h in
        (
          All-of-mem (R x) xs (λ z m. All-mem (R x) first_all (mem-sort xs m)),
          Pairwise-of_sort xs rest,
        )

  module _ (total : (a b : A) → leq a b ≡ false → leq b a ≡ true)
      (trans : (a b c : A) → leq a b ≡ true → leq b c ≡ true → leq a c ≡ true) where
    insert-IsSorted : (x : A) (ys : List A) → IsSorted ys → IsSorted (insert x ys)
    unfolding insert
    insert-IsSorted x [] h = (tt, tt)
    insert-IsSorted x (y ∷ ys) h = elim (Bool-cases (leq x y)) [
      | inl e ↦
          rw e (
            (e, All-imp (λ z. leq y z ≡ true) (λ z. leq x z ≡ true) (λ z. trans x y z e) ys h.0),
            h,
          )
      | inr e ↦
          rw e (All-insert (λ z. leq y z ≡ true) x ys (total x y e) h.0, insert-IsSorted x ys h.1)
    ]

    pub sort-IsSorted : (xs : List A) → IsSorted (sort xs)
    unfolding sort
    sort-IsSorted [] = tt
    sort-IsSorted (x ∷ xs) = insert-IsSorted x (sort xs) (sort-IsSorted xs)

    leq_refl : (a : A) → leq a a ≡ true
    leq_refl a = elim (Bool-cases (leq a a)) [ inl e ↦ e | inr e ↦ total a a e ]

    first_of_sorted :
        (ys : List A) {x : A} → IsSorted ys → first ys ≡ some x → All (λ y. leq x y ≡ true) ys
    first_of_sorted [] h e = absurd (cc)
    first_of_sorted (y ∷ ys) {x} h e =
        let p : y ≡ x = cc in subst (λ z. All (λ w. leq z w ≡ true) (y ∷ ys)) p (leq_refl y, h.0)

    -- the head of the sorted list is a least element of the list
    pub first-sort :
        (xs : List A) {x : A} → first (sort xs) ≡ some x → Memᴰ x xs × All (λ y. leq x y ≡ true) xs
    first-sort xs {x} e =
        let least = first_of_sorted (sort xs) (sort-IsSorted xs) e in
        (
          mem_of_mem-sort xs (first-mem (sort xs) e),
          All-of-mem (λ y. leq x y ≡ true) xs
              (λ y m. All-mem (λ y. leq x y ≡ true) least (mem-sort xs m)),
        )

    pub first-sort-none : (xs : List A) {x : A} → first (sort xs) ≡ none → Memᴰ x xs → ⊥
    first-sort-none xs e m = first-none (sort xs) e (mem-sort xs m)
