-- ===== src/Architecture/Verify/Checks.antt =====
-- What the small loops of `verify_architecture_graph`, in crates/dyninfer-architecture/src/builder.rs, test.
use dyninfer.Prelude.{
  String, ◌≡◌, ◌≢◌, ◌↔◌, ◌∙◌, refl, ap, ◌⊎◌, inl, inr, Bool, true, false, not, ◌||◌, List, [], ◌∷◌,
  ◌++◌, Memᴰ, All, Result, ok, ◌>>=◌, ◌>>◌, >>=-eq-ok, guard, Bool-cases,
}
use dyninfer.Prelude.Sort.{Pairwise}
use dyninfer.Prelude.Eq.{contains, contains_iff, string_eq}
use dyninfer.Architecture.Errors.{ArchitectureError, unknown_output, multiple_producers}
use dyninfer.Architecture.Verify.{insert_new, require_known, add_outputs}

module _ {E A : Type 0} where
  pub guard_iff :
      (b : Bool) (e : E) (m : Result E A) {a : A}
      → ((guard b e >> m) ≡ ok a) ↔ ((b ≡ true) × (m ≡ ok a))
  guard_iff true e m = (λ h. (refl, h), λ h. h.1)
  guard_iff false e m = (λ h. absurd (cc), λ h. absurd (cc))

  pub bind_iff :
      {B : Type 0} (m : Result E B) (f : B → Result E A) {a : A}
      → ((m >>= f) ≡ ok a) ↔ ((b : B) × (m ≡ ok b) × (f b ≡ ok a))
  bind_iff m f = (λ h. >>=-eq-ok m f h, λ h. ap (λ r. r >>= f) h.1 ∙ h.2)

pub not-contains_iff :
    (set : List String) (id : String) → (not (contains set id) ≡ true) ↔ (Memᴰ id set → ⊥)
not-contains_iff set id = elim (Bool-cases (contains set id)) [
  | inl e ↦ (λ h. absurd (cc), λ h. absurd (h ((contains_iff set id).0 e)))
  | inr e ↦ (λ h m. let t = (contains_iff set id).1 m in cc, λ h. ap not e)
]

abbrev pub Known : List String → List String → Type 0
Known set ids = All (λ id. Memᴰ id set) ids

pub require_known_iff :
    (error : String → ArchitectureError) (set ids : List String)
    → (require_known error set ids ≡ ok tt) ↔ Known set ids
unfolding require_known
require_known_iff error set [] = (λ h. tt, λ h. refl)
require_known_iff error set (id ∷ ids) =
    let now = guard_iff (contains set id) (error id) (require_known error set ids) in
    let here = contains_iff set id in
    let rest = require_known_iff error set ids in
    (λ h. let r = now.0 h in (here.0 r.0, rest.0 r.1), λ h. now.1 (here.1 h.0, rest.1 h.1))

-- the ids put before the set, one after the other
abbrev pub onto : List String → List String → List String
onto set [] = set
onto set (id ∷ ids) = onto (id ∷ set) ids

-- each id is new to the set and to the ids before it
abbrev pub Fresh : List String → List String → Type 0
Fresh set [] = Unit
Fresh set (id ∷ ids) = (Memᴰ id set → ⊥) × Fresh (id ∷ set) ids

pub insert_new_iff :
    (error : String → ArchitectureError) (set ids set' : List String)
    → (insert_new error set ids ≡ ok set') ↔ (Fresh set ids × (onto set ids ≡ set'))
unfolding insert_new
insert_new_iff error set [] set' = (λ h. (tt, cc), λ h. ap ok h.1)
insert_new_iff error set (id ∷ ids) set' =
    let now = guard_iff (not (contains set id)) (error id) (insert_new error (id ∷ set) ids) in
    let here = not-contains_iff set id in
    let rest = insert_new_iff error (id ∷ set) ids set' in
    (
      λ h. let r = now.0 h in let q = rest.0 r.1 in ((here.0 r.0, q.0), q.1),
      λ h. now.1 (here.1 h.0.0, rest.1 (h.0.1, h.1)),
    )

pub add_outputs_iff :
    (op : String) (known produced ids set' : List String)
    → (add_outputs op known produced ids ≡ ok set')
      ↔ (Known known ids × Fresh produced ids × (onto produced ids ≡ set'))
unfolding add_outputs
add_outputs_iff op known produced [] set' = (λ h. (tt, tt, cc), λ h. ap ok h.2)
add_outputs_iff op known produced (id ∷ ids) set' =
    let more = add_outputs op known (id ∷ produced) ids in
    let first =
      guard_iff (contains known id) (unknown_output op id)
        (guard (not (contains produced id)) (multiple_producers id) >> more) in
    let second = guard_iff (not (contains produced id)) (multiple_producers id) more in
    let is_known = contains_iff known id in
    let is_new = not-contains_iff produced id in
    let rest = add_outputs_iff op known (id ∷ produced) ids set' in
    (
      λ h.
          let r = first.0 h in
          let s = second.0 r.1 in
          let q = rest.0 s.1 in ((is_known.0 r.0, q.0), (is_new.0 s.0, q.1), q.2),
      λ h. first.1 (is_known.1 h.0.0, second.1 (is_new.1 h.1.0, rest.1 (h.0.1, h.1.1, h.2))),
    )

pub mem-onto :
    {id : String} (set ids : List String) → Memᴰ id (onto set ids) ↔ (Memᴰ id set ⊎ Memᴰ id ids)
mem-onto set [] = (λ h. inl h, λ h. elim h [ inl m ↦ m | inr m ↦ elim m [ ] ])
mem-onto set (id ∷ ids) =
    let rest = mem-onto (id ∷ set) ids in
    (
      λ h. elim (rest.0 h) [
        | inl m ↦ elim m [ Memᴰ.head e ↦ inr (Memᴰ.head e) | Memᴰ.tail n ↦ inl n ]
        | inr m ↦ inr (Memᴰ.tail m)
      ],
      λ h. elim h [
        | inl m ↦ rest.1 (inl (Memᴰ.tail m))
        | inr m ↦ elim m [ Memᴰ.head e ↦ rest.1 (inl (Memᴰ.head e)) | Memᴰ.tail n ↦ rest.1 (inr n) ]
      ],
    )

-- No two ids are equal.
abbrev pub Unique : List String → Type 0
Unique ids = Pairwise (λ x y. x ≢ y) ids

pub or_iff : (a b : Bool) → ((a || b) ≡ true) ↔ ((a ≡ true) ⊎ (b ≡ true))
or_iff true b = (λ h. inl refl, λ h. refl)
or_iff false b = (λ h. inr h, λ h. elim h [ inl e ↦ absurd (cc) | inr e ↦ e ])

pub imp_iff : (a b : Bool) → ((not a || b) ≡ true) ↔ (a ≡ true → b ≡ true)
imp_iff true b = (λ h e. h, λ h. h refl)
imp_iff false b = (λ h e. cc, λ h. refl)

pub Fresh-append :
    (set xs ys : List String) → Fresh set (xs ++ ys) ↔ (Fresh set xs × Fresh (onto set xs) ys)
Fresh-append set [] ys = (λ h. (tt, h), λ h. h.1)
Fresh-append set (x ∷ xs) ys =
    let r = Fresh-append (x ∷ set) xs ys in
    (λ h. let q = r.0 h.1 in ((h.0, q.0), q.1), λ h. (h.0.0, r.1 (h.0.1, h.1)))

pub onto-append : (set xs ys : List String) → onto set (xs ++ ys) ≡ onto (onto set xs) ys
onto-append set [] ys = refl
onto-append set (x ∷ xs) ys = onto-append (x ∷ set) xs ys
