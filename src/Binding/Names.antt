-- ===== src/Binding/Names.antt =====
-- How crates/dyninfer-binding/src/lib.rs resolves the name of a slot.
use mathlib.Core.Path.{subst}
use dyninfer.Prelude.{
  String, ◌≡◌, ◌∙◌, refl, sym, ◌⊎◌, inl, inr, Option, none, some, List, [], ◌∷◌, Memᴰ, All, str_eq,
  str_eq_iff, Bool-cases, Option-cases, if◌then◌else◌,
}
use dyninfer.Prelude.Assoc.{get, insert, or_insert, or_insert_absent, or_insert_present}
use dyninfer.Checkpoint.Catalog.{LogicalParameter}
use dyninfer.Binding.{insert_names, insert_aliases, insert_all_aliases, by_name}

abbrev Names : Type 0
Names = List (String × LogicalParameter)

-- the parameter is one of the list and has the name, or has it as an alias
abbrev pub Named : List LogicalParameter → String → LogicalParameter → Type 0
Named ps name p = Memᴰ p ps × (p.canonical_name ≡ name)

abbrev pub Aliased : List LogicalParameter → String → LogicalParameter → Type 0
Aliased ps name p = Memᴰ p ps × Memᴰ name p.aliases

not_in_cons :
    (name a : String) (rest : List String)
    → ¬ (a ≡ name)
    → ¬ Memᴰ name rest
    → ¬ Memᴰ name (a ∷ rest)
not_in_cons name a rest h k (Memᴰ.head e) = h (sym e)
not_in_cons name a rest h k (Memᴰ.tail m) = k m

empty_get : (name : String) {p : LogicalParameter} → get {V = LogicalParameter} [] name ≡ some p → ⊥
unfolding get
empty_get name h = cc

-- what `insert` and `or_insert` answer
get-insert :
    (m : Names) (key k : String) (v : LogicalParameter) (o : Option LogicalParameter)
    → get (insert m key v) k ≡ o
    → ((key ≡ k) × (o ≡ some v)) ⊎ ((¬ (key ≡ k)) × (get m k ≡ o))
unfolding get
get-insert m key k v o h = elim (Bool-cases (str_eq key k)) [
  | inl e ↦ inl ((str_eq_iff key k).0 e, sym h ∙ (rw e refl))
  | inr e ↦ inr (
    (λ q. let t = (str_eq_iff key k).1 q in absurd (cc)),
    (let f : get m k ≡ (if str_eq key k then some v else get m k) = rw e refl in f ∙ h),
  )
]

get-or_insert :
    (m : Names) (key k : String) (v : LogicalParameter) (o : Option LogicalParameter)
    → get (or_insert m key v) k ≡ o
    → (get m k ≡ o × ((get m k ≡ none) → ¬ (key ≡ k)))
      ⊎ ((get m k ≡ none) × (key ≡ k) × (o ≡ some v))
get-or_insert m key k v o h = elim (Option-cases (get m key)) [
  | inl e ↦
      let f = subst (λ x. get x k ≡ o) (or_insert_absent m key v e) h in
      elim (get-insert m key k v o f) [
        | inl q ↦ inr (subst (λ n. get m n ≡ none) q.0 e, q.0, q.1)
        | inr q ↦ inl (q.1, λ u. q.0)
      ]
  | inr (w, e) ↦
      let f = subst (λ x. get x k ≡ o) (or_insert_present m key v e) h in
      inl (f, λ n r. let g = subst (λ x. get m x ≡ some w) r e in absurd (cc))
]

insert_names_lem :
    (m : Names) (ps : List LogicalParameter) (name : String) (o : Option LogicalParameter)
    → get (insert_names m ps) name ≡ o
    → ((p : LogicalParameter) × (o ≡ some p) × Named ps name p)
      ⊎ ((get m name ≡ o) × All (λ q. ¬ (q.canonical_name ≡ name)) ps)
unfolding insert_names
insert_names_lem m [] name o h = inr (h, tt)
insert_names_lem m (p ∷ ps) name o h =
    elim (insert_names_lem (insert m p.canonical_name p) ps name o h) [
      | inl (q, e, n) ↦ inl (q, e, (Memᴰ.tail n.0, n.1))
      | inr (e, none_later) ↦ elim (get-insert m p.canonical_name name p o e) [
        | inl q ↦ inl (p, q.1, (Memᴰ.head refl, q.0))
        | inr q ↦ inr (q.1, (q.0, none_later))
      ]
    ]

-- the old value, or a missing one and a parameter that has the alias
abbrev Added : Names → List LogicalParameter → String → Option LogicalParameter → Type 0
Added m ps name o =
    ((get m name ≡ o) × (o ≡ none → All (λ (q : LogicalParameter). ¬ Memᴰ name q.aliases) ps))
    ⊎ ((get m name ≡ none) × (p : LogicalParameter) × (o ≡ some p) × Aliased ps name p)

insert_aliases_lem :
    (m : Names) (p : LogicalParameter) (aliases : List String) (name : String)
    (o : Option LogicalParameter)
    → get (insert_aliases m p aliases) name ≡ o
    → ((get m name ≡ o) × (o ≡ none → ¬ Memᴰ name aliases))
      ⊎ ((get m name ≡ none) × (o ≡ some p) × Memᴰ name aliases)
unfolding insert_aliases
insert_aliases_lem m p [] name o h = inl (h, λ e n. elim n [ ])
insert_aliases_lem m p (a ∷ rest) name o h =
    elim (insert_aliases_lem (or_insert m a p) p rest name o h) [
      | inl (e, later) ↦ elim (get-or_insert m a name p o e) [
        | inl q ↦ inl (q.0, λ n. not_in_cons name a rest (q.1 (q.0 ∙ n)) (later n))
        | inr q ↦ inr (q.0, q.2, Memᴰ.head (sym q.1))
      ]
      | inr (e, f, n) ↦ elim (get-or_insert m a name p none e) [
        | inl q ↦ inr (q.0, f, Memᴰ.tail n)
        | inr q ↦ let x = q.2 in absurd (cc)
      ]
    ]

insert_all_aliases_lem :
    (m : Names) (ps : List LogicalParameter) (name : String) (o : Option LogicalParameter)
    → get (insert_all_aliases m ps) name ≡ o
    → Added m ps name o
unfolding insert_all_aliases
insert_all_aliases_lem m [] name o h = inl (h, λ e. tt)
insert_all_aliases_lem m (p ∷ ps) name o h =
    elim (insert_all_aliases_lem (insert_aliases m p p.aliases) ps name o h) [
      | inl (e, later) ↦ elim (insert_aliases_lem m p p.aliases name o e) [
        | inl q ↦ inl (q.0, λ n. (q.1 n, later n))
        | inr q ↦ inr (q.0, p, q.1, (Memᴰ.head refl, q.2))
      ]
      | inr (e, r, f, n) ↦ elim (insert_aliases_lem m p p.aliases name none e) [
        | inl q ↦ inr (q.0, r, f, (Memᴰ.tail n.0, n.1))
        | inr q ↦ let x = q.1 in absurd (cc)
      ]
    ]

no_name :
    (ps : List LogicalParameter) (name : String)
    → get (insert_names [] ps) name ≡ none
    → All (λ (q : LogicalParameter). ¬ (q.canonical_name ≡ name)) ps
no_name ps name e = elim (insert_names_lem [] ps name none e) [
  | inl (q, f, n) ↦ absurd (cc)
  | inr r ↦ r.1
]

-- What a name stands for: a parameter whose canonical name it is, or, where no parameter has that name,
-- one that has it as an alias. A name stands for nothing exactly where no parameter has it as its name or
-- as an alias.
pub by_name_lem :
    (ps : List LogicalParameter) (name : String)
    → ((p : LogicalParameter)
        → get (by_name ps) name ≡ some p
        → Named ps name p
          ⊎ (All (λ (q : LogicalParameter). ¬ (q.canonical_name ≡ name)) ps × Aliased ps name p))
      × (get (by_name ps) name ≡ none
          → All (λ (q : LogicalParameter). ¬ (q.canonical_name ≡ name)) ps
            × All (λ (q : LogicalParameter). ¬ Memᴰ name q.aliases) ps)
unfolding by_name
by_name_lem ps name = (
  λ p h. elim (insert_all_aliases_lem (insert_names [] ps) ps name (some p) h) [
    | inl (e, _) ↦ elim (insert_names_lem [] ps name (some p) e) [
      | inl (q, f, n) ↦ let same : q ≡ p = cc in inl (subst (λ x. Named ps name x) same n)
      | inr (e', _) ↦ absurd (empty_get name e')
    ]
    | inr (e, q, f, n) ↦
        let same : q ≡ p = cc in inr (no_name ps name e, subst (λ x. Aliased ps name x) same n)
  ],
  λ h. elim (insert_all_aliases_lem (insert_names [] ps) ps name none h) [
    | inl (e, later) ↦ (no_name ps name e, later refl)
    | inr (e, q, f, n) ↦ absurd (cc)
  ],
)
