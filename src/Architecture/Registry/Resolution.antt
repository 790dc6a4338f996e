-- ===== src/Architecture/Registry/Resolution.antt =====
-- `resolve_architecture` of crates/dyninfer-architecture/src/lib.rs gives an id that is registered.
use mathlib.Core.Path.{subst}
use dyninfer.Prelude.{
  String, ◌≡◌, refl, sym, ◌∙◌, ap, Bool, true, Bool-cases, inl, inr, ◌⊎◌, arith, Option, none, some,
  List, [], ◌∷◌, Memᴰ, All, All-mem, filter, find, find-some, str_eq, str_eq_iff, Result, ok,
  ok_or-eq-ok, Option-cases, any,
}
use dyninfer.Prelude.Assoc.{get}
use dyninfer.Prelude.Strings.{trim, is_empty_text, eq_ignore_ascii_case}
use dyninfer.Architecture.Errors.{ArchitectureError}
use dyninfer.Architecture.Config.{MetadataMap}
use dyninfer.Prelude.Options.{map_some, or_else}
use dyninfer.Architecture.Remapping.{
  remap_model_type, model_type_candidates, meta_model_type_candidates,
}
use dyninfer.Architecture.Registry.{
  Definition, ArchitectureRegistry, register, registered, find_candidate, find_by_model_type,
  resolve_from_metadata, named_id, resolve_override, resolve_architecture, resolve_by_metadata,
}

ok_inj : {A : Type 0} {a b : A} → ◌≡◌ {A = Result ArchitectureError A} (ok a) (ok b) → a ≡ b
ok_inj h = cc

map_some-some :
    {A B : Type 0} (f : A → B) (o : Option A) {b : B}
    → map_some f o ≡ some b
    → (a : A) × (o ≡ some a) × (f a ≡ b)
map_some-some f none h = absurd (cc)
map_some-some f (some a) h = (a, refl, cc)

or_else-some :
    {A : Type 0} (a b : Option A) {x : A} → or_else a b ≡ some x → (a ≡ some x) ⊎ (b ≡ some x)
or_else-some none b h = inr h
or_else-some (some a) b h = inl h

find_candidate-some :
    (f : String → Option String) (cs : List String) {id : String}
    → find_candidate f cs ≡ some id
    → (c : String) × (f c ≡ some id)
find_candidate-some f [] h = absurd (cc)
find_candidate-some f (c ∷ cs) h = elim (or_else-some (f c) (find_candidate f cs) h) [
  | inl e ↦ (c, e)
  | inr e ↦ find_candidate-some f cs e
]

module _ {F : Type 0} where
  -- each entry stands under the id of its architecture
  abbrev pub Keyed : ArchitectureRegistry F → Type 0
  Keyed r = All (λ e. e.0 ≡ e.1.id) r

  abbrev pub Registered : ArchitectureRegistry F → String → Type 0
  Registered r id = (d : Definition F) × (get r id ≡ some d)

  Keyed-filter :
      (p : String × Definition F → Bool) (r : ArchitectureRegistry F) → Keyed r → Keyed (filter p r)
  Keyed-filter p [] h = tt
  Keyed-filter p (e ∷ r) h = elim (Bool-cases (p e)) [
    | inl k ↦ rw k ((h.0, Keyed-filter p r h.1))
    | inr k ↦ rw k (Keyed-filter p r h.1)
  ]

  pub register-Keyed :
      (r : ArchitectureRegistry F) (d : Definition F) → Keyed r → Keyed (register r d)
  register-Keyed r d h = (refl, Keyed-filter _ r h)

  mem-Registered :
      {key : String} {d : Definition F} (r : ArchitectureRegistry F)
      → Memᴰ (key, d) r
      → Registered r key
  unfolding get
  mem-Registered [] m = elim m [ ]
  mem-Registered {key} ((k, v) ∷ r) m = elim (Bool-cases (str_eq k key)) [
    | inl e ↦ (v, rw e)
    | inr e ↦ elim m [
      | Memᴰ.head q ↦
          let same : str_eq k key ≡ true = (str_eq_iff k key).1 (sym (ap (λ p. p.0) q)) in
          absurd (cc)
      | Memᴰ.tail n ↦ let (d, h) = mem-Registered r n in (d, rw e h)
    ]
  ]

  find_by_model_type-Registered :
      (r : ArchitectureRegistry F) (model_type : String) {id : String}
      → Keyed r
      → find_by_model_type r model_type ≡ some id
      → Registered r id
  unfolding find_by_model_type
  find_by_model_type-Registered r model_type keyed h =
      elim (Bool-cases (is_empty_text (trim model_type))) [
        | inl e ↦ absurd (cc)
        | inr e ↦
            let needle = trim model_type in
            let k : map_some (λ e. e.1.id)
                  (find (λ e. any (λ t. eq_ignore_ascii_case t needle) e.1.model_types) r)
                ≡ some _ =
              ground (arith, e, h) in
            let (entry, found, same) = map_some-some _ _ k in
            let (passes, m) = find-some _ r found in
            subst (Registered r) (All-mem _ keyed m ∙ same) (mem-Registered r m)
      ]

  registered-Registered :
      (r : ArchitectureRegistry F) (o : Option String) {id : String}
      → registered r o ≡ some id
      → (o ≡ some id) × Registered r id
  registered-Registered r none h = absurd (cc)
  registered-Registered r (some name) h =
      let (d, found, e) = map_some-some _ (get r name) h in
      (ap some e, subst (Registered r) e (d, found))

  resolve_from_metadata-Registered :
      (r : ArchitectureRegistry F) (meta : MetadataMap) {id : String}
      → Keyed r
      → resolve_from_metadata r meta ≡ ok id
      → Registered r id
  unfolding resolve_from_metadata
  resolve_from_metadata-Registered r meta keyed h =
      let (c, e) =
        find_candidate-some (find_by_model_type r) (meta_model_type_candidates meta)
          (ok_or-eq-ok _ _ h) in
      find_by_model_type-Registered r c keyed e

  resolve_override-Registered :
      (r : ArchitectureRegistry F) (meta : MetadataMap) (o : Option String) {id : String}
      → Keyed r
      → resolve_override r meta o ≡ ok id
      → Registered r id
  resolve_override-Registered r meta (some name) keyed h =
      (registered-Registered r (some name) (ok_or-eq-ok _ _ h)).1
  resolve_override-Registered r meta none {id} keyed h =
      elim (Option-cases
        (find_candidate (λ c. registered r (remap_model_type c)) (model_type_candidates meta))) [
          | inl e ↦
              resolve_from_metadata-Registered r meta keyed
                (subst (λ o. resolve_by_metadata r meta o ≡ ok id) e h)
          | inr (found, e) ↦
              let same : found ≡ id = ok_inj (sym (ap (resolve_by_metadata r meta) e) ∙ h) in
              let (c, k) =
                find_candidate-some (λ c. registered r (remap_model_type c))
                  (model_type_candidates meta) e in
              subst (Registered r) same (registered-Registered r (remap_model_type c) k).1
        ]

  -- What `resolve_architecture` gives is registered; where the caller names an architecture, it is the
  -- one that is named, and each registered architecture can be named.
  pub resolve_architecture-Registered :
      (r : ArchitectureRegistry F) (override_id : Option String) (meta : MetadataMap)
      → Keyed r
      → ((id : String)
          → resolve_architecture r override_id meta ≡ ok id
          → Registered r id × ((named_id override_id ≡ none) ⊎ (named_id override_id ≡ some id)))
        × ((id : String)
            → named_id override_id ≡ some id
            → Registered r id
            → resolve_architecture r override_id meta ≡ ok id)
  unfolding resolve_architecture
  resolve_architecture-Registered r override_id meta keyed = (
    λ id h. (
      resolve_override-Registered r meta (named_id override_id) keyed h,
      elim (Option-cases (named_id override_id)) [
        | inl e ↦ inl e
        | inr (name, e) ↦
            let k : resolve_override r meta (some name) ≡ ok id =
              subst (λ o. resolve_override r meta o ≡ ok id) e h in
            let q = (registered-Registered r (some name) (ok_or-eq-ok _ _ k)).0 in inr (e ∙ q)
      ],
    ),
    λ id e (d, found). ap (resolve_override r meta) e ∙ rw found,
  )
