-- ===== src/Architecture/Registry/Packages.antt =====
-- `build_package` of crates/dyninfer-architecture/src/registry.rs, from the configuration to the graph.
use mathlib.Core.Path.{subst}
use dyninfer.Prelude.{
  ℕ, ◌/◌, ◌%◌, ◌==◌, ◌&&◌, String, ◌≡◌, refl, ap, Bool, true, false, not, Bool-cases, inl, inr,
  arith, Option, none, some, List, [], ◌∷◌, Memᴰ, All, All-mem, All-imp, str_eq, str_eq_iff, Result,
  ok, ok_or-eq-ok, >>=-eq-ok, guard, guard-eq-ok,
}
use dyninfer.Prelude.Assoc.{get, insert}
use dyninfer.Prelude.Json.{Json, number}
use dyninfer.Prelude.Decimal.{decimal}
use dyninfer.Architecture.Verify.Checks.{guard_iff}
use dyninfer.Prelude.Effects.{Hoare}
use dyninfer.Architecture.Errors.{ArchitectureError, head_dim_underivable}
use dyninfer.Architecture.Config.{
  ConfigField, MetadataMap, source_of, resolve_field, resolve_fields, config_u64, derive_head_dim,
  derive_if, resolve,
}
use dyninfer.Architecture.Builder.{new, set_architecture_id}
use dyninfer.Architecture.Typing.{Holds}
use dyninfer.Architecture.Typing.Models.{Runnable, build_decoder-Hoare, build_hybrid-Hoare}
use dyninfer.Architecture.Registry.{
  Definition, ArchitectureRegistry, ArchitecturePackage, require, build_package, register_all,
}

ok_inj : {A : Type 0} {a b : A} → ◌≡◌ {A = Result ArchitectureError A} (ok a) (ok b) → a ≡ b
ok_inj h = cc

abbrev pub Present : MetadataMap → String → Type 0
Present values key = (v : Json) × (get values key ≡ some v)

-- Each required field has a value.
abbrev pub Complete : List ConfigField → MetadataMap → Type 0
Complete fields values = All (λ f. f.required ≡ true → Present values f.name) fields

Present-insert :
    (values : MetadataMap) (key : String) (v : Json) (name : String)
    → Present values name
    → Present (insert values key v) name
unfolding get
Present-insert values key v name (w, h) = elim (Bool-cases (str_eq key name)) [
  | inl e ↦ (v, rw e)
  | inr e ↦ (w, rw e h)
]

Present-inserted :
    (values : MetadataMap) (key : String) (v : Json) → Present (insert values key v) key
unfolding get
Present-inserted values key v = (v, rw ((str_eq_iff key key).1 refl))

module _ (overrides meta defaults : MetadataMap) where
  resolve_field-Present :
      (values : MetadataMap) (field : ConfigField) (o : Option Json) (values' : MetadataMap)
      → resolve_field overrides meta defaults values field o ≡ ok values'
      → ((name : String) → Present values name → Present values' name)
        × (field.required ≡ true → Present values' field.name)
  resolve_field-Present values field (some v) values' h =
      let same : insert values field.name v ≡ values' = cc in
      (
        λ name p. subst (λ m. Present m name) same (Present-insert values field.name v name p),
        λ e. subst (λ m. Present m field.name) same (Present-inserted values field.name v),
      )
  resolve_field-Present values field none values' h =
      let (u, e, k) = >>=-eq-ok (guard (not field.required) _) _ h in
      let optional = guard-eq-ok _ _ _ e in
      let same : values ≡ values' = cc in
      (λ name p. subst (λ m. Present m name) same p, λ required. absurd (cc))

  resolve_fields-Complete :
      (fields : List ConfigField) (values values' : MetadataMap)
      → resolve_fields overrides meta defaults values fields ≡ ok values'
      → ((name : String) → Present values name → Present values' name) × Complete fields values'
  unfolding resolve_fields
  resolve_fields-Complete [] values values' h =
      let same : values ≡ values' = cc in (λ name p. subst (λ m. Present m name) same p, tt)
  resolve_fields-Complete (field ∷ fields) values values' h =
      let (next, e, k) =
        >>=-eq-ok
          (resolve_field overrides meta defaults values field
            (source_of overrides meta defaults field))
          _ h in
      let here =
        resolve_field-Present values field (source_of overrides meta defaults field) next e in
      let rest = resolve_fields-Complete fields next values' k in
      (
        λ name p. rest.0 name (here.0 name p),
        (λ required. rest.0 field.name (here.1 required), rest.1),
      )

module _ (as_u64 : Json → Option ℕ) where
  derive_if-Complete :
      (fields : List ConfigField) (b : Bool) (values values' : MetadataMap)
      → derive_if as_u64 b values ≡ ok values'
      → Complete fields values
      → Complete fields values'
  unfolding derive_head_dim
  derive_if-Complete fields false values values' h c = subst (Complete fields) (cc) c
  derive_if-Complete fields true values values' h c =
      let (hidden, e, h1) = >>=-eq-ok (config_u64 as_u64 values "hidden_size") _ h in
      let (heads, e', h2) = >>=-eq-ok (config_u64 as_u64 values "num_heads") _ h1 in
      let derived = number (decimal (hidden / heads)) in
      let passed =
        (guard_iff (not (heads == 0) && hidden % heads == 0) (head_dim_underivable hidden heads)
            (ok (insert values "head_dim" derived))).0
          h2 in
      subst (Complete fields) (ok_inj passed.1) (
        All-imp _ _ (λ f p required. Present-insert values "head_dim" derived f.name (p required))
          fields c)

  pub resolve-Complete :
      (fields : List ConfigField) (overrides meta defaults values : MetadataMap)
      → resolve as_u64 fields overrides meta defaults ≡ ok values
      → Complete fields values
  unfolding resolve
  resolve-Complete fields overrides meta defaults values h =
      let (read, e, k) = >>=-eq-ok (resolve_fields overrides meta defaults [] fields) _ h in
      derive_if-Complete fields _ read values k
        (resolve_fields-Complete overrides meta defaults fields [] read e).1

module _ {F : Type 0} (as_u64 : Json → Option ℕ) where
  -- the builds of the architecture give graphs that can run
  pub record Sound (d : Definition F) : Type 0 where
    pub builds : (config : MetadataMap) → Hoare (Holds []) (d.build config) (λ g s. Runnable g)

  -- a package of the architecture, with a graph that can run and a configuration that is complete
  pub record Packaged (r : ArchitectureRegistry F) (id : String) (p : ArchitecturePackage F)
      : Type 0 where
    pub definition : Definition F
    pub found : get r id ≡ some definition
    pub runnable : Runnable p.graph
    pub complete : Complete definition.fields p.resolved_config
    pub same_id : p.id ≡ p.graph.architecture_id
    pub same_revision : p.revision ≡ definition.revision

  get-mem :
      (r : ArchitectureRegistry F) (id : String) {d : Definition F}
      → get r id ≡ some d
      → (key : String) × Memᴰ (key, d) r
  unfolding get
  get-mem [] id h = absurd (cc)
  get-mem ((k, v) ∷ r) id {d} h = elim (Bool-cases (str_eq k id)) [
    | inl e ↦ (k, Memᴰ.head (let same : d ≡ v = ground (arith, e, h) in ap (λ x. (k, x)) same))
    | inr e ↦
        let q : get r id ≡ some d = ground (arith, e, h) in
        let (key, m) = get-mem r id q in (key, Memᴰ.tail m)
  ]

  build_package-Packaged_of :
      (r : ArchitectureRegistry F) (id : String) (overrides meta : MetadataMap)
      (p : ArchitecturePackage F)
      → All (λ e. Sound e.1) r
      → build_package as_u64 r id overrides meta ≡ ok p
      → Packaged r id p
  unfolding build_package require
  build_package-Packaged_of r id overrides meta p sound h =
      let (d, e, h1) = >>=-eq-ok (require r id) _ h in
      let (config, resolved, h2) = >>=-eq-ok (resolve as_u64 d.fields overrides meta []) _ h1 in
      let built = d.build config (set_architecture_id d.id new) in
      let (graph, gave, h3) = >>=-eq-ok (built.1) _ h2 in
      let found = ok_or-eq-ok (get r id) _ e in
      let (key, m) = get-mem r id found in
      let runs =
        ((All-mem _ sound m).builds config).run _ (record { ordered = tt; context = tt }) graph
          built.0 (ap (λ x. (built.0, x)) gave) in
      subst (Packaged r id) (ok_inj h3) (record {
        definition = d;
        found = found;
        runnable = runs;
        complete = resolve-Complete as_u64 d.fields overrides meta [] config resolved;
        same_id = refl;
        same_revision = refl;
      })

module _ {F : Type 0} (as_u64 : Json → Option ℕ) (as_f64 : Json → Option F) where
  -- What `build_package` gives for one of the built-in architectures has a graph that can run, whose
  -- operations take what operations before them gave, at the types of their kinds, that is well formed
  -- and exports both phases; every field that the schema requires has a value; the package has the id of
  -- its graph and the revision of its architecture.
  pub build_package-Packaged :
      (id : String) (overrides meta : MetadataMap) (p : ArchitecturePackage F)
      → build_package as_u64 (register_all as_u64 as_f64 []) id overrides meta ≡ ok p
      → Packaged as_u64 (register_all as_u64 as_f64 []) id p
  build_package-Packaged id overrides meta p =
      build_package-Packaged_of as_u64 (register_all as_u64 as_f64 []) id overrides meta p (
        record { builds = build_hybrid-Hoare as_u64 as_f64 },
        (
          record { builds = build_decoder-Hoare as_u64 as_f64 true },
          (record { builds = build_decoder-Hoare as_u64 as_f64 false }, tt),
        ),
      )
