-- ===== src/Architecture/Verify/Sets.antt =====
-- Sets of ids as the lists that `verify_architecture_graph`, in
-- crates/dyninfer-architecture/src/builder.rs, builds them as.
use dyninfer.Prelude.Membership.{mem-append_parts, mem-append_left, mem-append_right}
use dyninfer.Prelude.{String, ◌≢◌, ◌↔◌, sym, ◌⊎◌, inl, inr, List, [], ◌∷◌, ◌++◌, Memᴰ, All, All-imp}
use dyninfer.Core.Graph.{GraphValue, ArchitectureOperation}
use dyninfer.Architecture.Verify.Checks.{Known, onto, Fresh, mem-onto, Unique}
use dyninfer.Architecture.Verify.Operations.{parameters_of, consumed_from}

Apart : List String → List String → Type 0
Apart set ids = All (λ id. Memᴰ id set → ⊥) ids

Fresh-parts : (set ids : List String) → Fresh set ids → Apart set ids × Unique ids
unfolding Apart
Fresh-parts set [] h = (tt, tt)
Fresh-parts set (id ∷ ids) h =
    let r = Fresh-parts (id ∷ set) ids h.1 in
    (
      (h.0, All-imp _ _ (λ x k m. k (Memᴰ.tail m)) ids r.0),
      (All-imp _ _ (λ x k e. k (Memᴰ.head (sym e))) ids r.0, r.1),
    )

Apart-cons :
    (set : List String) (id : String) (ids : List String)
    → Apart set ids
    → All (λ y. id ≢ y) ids
    → Apart (id ∷ set) ids
unfolding Apart
Apart-cons set id [] h k = tt
Apart-cons set id (x ∷ xs) h k =
    (λ m. elim m [ Memᴰ.head e ↦ k.0 (sym e) | Memᴰ.tail n ↦ h.0 n ], Apart-cons set id xs h.1 k.1)

Fresh-of_parts : (set ids : List String) → Apart set ids → Unique ids → Fresh set ids
unfolding Apart
Fresh-of_parts set [] h u = tt
Fresh-of_parts set (id ∷ ids) h u =
    (h.0, Fresh-of_parts (id ∷ set) ids (Apart-cons set id ids h.1 u.0) u.1)

Apart-nil : (ids : List String) → Apart [] ids
unfolding Apart
Apart-nil [] = tt
Apart-nil (id ∷ ids) = (λ m. elim m [ ], Apart-nil ids)

pub Fresh-Unique : (ids : List String) → Fresh [] ids ↔ Unique ids
Fresh-Unique ids = (λ h. (Fresh-parts [] ids h).1, Fresh-of_parts [] ids (Apart-nil ids))

pub mem-onto_nil : {id : String} (ids : List String) → Memᴰ id (onto [] ids) ↔ Memᴰ id ids
mem-onto_nil ids =
    let r = mem-onto [] ids in
    (λ h. elim (r.0 h) [ inl m ↦ elim m [ ] | inr m ↦ m ], λ h. r.1 (inr h))

pub Known-map :
    {a b : List String} (ids : List String)
    → ((id : String) → Memᴰ id a → Memᴰ id b)
    → Known a ids
    → Known b ids
Known-map ids f h = All-imp _ _ (λ id m. f id m) ids h

module _ {F : Type 0} where
  pub consumed-mem :
      {id : String} (values : List GraphValue) (value_ids slot_ids slots : List String)
      (ops : List (ArchitectureOperation F))
      → Memᴰ id (consumed_from values value_ids slot_ids slots ops)
        ↔ (Memᴰ id slots ⊎ Memᴰ id (parameters_of ops))
  consumed-mem values v s slots [] = (λ m. inl m, λ h. elim h [ inl m ↦ m | inr m ↦ elim m [ ] ])
  consumed-mem values v s slots (op ∷ ops) =
      let r = consumed-mem values v s (op.parameters ++ slots) ops in
      (
        λ m. elim (r.0 m) [
          | inl n ↦ elim (mem-append_parts op.parameters slots n) [
            | inl k ↦ inr (mem-append_left op.parameters (parameters_of ops) k)
            | inr k ↦ inl k
          ]
          | inr n ↦ inr (mem-append_right op.parameters (parameters_of ops) n)
        ],
        λ h. elim h [
          | inl m ↦ r.1 (inl (mem-append_right op.parameters slots m))
          | inr m ↦ elim (mem-append_parts op.parameters (parameters_of ops) m) [
            | inl k ↦ r.1 (inl (mem-append_left op.parameters slots k))
            | inr k ↦ r.1 (inr k)
          ]
        ],
      )
