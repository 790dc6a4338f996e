-- ===== src/Checkpoint/Provider/Plan.antt =====
-- The whole of crates/dyninfer-checkpoint/src/provider.rs: one descriptor for each bound component, in
-- its file, under strictly sorted keys.
use mathlib.Core.List.{append_assoc, append-nil, Perm}
use mathlib.Core.Path.{subst}
use dyninfer.Prelude.{
  String, ◌≡◌, ◌∙◌, refl, sym, ap, true, false, not, List, [], ◌∷◌, ◌++◌, map, is_empty, Memᴰ, All,
  All-of-mem, ok, Ensures, then-Ensures, ok-Ensures, ok_or-Ensures, guard-Ensures, imp-Ensures,
  find, find-some, str_eq, str_eq_iff, text_leq_total, text_leq_trans, arith,
}
use dyninfer.Prelude.Eq.{contains, contains_iff, string_eq}
use dyninfer.Prelude.Sort.{
  sort, IsSorted, sort-IsSorted, sort-perm, Pairwise, Pairwise-append, Pairwise-sort,
}
use dyninfer.Core.Types.{SourceFile, ParameterComponentBinding, ParameterBinding, BindingPlan}
use dyninfer.Checkpoint.Catalog.{
  LogicalParameter, CheckpointCatalog, ProviderParameterDescriptor, RuntimeProviderPlan,
}
use dyninfer.Checkpoint.Provider.{
  Progress, provide_components, provide_bindings, key_leq, build_runtime_provider_plan,
}
use dyninfer.Checkpoint.Provider.Traces.{Traced, describe-Traced}

-- one descriptor for each of the bound components, in their order
abbrev pub Traces :
    List SourceFile
    → LogicalParameter
    → List ParameterComponentBinding
    → List ProviderParameterDescriptor
    → Type 0
Traces files parameter [] [] = Unit
Traces files parameter [] (d ∷ ds) = ⊥
Traces files parameter (cb ∷ cbs) [] = ⊥
Traces files parameter (cb ∷ cbs) (d ∷ ds) =
    Traced files parameter cb d × Traces files parameter cbs ds

-- the descriptors of the bindings, in their order: those of each are its components' in the catalog's
-- parameter of its name
abbrev pub Provides :
    CheckpointCatalog → List ParameterBinding → List ProviderParameterDescriptor → Type 0
Provides catalog [] ds = ds ≡ []
Provides catalog (bound ∷ bs) ds =
    (parameter : LogicalParameter) × (own : List ProviderParameterDescriptor) × (others : List
      ProviderParameterDescriptor)
    × (ds ≡ own ++ others)
    × Memᴰ parameter catalog.parameters
    × (parameter.canonical_name ≡ bound.canonical_name)
    × Traces catalog.source_files parameter bound.components own
    × Provides catalog bs others

abbrev pub key_of : ProviderParameterDescriptor → String
key_of d = d.external_key

abbrev pub Differ : ProviderParameterDescriptor → ProviderParameterDescriptor → Type 0
Differ c d = ¬ (c.external_key ≡ d.external_key)

Differ-symm : (c d : ProviderParameterDescriptor) → Differ c d → Differ d c
Differ-symm c d h e = h (sym e)

-- the set holds the keys of the descriptors, and no key is used twice
abbrev Clean : Progress → Type 0
Clean p = (p.external_keys ≡ map key_of p.parameters) × Pairwise Differ p.parameters

map-append :
    (ds : List ProviderParameterDescriptor) (d : ProviderParameterDescriptor)
    → map key_of (ds ++ d ∷ []) ≡ map key_of ds ++ d.external_key ∷ []
map-append [] d = refl
map-append (x ∷ ds) d = ap (λ t. x.external_key ∷ t) (map-append ds d)

mem-map :
    (ds : List ProviderParameterDescriptor) {d : ProviderParameterDescriptor}
    → Memᴰ d ds
    → Memᴰ d.external_key (map key_of ds)
mem-map [] m = elim m [ ]
mem-map (x ∷ ds) (Memᴰ.head e) = Memᴰ.head (ap key_of e)
mem-map (x ∷ ds) (Memᴰ.tail m) = Memᴰ.tail (mem-map ds m)

-- the progress after a new descriptor
abbrev grow : Progress → ProviderParameterDescriptor → Progress
grow p d = record {
  parameters = p.parameters ++ d ∷ [];
  external_keys = p.external_keys ++ d.external_key ∷ [];
}

fresh_key :
    (p : Progress) (d : ProviderParameterDescriptor)
    → Clean p
    → contains p.external_keys d.external_key ≡ false
    → All (λ x. Differ x d) p.parameters
fresh_key p d clean h =
    All-of-mem (λ x. Differ x d) p.parameters
      (λ x m e.
        let listed =
          subst (λ k. Memᴰ k p.external_keys) e
            (subst (λ ks. Memᴰ x.external_key ks) (sym clean.0) (mem-map p.parameters m)) in
        let hit = (contains_iff p.external_keys d.external_key).1 listed in absurd (cc))

grow-Clean :
    (p : Progress) (d : ProviderParameterDescriptor)
    → Clean p
    → contains p.external_keys d.external_key ≡ false
    → Clean (grow p d)
grow-Clean p d clean h = (
  ap (λ ks. ks ++ d.external_key ∷ []) clean.0 ∙ sym (map-append p.parameters d),
  Pairwise-append Differ p.parameters d clean.1 (fresh_key p d clean h),
)

-- the progress has grown by these descriptors
abbrev Grown : Progress → Progress → List ProviderParameterDescriptor → Type 0
Grown p q ds = (q.parameters ≡ p.parameters ++ ds) × Clean q

provide_components-Traces :
    (files : List SourceFile) (slot : String) (parameter : LogicalParameter)
    (cbs : List ParameterComponentBinding) (p : Progress)
    → Clean p
    → Ensures (provide_components files slot parameter cbs p) (λ q.
      (ds : List ProviderParameterDescriptor) × Grown p q ds × Traces files parameter cbs ds)
unfolding provide_components
provide_components-Traces files slot parameter [] p clean =
    ok-Ensures ([], (sym (append-nil p.parameters), clean), tt)
provide_components-Traces files slot parameter (cb ∷ cbs) p clean =
    then-Ensures (describe-Traced files slot parameter cb p.external_keys) (λ d made.
      imp-Ensures
        (provide_components-Traces files slot parameter cbs (grow p d)
          (grow-Clean p d clean made.1))
        (λ q r. (d ∷ r.0, (r.1.0 ∙ append_assoc p.parameters (d ∷ []) r.0, r.1.1), (made.0, r.2))))

provide_bindings-Provides :
    (catalog : CheckpointCatalog) (bs : List ParameterBinding) (p : Progress)
    → Clean p
    → Ensures
        (provide_bindings catalog bs p)
        (λ q. (ds : List ProviderParameterDescriptor) × Grown p q ds × Provides catalog bs ds)
unfolding provide_bindings
provide_bindings-Provides catalog [] p clean =
    ok-Ensures ([], (sym (append-nil p.parameters), clean), refl)
provide_bindings-Provides catalog (bound ∷ bs) p clean =
    then-Ensures
      (ok_or-Ensures
        (find (λ (q : LogicalParameter). str_eq q.canonical_name bound.canonical_name)
          catalog.parameters)
        _)
      (λ parameter found.
        let hit =
          find-some (λ (q : LogicalParameter). str_eq q.canonical_name bound.canonical_name)
            catalog.parameters found in
        then-Ensures
          (provide_components-Traces catalog.source_files bound.slot_id parameter bound.components p
            clean)
          (λ q own. imp-Ensures (provide_bindings-Provides catalog bs q own.1.1) (λ r others. (
            own.0 ++ others.0,
            (
              others.1.0
                  ∙ ap (λ t. t ++ others.0) own.1.0
                  ∙ append_assoc p.parameters own.0 others.0,
              others.1.1,
            ),
            (parameter, own.0, others.0, refl, hit.1, (str_eq_iff _ _).0 hit.0, own.2, others.2),
          ))))

key_total : (a b : ProviderParameterDescriptor) → key_leq a b ≡ false → key_leq b a ≡ true
key_total a b h = text_leq_total a.external_key b.external_key h

key_trans :
    (a b c : ProviderParameterDescriptor)
    → key_leq a b ≡ true
    → key_leq b c ≡ true
    → key_leq a c ≡ true
key_trans a b c h k = text_leq_trans a.external_key b.external_key c.external_key h k

-- A plan that `build_runtime_provider_plan` returns lists one descriptor for each component of the
-- bindings and no other: that of the catalog's component which the binding names, with its one byte
-- range, not empty and within its file. The keys are strictly ascending, and the paths are those of the
-- catalog's files, of which there is one at least.
pub build_runtime_provider_plan-Provides :
    (catalog : CheckpointCatalog) (binding : BindingPlan) (plan : RuntimeProviderPlan)
    → build_runtime_provider_plan catalog binding ≡ ok plan
    → ((ds : List ProviderParameterDescriptor) × Provides catalog binding.bindings ds
        × Perm plan.parameters ds)
      × (IsSorted key_leq plan.parameters × Pairwise Differ plan.parameters)
      × ((plan.file_paths ≡ map (λ (f : SourceFile). f.path) catalog.source_files)
          × (is_empty catalog.source_files ≡ false))
unfolding build_runtime_provider_plan
build_runtime_provider_plan-Provides catalog binding plan e =
    let whole : Ensures (build_runtime_provider_plan catalog binding) (λ plan.
      ((ds : List ProviderParameterDescriptor) × Provides catalog binding.bindings ds
        × Perm plan.parameters ds)
      × (IsSorted key_leq plan.parameters × Pairwise Differ plan.parameters)
      × ((plan.file_paths ≡ map (λ (f : SourceFile). f.path) catalog.source_files)
          × (is_empty catalog.source_files ≡ false))) =
      then-Ensures (guard-Ensures (not (is_empty catalog.source_files)) _) (λ u some_file.
        then-Ensures
          (provide_bindings-Provides catalog binding.bindings
            (record { parameters = []; external_keys = [] }) (refl, tt))
          (λ p r. ok-Ensures (
            (
              r.0,
              r.2,
              subst (λ t. Perm (sort key_leq p.parameters) t) r.1.0
                  (sort-perm key_leq p.parameters),
            ),
            (
              sort-IsSorted key_leq key_total key_trans p.parameters,
              Pairwise-sort key_leq Differ Differ-symm p.parameters r.1.1.1,
            ),
            (refl, ground arith),
          ))) in
    whole.run plan e
