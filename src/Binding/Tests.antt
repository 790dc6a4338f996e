-- ===== src/Binding/Tests.antt =====
-- The theorems on names, binding plans and provider plans at the sample catalog.
use mathlib.Core.List.{Perm}
use dyninfer.Prelude.{
  ◌≡◌, ◌⊎◌, refl, none, some, false, List, [], ◌∷◌, map, Memᴰ, All, ok, is_empty,
}
use dyninfer.Prelude.Assoc.{get}
use dyninfer.Prelude.Sort.{IsSorted, Pairwise}
use dyninfer.Core.Scalar.{size_bytes, scalar_index}
use dyninfer.Core.Shape.{is_compatible_with}
use dyninfer.Core.Types.{SourceFile, ParameterSlot, ParameterBinding, BindingPlan}
use dyninfer.Checkpoint.Catalog.{LogicalParameter, ProviderParameterDescriptor, RuntimeProviderPlan}
use dyninfer.Checkpoint.Provider.{key_leq, build_runtime_provider_plan}
use dyninfer.Checkpoint.Provider.Plan.{Provides, Differ, build_runtime_provider_plan-Provides}
use dyninfer.Binding.{by_name}
use dyninfer.Binding.Binder.{binding_of, bind}
use dyninfer.Binding.Names.{Named, Aliased, by_name_lem}
use dyninfer.Binding.Plan.{binding_in, Resolves, SameShape, bind-Resolves}
use dyninfer.Binding.Samples.{table, catalog, slot, extra}

abbrev binding : ParameterBinding
unfolding binding_of
binding = binding_of "weights" slot table

abbrev plan : BindingPlan
plan = record {
  architecture_id = "llama.decoder";
  checkpoint_schema = catalog.schema_fingerprint;
  bindings = binding ∷ [];
  unresolved_optional_slots = "out" ∷ [];
}

binds : bind "weights" "llama.decoder" (slot ∷ extra ∷ []) catalog ≡ ok plan
unfolding bind binding_of size_bytes scalar_index binding is_compatible_with
binds = refl

bind-Resolves_example :
    (pairs : List (ParameterSlot × ParameterBinding)) × (binding ∷ [] ≡ map binding_in pairs)
    × Resolves "weights" (by_name (table ∷ [])) (slot ∷ extra ∷ []) pairs ("out" ∷ [])
    × ((p q : ParameterSlot × ParameterBinding) → Memᴰ p pairs → Memᴰ q pairs → SameShape p q)
bind-Resolves_example =
    bind-Resolves "weights" "llama.decoder" (slot ∷ extra ∷ []) catalog plan binds

by_name_lem_example :
    ((p : LogicalParameter)
      → get (by_name (table ∷ [])) "token_embd.weight" ≡ some p
      → Named (table ∷ []) "token_embd.weight" p
        ⊎ (All (λ (q : LogicalParameter). ¬ (q.canonical_name ≡ "token_embd.weight")) (table ∷ [])
            × Aliased (table ∷ []) "token_embd.weight" p))
    × (get (by_name (table ∷ [])) "token_embd.weight" ≡ none
        → All (λ (q : LogicalParameter). ¬ (q.canonical_name ≡ "token_embd.weight")) (table ∷ [])
          × All (λ (q : LogicalParameter). ¬ Memᴰ "token_embd.weight" q.aliases) (table ∷ []))
by_name_lem_example = by_name_lem (table ∷ []) "token_embd.weight"

abbrev ranges : RuntimeProviderPlan
ranges = record {
  kind = "direct-file-ranges-v1";
  scope = "weights";
  file_paths = "model.gguf" ∷ [];
  parameters =
      record {
        external_key = "weights::token_embd.weight::weight";
        aliases = "token_embd.weight" ∷ [];
        source_file_index = 0;
        offset = 64;
        length = 32;
      }
      ∷ [];
  notes = "Entries reference original checkpoint files; aliases serve legacy MLIR keys" ∷ [];
}

provides : build_runtime_provider_plan catalog plan ≡ ok ranges
unfolding build_runtime_provider_plan binding_of binding
provides = refl

build_runtime_provider_plan-Provides_example :
    ((ds : List ProviderParameterDescriptor) × Provides catalog (binding ∷ []) ds
      × Perm ranges.parameters ds)
    × (IsSorted key_leq ranges.parameters × Pairwise Differ ranges.parameters)
    × ((ranges.file_paths ≡ map (λ (f : SourceFile). f.path) catalog.source_files)
        × (is_empty catalog.source_files ≡ false))
build_runtime_provider_plan-Provides_example =
    build_runtime_provider_plan-Provides catalog plan ranges provides
