-- ===== src/Checkpoint/Provider.antt =====
-- `build_runtime_provider_plan` of crates/dyninfer-checkpoint/src/provider.rs. A set of keys is the list
-- of the keys inserted.
pub mod Traces
pub mod Plan
use dyninfer.Prelude.{
  ℕ, String, ◌+◌, Bool, true, false, not, ◌&&◌, ◌||◌, Option, none, some, List, [], ◌∷◌, ◌++◌, map,
  Result, ok, err, ◌>>=◌, ◌>>◌, guard, ok_or, find, get_elem?, is_empty, checked_add, codes_eq,
  str_eq, text_leq, ltb, ◌==◌,
}
use dyninfer.Prelude.Eq.{contains, string_eq}
use dyninfer.Prelude.Sort.{sort}
use dyninfer.Core.Shape.{ByteRange}
use dyninfer.Core.Types.{
  SourceFile, StorageComponent, ParameterComponentBinding, ParameterBinding, BindingPlan,
}
use dyninfer.Checkpoint.Catalog.{
  LogicalParameter, CheckpointCatalog, ProviderParameterDescriptor, RuntimeProviderPlan,
}

-- one constructor for each message; the texts are the slot and the key that the error names
pub data ProviderError : Type 0 where
  no_source_files : ProviderError
  parameter_absent component_absent source_differs not_contiguous : String → String → ProviderError
  length_differs source_out_of_range range_overflows : String → String → ProviderError
  range_exceeds duplicate_key : String → String → ProviderError

-- the two variables of the loops
pub record Progress : Type 0 where
  pub parameters : List ProviderParameterDescriptor
  pub external_keys : List String

-- `let [range] = ranges else { ... }`
abbrev pub single_range : List ByteRange → Option ByteRange
single_range [] = none
single_range (r ∷ []) = some r
single_range (r ∷ s ∷ rest) = none

abbrev pub descriptor_of :
    ParameterComponentBinding → StorageComponent → ByteRange → ProviderParameterDescriptor
descriptor_of cb component range = record {
  external_key = cb.external_key;
  aliases = cb.checkpoint_key ∷ [];
  source_file_index = component.source_file_index;
  offset = range.offset;
  length = range.length;
}

-- the checks of one bound component, and its descriptor
unfoldable pub describe :
    List SourceFile
    → String
    → LogicalParameter
    → ParameterComponentBinding
    → List String
    → Result ProviderError ProviderParameterDescriptor
describe files slot parameter cb keys = do
  component ←
      ok_or
        (find (λ c. str_eq c.name cb.component_name && str_eq c.key cb.checkpoint_key)
          parameter.components)
        (component_absent slot cb.checkpoint_key)
  guard (component.source_file_index == cb.source_file_index) (source_differs slot component.key)
  range ← ok_or (single_range component.byte_ranges) (not_contiguous slot component.key)
  guard (codes_eq cb.byte_lengths (range.length ∷ [])) (length_differs slot component.key)
  source ←
      ok_or (get_elem? files component.source_file_index) (source_out_of_range slot component.key)
  end ← ok_or (checked_add range.offset range.length) (range_overflows slot component.key)
  guard (not (range.length == 0 || ltb source.size_bytes end)) (range_exceeds slot component.key)
  guard (not (contains keys cb.external_key)) (duplicate_key slot cb.external_key)
  ok (descriptor_of cb component range)

-- the inner loop
unfoldable pub provide_components :
    List SourceFile
    → String
    → LogicalParameter
    → List ParameterComponentBinding
    → Progress
    → Result ProviderError Progress
unfolding describe
provide_components files slot parameter [] p = ok p
provide_components files slot parameter (cb ∷ cbs) p = do
  d ← describe files slot parameter cb p.external_keys
  provide_components files slot parameter cbs (record {
    parameters = p.parameters ++ d ∷ [];
    external_keys = p.external_keys ++ d.external_key ∷ [];
  })

-- the outer loop
unfoldable pub provide_bindings :
    CheckpointCatalog → List ParameterBinding → Progress → Result ProviderError Progress
unfolding provide_components
provide_bindings catalog [] p = ok p
provide_bindings catalog (bound ∷ bs) p = do
  parameter ←
      ok_or (find (λ q. str_eq q.canonical_name bound.canonical_name) catalog.parameters)
        (parameter_absent bound.slot_id bound.canonical_name)
  p' ← provide_components catalog.source_files bound.slot_id parameter bound.components p
  provide_bindings catalog bs p'

abbrev pub key_leq : ProviderParameterDescriptor → ProviderParameterDescriptor → Bool
key_leq l r = text_leq l.external_key r.external_key

unfoldable pub build_runtime_provider_plan :
    CheckpointCatalog → BindingPlan → Result ProviderError RuntimeProviderPlan
unfolding provide_bindings sort
build_runtime_provider_plan catalog binding = do
  guard (not (is_empty catalog.source_files)) no_source_files
  p ← provide_bindings catalog binding.bindings (record { parameters = []; external_keys = [] })
  ok (record {
    kind = "direct-file-ranges-v1";
    scope = "weights";
    file_paths = map (λ (f : SourceFile). f.path) catalog.source_files;
    parameters = sort key_leq p.parameters;
    notes = "Entries reference original checkpoint files; aliases serve legacy MLIR keys" ∷ [];
  })
