-- ===== src/Checkpoint/Provider/Traces.antt =====
-- The plan of crates/dyninfer-checkpoint/src/provider.rs has one descriptor for each bound component,
-- within its file, and strictly sorted keys.
use dyninfer.Prelude.{
  ℕ, String, ◌+◌, ◌≤◌, ◌<◌, ◌≡◌, refl, Bool, true, false, not, ◌&&◌, ◌||◌, some, List, [], ◌∷◌,
  Memᴰ, Ensures, then-Ensures, ok-Ensures, ok_or-Ensures, guard-Ensures, find, find-some, get_elem?,
  checked_add, codes_eq, codes_eq_iff, str_eq, str_eq_iff, ltb, ◌==◌, ==_iff, &&_parts, arith,
}
use dyninfer.Prelude.Eq.{contains, string_eq}
use dyninfer.Core.Shape.{ByteRange}
use dyninfer.Core.Types.{SourceFile, StorageComponent, ParameterComponentBinding}
use dyninfer.Checkpoint.Catalog.{LogicalParameter, ProviderParameterDescriptor}
use dyninfer.Checkpoint.Provider.{single_range, descriptor_of, describe}

-- The descriptor is that of a component of the parameter which the binding names, with one byte range
-- of the bound length, not empty and within the source file.
pub record Traced (files : List SourceFile) (parameter : LogicalParameter)
    (cb : ParameterComponentBinding) (d : ProviderParameterDescriptor) : Type 0 where
  pub component : StorageComponent
  pub range : ByteRange
  pub source : SourceFile
  pub listed : Memᴰ component parameter.components
  pub named : (component.name ≡ cb.component_name) × (component.key ≡ cb.checkpoint_key)
  pub same_file : component.source_file_index ≡ cb.source_file_index
  pub one_range : component.byte_ranges ≡ range ∷ []
  pub bound_length : cb.byte_lengths ≡ range.length ∷ []
  pub in_file : get_elem? files component.source_file_index ≡ some source
  pub within : (0 < range.length) × (range.offset + range.length ≤ source.size_bytes)
  pub described : d ≡ descriptor_of cb component range

single_range-some : (rs : List ByteRange) {r : ByteRange} → single_range rs ≡ some r → rs ≡ r ∷ []
single_range-some [] e = absurd (cc)
single_range-some (s ∷ []) e = cc
single_range-some (s ∷ t ∷ rest) e = absurd (cc)

abbrev names : ParameterComponentBinding → StorageComponent → Bool
names cb c = str_eq c.name cb.component_name && str_eq c.key cb.checkpoint_key

named_by :
    (cb : ParameterComponentBinding) (c : StorageComponent)
    → (str_eq c.name cb.component_name && str_eq c.key cb.checkpoint_key) ≡ true
    → (c.name ≡ cb.component_name) × (c.key ≡ cb.checkpoint_key)
named_by cb c h = let (n, k) = &&_parts _ _ h in ((str_eq_iff _ _).0 n, (str_eq_iff _ _).0 k)

not-eq-true : (b : Bool) → not b ≡ true → b ≡ false
not-eq-true b h = ground arith

in_range :
    (offset n size end : ℕ)
    → checked_add offset n ≡ some end
    → not (n == 0 || ltb size end) ≡ true
    → (0 < n) × (offset + n ≤ size)
in_range offset n size end e h = ground arith

pub describe-Traced :
    (files : List SourceFile) (slot : String) (parameter : LogicalParameter)
    (cb : ParameterComponentBinding) (keys : List String)
    → Ensures
        (describe files slot parameter cb keys)
        (λ d. Traced files parameter cb d × (contains keys d.external_key ≡ false))
unfolding describe
describe-Traced files slot parameter cb keys =
    then-Ensures (ok_or-Ensures (find (names cb) parameter.components) _) (λ component found.
      then-Ensures (guard-Ensures (component.source_file_index == cb.source_file_index) _)
        (λ u2 same.
          then-Ensures (ok_or-Ensures (single_range component.byte_ranges) _) (λ range one.
            then-Ensures (guard-Ensures (codes_eq cb.byte_lengths (range.length ∷ [])) _) (λ u4 len.
              then-Ensures (ok_or-Ensures (get_elem? files component.source_file_index) _)
                (λ source at.
                  then-Ensures (ok_or-Ensures (checked_add range.offset range.length) _) (λ end sum.
                    then-Ensures
                      (guard-Ensures (not (range.length == 0 || ltb source.size_bytes end)) _)
                      (λ u7 inside.
                        then-Ensures (guard-Ensures (not (contains keys cb.external_key)) _)
                          (λ u8 is_new. ok-Ensures (
                            record {
                              component = component;
                              range = range;
                              source = source;
                              listed = (find-some (names cb) parameter.components found).1;
                              named =
                                  named_by cb component
                                    (find-some (names cb) parameter.components found).0;
                              same_file = (==_iff _ _).0 same;
                              one_range = single_range-some component.byte_ranges one;
                              bound_length = (codes_eq_iff _ _).0 len;
                              in_file = at;
                              within = in_range _ _ _ _ sum inside;
                              described = refl;
                            },
                            not-eq-true _ is_new,
                          )))))))))
