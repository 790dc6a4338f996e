-- ===== src/Binding.antt =====
-- `Binder` of crates/dyninfer-binding/src/lib.rs: the names of a catalog's parameters, the binding of one
-- slot, and the loop over the slots of an architecture. The architecture is its id and its slots.
pub mod Binder
pub mod Names
pub mod Accepted
pub mod Plan
pub mod Samples
mod Tests
use dyninfer.Prelude.{
  ℕ, String, ◌+◌, ◌%◌, Bool, true, false, not, ◌&&◌, ◌||◌, Option, none, some, List, [], ◌∷◌, ◌++◌,
  map, Result, ok, err, ◌>>=◌, ◌>>◌, guard, all, first, is_empty, codes_eq, str_eq, saturating_add,
  saturating_mul, ◌==◌, if◌then◌else◌,
}
use dyninfer.Prelude.Assoc.{get, insert, or_insert}
use dyninfer.Prelude.Eq.{contains}
use dyninfer.Core.Scalar.{ScalarType, scalar_eq, size_bytes}
use dyninfer.Core.Shape.{Shape, rank, numel, is_compatible_with, ByteRange}
use dyninfer.Core.Types.{
  ParameterRole, embedding, attention_q, attention_k, attention_v, attention_o, ffn_gate, ffn_up,
  ffn_down, norm, output, bias, rope_freqs, other, LogicalTensorConstraint, PhysicalEncoding, plain,
  StorageComponent, ParameterSlot, identity, ParameterComponentBinding, ParameterBinding,
  BindingPlan,
}
use dyninfer.Checkpoint.Catalog.{LogicalParameter, CheckpointCatalog}

-- one constructor for each message; the text is the slot that the error names
pub data BindingError : Type 0 where
  rank_mismatch shape_mismatch role_mismatch element_type_mismatch : String → BindingError
  numel_overflow byte_length_mismatch zero_alignment misaligned : String → BindingError
  tied_shape_mismatch required_slot_missing : String → BindingError

unfoldable pub role_index : ParameterRole → ℕ
role_index embedding = 0
role_index attention_q = 1
role_index attention_k = 2
role_index attention_v = 3
role_index attention_o = 4
role_index ffn_gate = 5
role_index ffn_up = 6
role_index ffn_down = 7
role_index norm = 8
role_index output = 9
role_index bias = 10
role_index rope_freqs = 11
role_index (other s) = 12

-- `a == b` of two roles that are not `Other` compares their variants.
unfoldable pub roles_compatible : ParameterRole → ParameterRole → Bool
unfolding role_index
roles_compatible slot (other s) = true
roles_compatible (other s) param = true
roles_compatible slot param = role_index slot == role_index param

-- the first loop: later parameters of a name hide earlier ones
unfoldable pub insert_names :
    List (String × LogicalParameter) → List LogicalParameter → List (String × LogicalParameter)
insert_names m [] = m
insert_names m (p ∷ ps) = insert_names (insert m p.canonical_name p) ps

unfoldable pub insert_aliases :
    List (String × LogicalParameter)
    → LogicalParameter
    → List String
    → List (String × LogicalParameter)
unfolding or_insert
insert_aliases m p [] = m
insert_aliases m p (a ∷ as') = insert_aliases (or_insert m a p) p as'

-- the second loop: an alias does not hide a name that is there
unfoldable pub insert_all_aliases :
    List (String × LogicalParameter) → List LogicalParameter → List (String × LogicalParameter)
unfolding insert_aliases
insert_all_aliases m [] = m
insert_all_aliases m (p ∷ ps) = insert_all_aliases (insert_aliases m p p.aliases) ps

unfoldable pub by_name : List LogicalParameter → List (String × LogicalParameter)
unfolding insert_names insert_all_aliases
by_name ps = insert_all_aliases (insert_names [] ps) ps

abbrev pub rank_allowed : Option ℕ → Shape → Bool
rank_allowed none shape = true
rank_allowed (some r) shape = rank shape == r

abbrev pub shape_allowed : Option Shape → Shape → Bool
shape_allowed none shape = true
shape_allowed (some expected) shape = is_compatible_with shape expected

abbrev pub type_allowed : List ScalarType → ScalarType → Bool
type_allowed types t = is_empty types || contains types t

-- the lengths of the ranges of the components, in one list
unfoldable pub range_lengths : List StorageComponent → List ℕ
range_lengths [] = []
range_lengths (c ∷ cs) = map (λ (r : ByteRange). r.length) c.byte_ranges ++ range_lengths cs

unfoldable pub saturating_sum : ℕ → List ℕ → ℕ
saturating_sum acc [] = acc
saturating_sum acc (n ∷ ns) = saturating_sum (saturating_add acc n) ns

-- the sum of the lengths of all byte ranges
unfoldable pub storage_bytes_of : LogicalParameter → ℕ
unfolding range_lengths saturating_sum
storage_bytes_of p = saturating_sum 0 (range_lengths p.components)

abbrev pub expected_bytes : Option ℕ → ℕ → Option ℕ
expected_bytes none elem = none
expected_bytes (some n) elem = some (saturating_mul n elem)

abbrev pub check_expected : String → ℕ → Option ℕ → Result BindingError (Unit {0})
check_expected slot bytes none = err (numel_overflow slot)
check_expected slot bytes (some expected) = guard (bytes == expected) (byte_length_mismatch slot)

-- the check for the element's size, which every scalar type has
unfoldable pub check_sized : String → LogicalParameter → Option ℕ → Result BindingError (Unit {0})
unfolding numel storage_bytes_of saturating_mul
check_sized slot p none = ok tt
check_sized slot p (some elem) =
    check_expected slot (storage_bytes_of p) (expected_bytes (numel p.logical_type.shape) elem)

-- the stored bytes of a plain tensor are those of its elements
unfoldable pub check_plain :
    String → LogicalParameter → PhysicalEncoding → Result BindingError (Unit {0})
unfolding check_sized size_bytes
check_plain slot p (plain t order) = check_sized slot p (size_bytes t)
check_plain slot p encoding = ok tt

-- the alignment of the first component, or 1
abbrev pub alignment_of : LogicalParameter → ℕ
alignment_of p = elim (first p.components) [ none ↦ 1 | some c ↦ c.alignment ]

abbrev pub aligned : ℕ → List StorageComponent → Bool
aligned alignment cs =
    all (λ c. all (λ (r : ByteRange). r.offset % alignment == 0) c.byte_ranges) cs

abbrev pub key_of : LogicalParameter → String
key_of p = elim (first p.components) [ none ↦ p.canonical_name | some c ↦ c.key ]
