-- ===== src/Binding/Accepted.antt =====
-- What the checks of `bind_slot` in crates/dyninfer-binding/src/lib.rs ensure of a binding.
use mathlib.Core.Path.{subst}
use dyninfer.Prelude.{
  ℕ, ◌%◌, ◌<◌, String, ◌≡◌, ◌∙◌, refl, ap, ◌⊎◌, inl, inr, true, not, &&_parts, Option, none, some,
  List, [], ◌∷◌, Memᴰ, All, all, is_empty, ok, Ensures, then-Ensures, ok-Ensures, guard-Ensures,
  self-Ensures, codes_eq_iff, ◌==◌, ==_iff, saturating_mul, arith, guard-eq-ok, Bool-cases,
}
use dyninfer.Prelude.Eq.{contains_iff}
use dyninfer.Core.Scalar.{ScalarType, scalar_eq, size_bytes, TensorOrder}
use dyninfer.Core.Shape.{Shape, rank, numel, is_compatible_with, ByteRange}
use dyninfer.Core.Types.{PhysicalEncoding, plain, StorageComponent, ParameterSlot, ParameterBinding}
use dyninfer.Checkpoint.Catalog.{LogicalParameter}
use dyninfer.Binding.{
  byte_length_mismatch, roles_compatible, rank_allowed, shape_allowed, type_allowed,
  storage_bytes_of, check_plain, check_sized, check_expected, expected_bytes, alignment_of, aligned,
}
use dyninfer.Binding.Binder.{bind_parameter, binding_of, check_storage}

-- the stored bytes of a plain tensor are those of its elements
abbrev pub StoredWhole : LogicalParameter → Type 0
StoredWhole p =
    (t : ScalarType) (order : TensorOrder) (elem : ℕ)
    → p.encoding ≡ plain t order
    → size_bytes t ≡ some elem
    → (n : ℕ) × (numel p.logical_type.shape ≡ some n) × (storage_bytes_of p ≡ saturating_mul n elem)

-- The binding is that of this parameter, which meets the slot's constraints.
pub record Accepted (scope : String) (slot : ParameterSlot) (p : LogicalParameter)
    (b : ParameterBinding) : Type 0 where
  pub logical_rank : (r : ℕ) → slot.expected_type.rank ≡ some r → rank p.logical_type.shape ≡ r
  pub shape : (e : Shape) → slot.expected_type.shape ≡ some e → p.logical_type.shape ≡ e
  pub role : roles_compatible slot.role p.role ≡ true
  pub element_type :
      (slot.expected_type.element_types ≡ [])
      ⊎ Memᴰ p.logical_type.element_type slot.expected_type.element_types
  pub stored : (p.components ≡ []) ⊎ StoredWhole p
  pub some_alignment : 0 < alignment_of p
  pub offsets :
      All (λ c. All (λ (r : ByteRange). r.offset % alignment_of p ≡ 0) c.byte_ranges) p.components
  pub made : b ≡ binding_of scope slot p

pub shapes_equal : (s t : Shape) → is_compatible_with s t ≡ true → s ≡ t
unfolding is_compatible_with
shapes_equal s t h = ap (λ (ds : List ℕ). record { dims = ds }) ((codes_eq_iff s.dims t.dims).0 h)

ranked : (o : Option ℕ) (s : Shape) → rank_allowed o s ≡ true → (r : ℕ) → o ≡ some r → rank s ≡ r
ranked none s h r e = absurd (cc)
ranked (some n) s h r e = ground arith

shaped :
    (o : Option Shape) (s : Shape) → shape_allowed o s ≡ true → (t : Shape) → o ≡ some t → s ≡ t
shaped none s h t e = absurd (cc)
shaped (some u) s h t e = let q : u ≡ t = cc in shapes_equal s u h ∙ q

typed : (ts : List ScalarType) (t : ScalarType) → type_allowed ts t ≡ true → (ts ≡ []) ⊎ Memᴰ t ts
typed [] t h = inl refl
typed (x ∷ ts) t h = inr ((contains_iff (x ∷ ts) t).0 h)

positive : (n : ℕ) → not (n == 0) ≡ true → 0 < n
positive n h = ground arith

empty_nil : (cs : List StorageComponent) → is_empty cs ≡ true → cs ≡ []
empty_nil [] h = refl
empty_nil (c ∷ cs) h = absurd (cc)

ranges_aligned :
    (n : ℕ) (rs : List ByteRange)
    → all (λ (r : ByteRange). r.offset % n == 0) rs ≡ true
    → All (λ (r : ByteRange). r.offset % n ≡ 0) rs
ranges_aligned n [] h = tt
ranges_aligned n (r ∷ rs) h =
    let (a, b) = &&_parts _ _ h in ((==_iff _ _).0 a, ranges_aligned n rs b)

components_aligned :
    (n : ℕ) (cs : List StorageComponent)
    → aligned n cs ≡ true
    → All (λ c. All (λ (r : ByteRange). r.offset % n ≡ 0) c.byte_ranges) cs
components_aligned n [] h = tt
components_aligned n (c ∷ cs) h =
    let (a, b) = &&_parts _ _ h in (ranges_aligned n c.byte_ranges a, components_aligned n cs b)

expected_ok :
    (slot : String) (bytes elem : ℕ) (o : Option ℕ) (u : Unit {0})
    → check_expected slot bytes (expected_bytes o elem) ≡ ok u
    → (n : ℕ) × (o ≡ some n) × (bytes ≡ saturating_mul n elem)
expected_ok slot bytes elem none u h = absurd (cc)
expected_ok slot bytes elem (some n) u h = (
  n,
  refl,
  (==_iff _ _).0 (guard-eq-ok (bytes == saturating_mul n elem) (byte_length_mismatch slot) u h),
)

sized_ok :
    (slot : String) (p : LogicalParameter) (elem : ℕ) (u : Unit {0})
    → check_sized slot p (some elem) ≡ ok u
    → (n : ℕ) × (numel p.logical_type.shape ≡ some n) × (storage_bytes_of p ≡ saturating_mul n elem)
unfolding check_sized
sized_ok slot p elem u h =
    expected_ok slot (storage_bytes_of p) elem (numel p.logical_type.shape) u h

plain_ok :
    (slot : String) (p : LogicalParameter) (enc : PhysicalEncoding) (u : Unit {0})
    → check_plain slot p enc ≡ ok u
    → (t : ScalarType) (order : TensorOrder) (elem : ℕ) → enc ≡ plain t order
    → size_bytes t ≡ some elem
    → (n : ℕ) × (numel p.logical_type.shape ≡ some n) × (storage_bytes_of p ≡ saturating_mul n elem)
unfolding check_plain
plain_ok slot p (plain s o) u h t order elem e q =
    let same : s ≡ t = cc in
    sized_ok slot p elem u (subst (λ k. check_sized slot p k ≡ ok u) (ap size_bytes same ∙ q) h)
plain_ok slot p (PhysicalEncoding.group_quantized g) u h t order elem e q = absurd (cc)
plain_ok slot p (PhysicalEncoding.block_quantized g) u h t order elem e q = absurd (cc)
plain_ok slot p (PhysicalEncoding.sparse a b c) u h t order elem e q = absurd (cc)
plain_ok slot p (PhysicalEncoding.opaque a b c) u h t order elem e q = absurd (cc)

storage_ok :
    (slot : String) (p : LogicalParameter) (u : Unit {0})
    → check_storage slot p ≡ ok u
    → (p.components ≡ []) ⊎ StoredWhole p
unfolding check_storage
storage_ok slot p u h = elim (Bool-cases (is_empty p.components)) [
  | inl e ↦ inl (empty_nil p.components e)
  | inr e ↦ inr (plain_ok slot p p.encoding u (rw e at h))
]

pub bind_parameter-Accepted :
    (scope : String) (slot : ParameterSlot) (p : LogicalParameter)
    → Ensures (bind_parameter scope slot p) (Accepted scope slot p)
unfolding bind_parameter
bind_parameter-Accepted scope slot p =
    then-Ensures (guard-Ensures (rank_allowed slot.expected_type.rank p.logical_type.shape) _)
      (λ u1 ranks.
        then-Ensures (guard-Ensures (shape_allowed slot.expected_type.shape p.logical_type.shape) _)
          (λ u2 shapes.
            then-Ensures (guard-Ensures (roles_compatible slot.role p.role) _) (λ u3 roles.
              then-Ensures
                (guard-Ensures
                  (type_allowed slot.expected_type.element_types p.logical_type.element_type) _)
                (λ u4 types. then-Ensures (self-Ensures (check_storage slot.id p)) (λ u5 stores.
                  then-Ensures (guard-Ensures (not (alignment_of p == 0)) _) (λ u6 nonzero.
                    then-Ensures (guard-Ensures (aligned (alignment_of p) p.components) _)
                      (λ u7 offsets. ok-Ensures (record {
                        logical_rank = ranked slot.expected_type.rank p.logical_type.shape ranks;
                        shape = shaped slot.expected_type.shape p.logical_type.shape shapes;
                        role = roles;
                        element_type =
                            typed slot.expected_type.element_types p.logical_type.element_type
                              types;
                        stored = storage_ok slot.id p u5 stores;
                        some_alignment = positive (alignment_of p) nonzero;
                        offsets = components_aligned (alignment_of p) p.components offsets;
                        made = refl;
                      }))))))))
