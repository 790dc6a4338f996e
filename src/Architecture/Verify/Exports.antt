-- ===== src/Architecture/Verify/Exports.antt =====
-- What the loops over slots and exports test, in
-- crates/dyninfer-architecture/src/builder.rs.
use dyninfer.Prelude.{
  String, ◌≡◌, ◌↔◌, refl, ap, ◌⊎◌, inl, inr, true, false, not, ◌||◌, List, [], ◌∷◌, ◌++◌, map, Memᴰ,
  All, ok, ◌>>◌, guard, is_empty, arith,
}
use dyninfer.Prelude.Eq.{contains, contains_iff, string_eq, option_eq}
use dyninfer.Core.Types.{ParameterSlot}
use dyninfer.Core.Graph.{ArchitectureExport, tensor_type_eq}
use dyninfer.Architecture.Errors.{
  unused_slot, duplicate_export, export_without_output, unknown_export_value,
}
use dyninfer.Architecture.Verify.{require_known, require_used, verify_exports}
use dyninfer.Architecture.Verify.Checks.{
  guard_iff, bind_iff, not-contains_iff, Known, require_known_iff, Fresh, or_iff,
}

pub require_used_iff :
    (consumed : List String) (slots : List ParameterSlot)
    → (require_used consumed slots ≡ ok tt)
      ↔ All (λ s. (s.optional ≡ true) ⊎ Memᴰ s.id consumed) slots
unfolding require_used
require_used_iff consumed [] = (λ h. tt, λ h. refl)
require_used_iff consumed (s ∷ ss) =
    let now =
      guard_iff (s.optional || contains consumed s.id) (unused_slot s.id)
        (require_used consumed ss) in
    let here = or_iff s.optional (contains consumed s.id) in
    let mem = contains_iff consumed s.id in
    let rest = require_used_iff consumed ss in
    (
      λ h.
          let r = now.0 h in
          (elim (here.0 r.0) [ inl e ↦ inl e | inr e ↦ inr (mem.0 e) ], rest.0 r.1),
      λ h. now.1 (here.1 (elim h.0 [ inl e ↦ inl e | inr m ↦ inr (mem.1 m) ]), rest.1 h.1),
    )

-- An export gives something, and names values.
pub record Exportable (value_ids : List String) (x : ArchitectureExport) : Type 0 where
  pub gives : is_empty x.outputs ≡ false
  pub values_known : Known value_ids (x.inputs ++ x.outputs)

pub verify_exports_iff :
    (value_ids names : List String) (xs : List ArchitectureExport)
    → (verify_exports value_ids names xs ≡ ok tt)
      ↔ (Fresh names (map (λ x. x.name) xs) × All (Exportable value_ids) xs)
unfolding verify_exports
verify_exports_iff value_ids names [] = (λ h. (tt, tt), λ h. refl)
verify_exports_iff value_ids names (x ∷ xs) =
    let more = verify_exports value_ids (x.name ∷ names) xs in
    let known = require_known (unknown_export_value x.name) value_ids (x.inputs ++ x.outputs) in
    let a =
      guard_iff (not (contains names x.name)) (duplicate_export x.name)
        (guard (not (is_empty x.outputs)) (export_without_output x.name) >> (known >> more)) in
    let b = guard_iff (not (is_empty x.outputs)) (export_without_output x.name) (known >> more) in
    let c = bind_iff known (λ u. more) {a = tt} in
    let new = not-contains_iff names x.name in
    let ids = require_known_iff (unknown_export_value x.name) value_ids (x.inputs ++ x.outputs) in
    let rest = verify_exports_iff value_ids (x.name ∷ names) xs in
    (
      λ h.
          let r = a.0 h in
          let s = b.0 r.1 in
          let (u, q, w) = c.0 s.1 in
          let z = rest.0 w in
          ((new.0 r.0, z.0), (record { gives = ground arith; values_known = ids.0 q }, z.1)),
      λ h. a.1 (
        new.1 h.0.0,
        b.1 (ap not h.1.0.gives, c.1 (tt, ids.1 h.1.0.values_known, rest.1 (h.0.1, h.1.1))),
      ),
    )
