-- ===== src/Quantization/Coverage/Slots.antt =====
-- What the maps and the lists of the dry run of crates/dyninfer-quantization/src/lib.rs hold.
use dyninfer.Prelude.{
  ◌≡◌, refl, sym, ap, ◌∙◌, String, Bool, true, Option, none, some, List, [], ◌∷◌, Memᴰ, inl, inr,
  Bool-cases, Option-cases, str_eq, str_eq_iff, arith, all, any, any-mem, find, find-some, map,
  &&_parts,
}
use dyninfer.Prelude.Eq.{eq}
use dyninfer.Prelude.Assoc.{get}
use dyninfer.Prelude.Membership.{mem-append_parts, mem-append_right}
use dyninfer.Core.Ir.{ExecutionMode, prefill, decode, mode_eq}
use dyninfer.Core.Graph.{ArchitectureExport}
use dyninfer.Core.Types.{ParameterBinding}
use dyninfer.Checkpoint.Catalog.{LogicalParameter}
use dyninfer.Kernel.{SelectedKernelCandidate}
use dyninfer.Quantization.Coverage.{
  OperationCoverage, selected_of, definitions_by_slot, entry_before, modes_of, kernel_of,
}

module _ {A : Type 0} where
  pub all-mem : (p : A → Bool) (xs : List A) {a : A} → all p xs ≡ true → Memᴰ a xs → p a ≡ true
  all-mem p [] h m = elim m [ ]
  all-mem p (x ∷ xs) h (Memᴰ.head q) = rw q (&&_parts (p x) (all p xs) h).0
  all-mem p (x ∷ xs) h (Memᴰ.tail m) = all-mem p xs (&&_parts (p x) (all p xs) h).1 m

  pub mem-map : {B : Type 0} (f : A → B) (xs : List A) {a : A} → Memᴰ a xs → Memᴰ (f a) (map f xs)
  mem-map f [] m = elim m [ ]
  mem-map f (x ∷ xs) (Memᴰ.head q) = Memᴰ.head (ap f q)
  mem-map f (x ∷ xs) (Memᴰ.tail m) = Memᴰ.tail (mem-map f xs m)

  -- an entry that is found stands in the list
  pub mem-get : (m : List (String × A)) (k : String) {v : A} → get m k ≡ some v → Memᴰ (k, v) m
  unfolding get
  mem-get [] k h = absurd (cc)
  mem-get ((l, w) ∷ m) k {v} h = elim (Bool-cases (str_eq l k)) [
    | inl q ↦ let same = (str_eq_iff l k).0 q in let value : w ≡ v = ground arith in Memᴰ.head (cc)
    | inr q ↦ Memᴰ.tail (mem-get m k (ground arith))
  ]

pub modes_of-mem :
    (exports : List ArchitectureExport) {export : ArchitectureExport}
    → Memᴰ export exports
    → Memᴰ export.mode (modes_of exports)
unfolding modes_of
modes_of-mem exports {export} m = at export.mode refl
  where
    at : (mode : ExecutionMode) → export.mode ≡ mode → Memᴰ export.mode (modes_of exports)
    at prefill q =
        let has : any (λ e. eq e.mode prefill) exports ≡ true =
          any-mem (λ e. eq e.mode prefill) m (rw q refl) in
        rw (q, has) (Memᴰ.head refl)
    at decode q =
        let has : any (λ e. eq e.mode decode) exports ≡ true =
          any-mem (λ e. eq e.mode decode) m (rw q refl) in
        rw (q, has) (mem-append_right _ _ (Memᴰ.head refl))

-- a slot's parameter is one of the catalog, bound to the slot
pub record Bound (parameters : List LogicalParameter) (bindings : List ParameterBinding)
    (slot : String) (p : LogicalParameter) : Type 0 where
  pub binding : ParameterBinding
  pub listed : Memᴰ binding bindings
  pub slot_agrees : binding.slot_id ≡ slot
  pub known : Memᴰ p parameters
  pub name_agrees : p.canonical_name ≡ binding.canonical_name

module _ (parameters : List LogicalParameter) where
  later-Bound :
      (b : ParameterBinding) (bindings : List ParameterBinding) {slot : String}
      {p : LogicalParameter}
      → Bound parameters bindings slot p
      → Bound parameters (b ∷ bindings) slot p
  later-Bound b bindings rest = record {
    binding = rest.binding;
    listed = Memᴰ.tail rest.listed;
    slot_agrees = rest.slot_agrees;
    known = rest.known;
    name_agrees = rest.name_agrees;
  }

  here-Bound :
      (b : ParameterBinding) (bindings : List ParameterBinding) {slot : String}
      {p found : LogicalParameter}
      → find (λ q. str_eq q.canonical_name b.canonical_name) parameters ≡ some found
      → ◌≡◌ {A = String × LogicalParameter} (slot, p) (b.slot_id, found)
      → Bound parameters (b ∷ bindings) slot p
  here-Bound b bindings {found = found} q same =
      let (named, member) =
        find-some (λ c. str_eq c.canonical_name b.canonical_name) parameters q in
      let name = (str_eq_iff found.canonical_name b.canonical_name).0 named in
      let is_found = ap (λ x. x.1) same in
      record {
        binding = b;
        listed = Memᴰ.head refl;
        slot_agrees = sym (ap (λ x. x.0) same);
        known = rw is_found member;
        name_agrees = ap (λ (x : LogicalParameter). x.canonical_name) is_found ∙ name;
      }

  entry_before-Bound :
      (b : ParameterBinding) (bindings : List ParameterBinding)
      (rest : List (String × LogicalParameter)) {slot : String} {p : LogicalParameter}
      → (Memᴰ (slot, p) rest → Bound parameters bindings slot p)
      → (o : Option LogicalParameter)
      → find (λ q. str_eq q.canonical_name b.canonical_name) parameters ≡ o
      → Memᴰ (slot, p) (entry_before rest b.slot_id o)
      → Bound parameters (b ∷ bindings) slot p
  entry_before-Bound b bindings rest known none q m = later-Bound b bindings (known m)
  entry_before-Bound b bindings rest known (some found) q m = elim (mem-append_parts rest _ m) [
    | inl k ↦ later-Bound b bindings (known k)
    | inr (Memᴰ.tail k) ↦ elim k [ ]
    | inr (Memᴰ.head same) ↦ here-Bound b bindings q same
  ]

  pub definitions_by_slot-Bound :
      (bindings : List ParameterBinding) {slot : String} {p : LogicalParameter}
      → Memᴰ (slot, p) (definitions_by_slot parameters bindings)
      → Bound parameters bindings slot p
  unfolding definitions_by_slot
  definitions_by_slot-Bound [] m = elim m [ ]
  definitions_by_slot-Bound (b ∷ bindings) m =
      entry_before-Bound b bindings (definitions_by_slot parameters bindings)
        (definitions_by_slot-Bound bindings) _ refl m

-- a selected kernel is among the selected kernels
pub selected_of-mem :
    (os : List OperationCoverage) {o : OperationCoverage} {s : SelectedKernelCandidate}
    → Memᴰ o os
    → o.selected ≡ some s
    → Memᴰ (kernel_of o s) (selected_of os)
unfolding selected_of
selected_of-mem [] m h = elim m [ ]
selected_of-mem (x ∷ os) {o} {s} (Memᴰ.head q) h =
    let here : x.selected ≡ some s = ap (λ (c : OperationCoverage). c.selected) (sym q) ∙ h in
    rw here (Memᴰ.head (ap (λ c. kernel_of c s) q))
selected_of-mem (x ∷ os) {o} {s} (Memᴰ.tail m) h = elim (Option-cases x.selected) [
  | inl q ↦ rw q (selected_of-mem os m h)
  | inr (t, q) ↦ rw q (Memᴰ.tail (selected_of-mem os m h))
]
