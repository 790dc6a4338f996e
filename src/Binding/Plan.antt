-- ===== src/Binding/Plan.antt =====
-- The plan that `bind` of crates/dyninfer-binding/src/lib.rs returns: every slot is bound or is an
-- optional one without a parameter, and the slots of a tied group have one shape.
use mathlib.Core.List.{append_assoc, append-nil}
use mathlib.Core.Path.{subst}
use dyninfer.Prelude.{
  String, ◌≡◌, ◌∙◌, refl, sym, ap, ◌⊎◌, inl, inr, Bool, true, false, Option, none, some, List, [],
  ◌∷◌, ◌++◌, map, Memᴰ, All, All-mem, All-imp, ok, Ensures, then-Ensures, ok-Ensures, guard-Ensures,
  imp-Ensures, str_eq, str_eq_iff, Bool-cases,
}
use dyninfer.Prelude.Assoc.{get, insert}
use dyninfer.Core.Shape.{Shape, is_compatible_with}
use dyninfer.Core.Types.{ParameterSlot, ParameterBinding, BindingPlan}
use dyninfer.Checkpoint.Catalog.{LogicalParameter, CheckpointCatalog}
use dyninfer.Binding.{by_name}
use dyninfer.Binding.Binder.{
  Bound, bind_found, bind_slot, tie, tie_shape, skip_slot, record_slot, bind_slots, bind,
}
use dyninfer.Binding.Accepted.{Accepted, bind_parameter-Accepted, shapes_equal}

abbrev Ties : Type 0
Ties = List (String × (String × Shape))

-- the group of the slot, where it has one, has this shape
abbrev Tied : Ties → ParameterSlot → Shape → Type 0
Tied tied slot shape =
    (g : String) → slot.tied_group ≡ some g → (o : String) × (get tied g ≡ some (o, shape))

-- no group loses its shape
abbrev Extends : Ties → Ties → Type 0
Extends before after =
    (g : String) (w : String × Shape) → get before g ≡ some w → get after g ≡ some w

insert-Extends :
    (m : Ties) (key : String) (v : String × Shape) → get m key ≡ none → Extends m (insert m key v)
unfolding get
insert-Extends m key v absent g w h = elim (Bool-cases (str_eq key g)) [
  | inl e ↦
      let q = (str_eq_iff key g).0 e in
      let k : get m g ≡ none = subst (λ x. get m x ≡ none) q absent in absurd (cc)
  | inr e ↦ rw e h
]

get-insert : (m : Ties) (key : String) (v : String × Shape) → get (insert m key v) key ≡ some v
unfolding get
get-insert m key v = let t = (str_eq_iff key key).1 refl in rw t refl

tie_shape-Tied :
    (m : Ties) (slot : ParameterSlot) (shape : Shape) (group : String) (o : Option (String × Shape))
    → get m group ≡ o
    → Ensures
        (tie_shape m slot shape group o)
        (λ after. Extends m after × ((n : String) × (get after group ≡ some (n, shape))))
tie_shape-Tied m slot shape group none e =
    ok-Ensures
      (insert-Extends m group (slot.id, shape) e, (slot.id, get-insert m group (slot.id, shape)))
tie_shape-Tied m slot shape group (some (other_slot, other_shape)) e =
    then-Ensures (guard-Ensures (is_compatible_with other_shape shape) _) (λ u same.
      let q = shapes_equal other_shape shape same in
      ok-Ensures ((λ g w h. h), (other_slot, e ∙ ap (λ x. some (other_slot, x)) q)))

tie-Tied :
    (m : Ties) (slot : ParameterSlot) (shape : Shape) (o : Option String)
    → slot.tied_group ≡ o
    → Ensures (tie m slot shape o) (λ after. Extends m after × Tied after slot shape)
unfolding tie
tie-Tied m slot shape none e = ok-Ensures ((λ g w h. h), (λ g h. absurd (cc)))
tie-Tied m slot shape (some group) e =
    imp-Ensures (tie_shape-Tied m slot shape group (get m group) refl) (λ after r. (
      r.0,
      λ g h.
          let same : group ≡ g = cc in
          subst (λ x. (o : String) × (get after x ≡ some (o, shape))) same r.1,
    ))

-- a slot and its binding
abbrev pub Pair : Type 0
Pair = ParameterSlot × ParameterBinding

abbrev pub binding_in : ParameterSlot × ParameterBinding → ParameterBinding
binding_in p = p.1

module _ (scope : String) (names : List (String × LogicalParameter)) where
  -- the slot is bound to the parameter that its name stands for
  abbrev pub BoundTo : ParameterSlot → ParameterBinding → Type 0
  BoundTo slot b =
      (p : LogicalParameter) × (get names slot.canonical_name ≡ some p) × Accepted scope slot p b

  -- Each slot, in order, is bound, or it is optional, nothing has its name, and it is listed as unresolved.
  abbrev pub Resolves :
      List ParameterSlot → List (ParameterSlot × ParameterBinding) → List String → Type 0
  Resolves [] pairs unresolved = (pairs ≡ []) × (unresolved ≡ [])
  Resolves (slot ∷ slots) pairs unresolved =
      ((b : ParameterBinding) × (rest : List (ParameterSlot × ParameterBinding)) × (pairs
          ≡ (slot, b) ∷ rest)
        × BoundTo slot b
        × Resolves slots rest unresolved)
      ⊎ ((rest : List String) × (unresolved ≡ slot.id ∷ rest)
          × (slot.optional ≡ true)
          × (get names slot.canonical_name ≡ none)
          × Resolves slots pairs rest)

  -- what the loop adds to its variables
  abbrev Added : Bound → Bound → List ParameterSlot → Type 0
  Added s t slots =
      (pairs : List (ParameterSlot × ParameterBinding)) × (unresolved : List String) × (t.bindings
        ≡ s.bindings ++ map binding_in pairs)
      × (t.unresolved_optional ≡ s.unresolved_optional ++ unresolved)
      × Resolves slots pairs unresolved
      × Extends s.tied_shapes t.tied_shapes
      × All (λ (p : Pair). Tied t.tied_shapes p.0 p.1.logical_shape) pairs

  bind_found-BoundTo :
      (slot : ParameterSlot) (o : Option LogicalParameter)
      → get names slot.canonical_name ≡ o
      → Ensures (bind_found scope slot o) (λ r.
        ((r ≡ none) × (get names slot.canonical_name ≡ none))
        ⊎ ((b : ParameterBinding) × (r ≡ some b) × BoundTo slot b))
  unfolding bind_found
  bind_found-BoundTo slot none e = ok-Ensures (inl (refl, e))
  bind_found-BoundTo slot (some p) e =
      then-Ensures (bind_parameter-Accepted scope slot p)
        (λ b good. ok-Ensures (inr (b, refl, (p, e, good))))

  skip_slot-Added :
      (slot : ParameterSlot) (s : Bound) (o : Bool)
      → slot.optional ≡ o
      → get names slot.canonical_name ≡ none
      → Ensures (skip_slot slot s o) (λ t. Added s t (slot ∷ []))
  skip_slot-Added slot s true e absent = ok-Ensures (
    [],
    slot.id ∷ [],
    sym (append-nil s.bindings),
    refl,
    inr ([], refl, e, absent, (refl, refl)),
    (λ g w h. h),
    tt,
  )
  skip_slot-Added slot s false e absent = record { run = λ t h. absurd (cc) }

  -- one slot
  record_slot-Added :
      (slot : ParameterSlot) (found : Option ParameterBinding) (s : Bound)
      → ((found ≡ none) × (get names slot.canonical_name ≡ none))
        ⊎ ((b : ParameterBinding) × (found ≡ some b) × BoundTo slot b)
      → Ensures (record_slot slot found s) (λ t. Added s t (slot ∷ []))
  unfolding record_slot
  record_slot-Added slot none s (inl (e, absent)) = skip_slot-Added slot s slot.optional refl absent
  record_slot-Added slot none s (inr (b, e, good)) = absurd (cc)
  record_slot-Added slot (some b) s (inl (e, absent)) = absurd (cc)
  record_slot-Added slot (some b) s (inr (c, e, good)) =
      let same : c ≡ b = cc in
      then-Ensures (tie-Tied s.tied_shapes slot b.logical_shape slot.tied_group refl) (λ tied r.
        ok-Ensures (
          (slot, b) ∷ [],
          [],
          refl,
          sym (append-nil s.unresolved_optional),
          inl (b, [], refl, subst (BoundTo slot) same good, (refl, refl)),
          r.0,
          (r.1, tt),
        ))

  -- the step of one slot before those of the others
  Resolves-cons :
      (slot : ParameterSlot) (slots : List ParameterSlot)
      (ps qs : List (ParameterSlot × ParameterBinding)) (us vs : List String)
      → Resolves (slot ∷ []) ps us
      → Resolves slots qs vs
      → Resolves (slot ∷ slots) (ps ++ qs) (us ++ vs)
  Resolves-cons slot slots ps qs us vs (inl (b, rest, e, good, done)) r = inl (
    b,
    qs,
    ap (λ x. x ++ qs) (e ∙ ap (λ x. (slot, b) ∷ x) done.0),
    good,
    subst (λ x. Resolves slots qs (x ++ vs)) (sym done.1) r,
  )
  Resolves-cons slot slots ps qs us vs (inr (rest, e, o, absent, done)) r = inr (
    vs,
    ap (λ x. x ++ vs) (e ∙ ap (λ x. slot.id ∷ x) done.1),
    o,
    absent,
    subst (λ x. Resolves slots (x ++ qs) vs) (sym done.0) r,
  )

  map-append :
      (ps qs : List (ParameterSlot × ParameterBinding))
      → map binding_in (ps ++ qs) ≡ map binding_in ps ++ map binding_in qs
  map-append [] qs = refl
  map-append (p ∷ ps) qs = ap (λ t. binding_in p ∷ t) (map-append ps qs)

  All-append_pairs :
      (P : Pair → Type 0) (ps qs : List (ParameterSlot × ParameterBinding))
      → All P ps
      → All P qs
      → All P (ps ++ qs)
  All-append_pairs P [] qs h k = k
  All-append_pairs P (p ∷ ps) qs h k = (h.0, All-append_pairs P ps qs h.1 k)

  bind_slots-Added :
      (slots : List ParameterSlot) (s : Bound)
      → Ensures (bind_slots scope names slots s) (λ t. Added s t slots)
  unfolding bind_slots bind_slot
  bind_slots-Added [] s = ok-Ensures (
    [],
    [],
    sym (append-nil s.bindings),
    sym (append-nil s.unresolved_optional),
    (refl, refl),
    (λ g w h. h),
    tt,
  )
  bind_slots-Added (slot ∷ slots) s =
      then-Ensures (bind_found-BoundTo slot (get names slot.canonical_name) refl) (λ found r.
        then-Ensures (record_slot-Added slot found s r) (λ m (ps, us, bs, os, rs, ext, tied).
          imp-Ensures (bind_slots-Added slots m) (λ t (qs, vs, bs', os', rs', ext', tied'). (
            ps ++ qs,
            us ++ vs,
            bs'
                ∙ ap (λ x. x ++ map binding_in qs) bs
                ∙ append_assoc s.bindings (map binding_in ps) (map binding_in qs)
                ∙ ap (λ x. s.bindings ++ x) (sym (map-append ps qs)),
            os' ∙ ap (λ x. x ++ vs) os ∙ append_assoc s.unresolved_optional us vs,
            Resolves-cons slot slots ps qs us vs rs rs',
            (λ g w h. ext' g w (ext g w h)),
            All-append_pairs (λ (p : Pair). Tied t.tied_shapes p.0 p.1.logical_shape) ps qs
                (All-imp (λ (p : Pair). Tied m.tied_shapes p.0 p.1.logical_shape)
                  (λ (p : Pair). Tied t.tied_shapes p.0 p.1.logical_shape)
                  (λ p k g e. let q = k g e in (q.0, ext' g _ q.1)) ps tied)
                tied',
          ))))

-- bindings of two slots of one group have one shape
abbrev pub SameShape : ParameterSlot × ParameterBinding → ParameterSlot × ParameterBinding → Type 0
SameShape p q =
    (g : String)
    → p.0.tied_group ≡ some g
    → q.0.tied_group ≡ some g
    → p.1.logical_shape ≡ q.1.logical_shape

Tied-SameShape :
    (m : Ties) (p q : ParameterSlot × ParameterBinding)
    → Tied m p.0 p.1.logical_shape
    → Tied m q.0 q.1.logical_shape
    → SameShape p q
Tied-SameShape m p q h k g e f = let a = (h g e).1 in let b = (k g f).1 in cc

-- In a plan that `bind` returns, each slot of the architecture, in order, is bound to the parameter that
-- its name stands for, which meets the slot's constraints, or it is optional, its name stands for nothing,
-- and it is listed as unresolved; there are no other bindings, and any two slots of a tied group are bound
-- with one shape.
pub bind-Resolves :
    (scope architecture_id : String) (slots : List ParameterSlot) (catalog : CheckpointCatalog)
    (plan : BindingPlan)
    → bind scope architecture_id slots catalog ≡ ok plan
    → (pairs : List (ParameterSlot × ParameterBinding)) × (plan.bindings ≡ map binding_in pairs)
      × Resolves scope (by_name catalog.parameters) slots pairs plan.unresolved_optional_slots
      × ((p q : ParameterSlot × ParameterBinding) → Memᴰ p pairs → Memᴰ q pairs → SameShape p q)
unfolding bind
bind-Resolves scope architecture_id slots catalog plan e =
    let names = by_name catalog.parameters in
    let whole : Ensures (bind scope architecture_id slots catalog) (λ plan.
      (pairs : List (ParameterSlot × ParameterBinding)) × (plan.bindings ≡ map binding_in pairs)
      × Resolves scope names slots pairs plan.unresolved_optional_slots
      × ((p q : ParameterSlot × ParameterBinding) → Memᴰ p pairs → Memᴰ q pairs → SameShape p q)) =
      then-Ensures
        (bind_slots-Added scope names slots
          (record { bindings = []; unresolved_optional = []; tied_shapes = [] }))
        (λ t (pairs, us, bs, os, rs, ext, tied). ok-Ensures (
          pairs,
          bs,
          subst (λ x. Resolves scope names slots pairs x) (sym os) rs,
          λ p q m n.
              Tied-SameShape t.tied_shapes p q
                (All-mem (λ (p : Pair). Tied t.tied_shapes p.0 p.1.logical_shape) tied m)
                (All-mem (λ (p : Pair). Tied t.tied_shapes p.0 p.1.logical_shape) tied n),
        )) in
    whole.run plan e
