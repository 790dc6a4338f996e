-- ===== src/Architecture/Verify/WellFormed.antt =====
-- `verify_architecture_graph` of crates/dyninfer-architecture/src/builder.rs against a description of a
-- graph that is well formed.
use mathlib.Core.Path.{subst}
use dyninfer.Prelude.{
  String, ◌≡◌, ◌↔◌, refl, sym, ◌⊎◌, inl, inr, true, List, [], ◌++◌, map, Memᴰ, All, All-imp, ok,
  >>=-eq-ok, ◌==◌, ==_iff,
}
use dyninfer.Core.Types.{ParameterSlot}
use dyninfer.Core.Graph.{GraphValue, ArchitectureOperation, ArchitectureExport, ArchitectureGraph}
use dyninfer.Architecture.Errors.{duplicate_value, duplicate_slot, no_producer}
use dyninfer.Architecture.Verify.{
  Seen, insert_new, require_known, verify_operations, require_used, verify_exports,
  verify_architecture_graph,
}
use dyninfer.Architecture.Verify.Checks.{
  guard_iff, Known, require_known_iff, onto, insert_new_iff, Unique,
}
use dyninfer.Architecture.Verify.Operations.{
  outputs_of, parameters_of, ids_of, Declared, consumed_from, verify_operations_iff,
}
use dyninfer.Architecture.Verify.Exports.{require_used_iff, Exportable, verify_exports_iff}
use dyninfer.Architecture.Verify.Sets.{Fresh-Unique, mem-onto_nil, Known-map, consumed-mem}

abbrev nothing_seen : Seen
nothing_seen = record { operation_ids = []; produced = []; consumed = [] }

module _ {F : Type 0} where
  Declared-map :
      (values : List GraphValue) {v v' s s' : List String} (ops : List (ArchitectureOperation F))
      → ((id : String) → Memᴰ id v → Memᴰ id v')
      → ((id : String) → Memᴰ id s → Memᴰ id s')
      → All (Declared values v s) ops
      → All (Declared values v' s') ops
  Declared-map values ops f g h =
      All-imp _ _
        (λ op d. record {
          inputs_known = Known-map op.inputs f d.inputs_known;
          outputs_known = Known-map op.outputs f d.outputs_known;
          parameters_known = Known-map op.parameters g d.parameters_known;
          binary_typed = d.binary_typed;
        })
        ops h

  abbrev pub value_ids_of : ArchitectureGraph F → List String
  value_ids_of g = map (λ v. v.id) g.values

  abbrev pub slot_ids_of : ArchitectureGraph F → List String
  slot_ids_of g = map (λ s. s.id) g.parameter_slots

  -- Ids are unique, what is referred to is declared, each value has one producer, each required slot is
  -- read, the inputs of a binary operation have one type, and the exports give values of the graph.
  pub record WellFormed (g : ArchitectureGraph F) : Type 0 where
    pub version_one : g.version ≡ 1
    pub values_unique : Unique (value_ids_of g)
    pub slots_unique : Unique (slot_ids_of g)
    pub operations_unique : Unique (ids_of g.operations)
    pub one_producer : Unique (outputs_of g.operations)
    pub declared : All (Declared g.values (value_ids_of g) (slot_ids_of g)) g.operations
    pub produced : Known (outputs_of g.operations) (value_ids_of g)
    pub used :
        All (λ s. (s.optional ≡ true) ⊎ Memᴰ s.id (parameters_of g.operations)) g.parameter_slots
    pub exports_unique : Unique (map (λ x. x.name) g.exports)
    pub exportable : All (Exportable (value_ids_of g)) g.exports

  -- every test of the verification passed, with what it computed on the way
  record Stages (g : ArchitectureGraph F) (value_ids slot_ids : List String) (seen : Seen)
      : Type 0 where
    version : (g.version == 1) ≡ true
    values : insert_new duplicate_value [] (value_ids_of g) ≡ ok value_ids
    slots : insert_new duplicate_slot [] (slot_ids_of g) ≡ ok slot_ids
    operations : verify_operations g.values value_ids slot_ids nothing_seen g.operations ≡ ok seen
    produced : require_known no_producer seen.produced (value_ids_of g) ≡ ok tt
    used : require_used seen.consumed g.parameter_slots ≡ ok tt
    exports : verify_exports value_ids [] g.exports ≡ ok tt

  verify-Stages :
      (g : ArchitectureGraph F)
      → verify_architecture_graph g ≡ ok tt
      → (vs ss : List String) × (seen : Seen) × Stages g vs ss seen
  unfolding verify_architecture_graph
  verify-Stages g h =
      let (version, h1) = (guard_iff (g.version == 1) _ _).0 h in
      let (vs, values, h2) = >>=-eq-ok (insert_new duplicate_value [] (value_ids_of g)) _ h1 in
      let (ss, slots, h3) = >>=-eq-ok (insert_new duplicate_slot [] (slot_ids_of g)) _ h2 in
      let (seen, operations, h4) =
        >>=-eq-ok (verify_operations g.values vs ss nothing_seen g.operations) _ h3 in
      let (u, produced, h5) =
        >>=-eq-ok (require_known no_producer seen.produced (value_ids_of g)) _ h4 in
      let (u', used, exports) = >>=-eq-ok (require_used seen.consumed g.parameter_slots) _ h5 in
      (
        vs,
        ss,
        seen,
        record {
          version = version;
          values = values;
          slots = slots;
          operations = operations;
          produced = produced;
          used = used;
          exports = exports;
        },
      )

  Stages-verify :
      (g : ArchitectureGraph F) {vs ss : List String} {seen : Seen}
      → Stages g vs ss seen
      → verify_architecture_graph g ≡ ok tt
  unfolding verify_architecture_graph
  Stages-verify g s =
      simp (s.version, s.values, s.slots, s.operations, s.produced, s.used, s.exports)

  Stages-WellFormed :
      (g : ArchitectureGraph F) {vs ss : List String} {seen : Seen}
      → Stages g vs ss seen
      → WellFormed g
  Stages-WellFormed g {vs} {ss} {seen} s =
      let (fresh_values, all_values) =
        (insert_new_iff duplicate_value [] (value_ids_of g) vs).0 s.values in
      let (fresh_slots, all_slots) =
        (insert_new_iff duplicate_slot [] (slot_ids_of g) ss).0 s.slots in
      let p =
        (verify_operations_iff g.values vs ss nothing_seen g.operations seen).0 s.operations in
      let (fresh_names, exportable) = (verify_exports_iff vs [] g.exports).0 s.exports in
      let to_value : (id : String) → Memᴰ id vs → Memᴰ id (value_ids_of g) =
        λ id m. (mem-onto_nil (value_ids_of g)).0 (subst (Memᴰ id) (sym all_values) m) in
      let to_slot : (id : String) → Memᴰ id ss → Memᴰ id (slot_ids_of g) =
        λ id m. (mem-onto_nil (slot_ids_of g)).0 (subst (Memᴰ id) (sym all_slots) m) in
      let from_produced : (id : String)
          → Memᴰ id seen.produced
          → Memᴰ id (outputs_of g.operations) =
        λ id m.
          (mem-onto_nil (outputs_of g.operations)).0 (subst (Memᴰ id) (sym p.produced_after) m) in
      let from_consumed : (t : ParameterSlot)
          → (t.optional ≡ true) ⊎ Memᴰ t.id seen.consumed
          → (t.optional ≡ true) ⊎ Memᴰ t.id (parameters_of g.operations) =
        λ t h. elim h [
          | inl e ↦ inl e
          | inr m ↦
              elim ((consumed-mem g.values vs ss [] g.operations).0
                (subst (Memᴰ t.id) (sym p.consumed_after) m)) [ inl k ↦ elim k [ ] | inr k ↦ inr k ]
        ] in
      let to_export : (x : ArchitectureExport) → Exportable vs x → Exportable (value_ids_of g) x =
        λ x e. record {
          gives = e.gives;
          values_known = Known-map (x.inputs ++ x.outputs) to_value e.values_known;
        } in
      record {
        version_one = (==_iff g.version 1).0 s.version;
        values_unique = (Fresh-Unique (value_ids_of g)).0 fresh_values;
        slots_unique = (Fresh-Unique (slot_ids_of g)).0 fresh_slots;
        operations_unique = (Fresh-Unique (ids_of g.operations)).0 p.new_ids;
        one_producer = (Fresh-Unique (outputs_of g.operations)).0 p.new_outputs;
        declared = Declared-map g.values g.operations to_value to_slot p.declared;
        produced =
            Known-map (value_ids_of g) from_produced
              ((require_known_iff no_producer seen.produced (value_ids_of g)).0 s.produced);
        used =
            All-imp _ _ from_consumed g.parameter_slots
              ((require_used_iff seen.consumed g.parameter_slots).0 s.used);
        exports_unique = (Fresh-Unique (map (λ x. x.name) g.exports)).0 fresh_names;
        exportable = All-imp _ _ to_export g.exports exportable;
      }

  WellFormed-Stages :
      (g : ArchitectureGraph F)
      → WellFormed g
      → Stages g (onto [] (value_ids_of g)) (onto [] (slot_ids_of g)) (record {
        operation_ids = onto [] (ids_of g.operations);
        produced = onto [] (outputs_of g.operations);
        consumed =
            consumed_from g.values
              (onto [] (value_ids_of g))
              (onto [] (slot_ids_of g))
              []
              g.operations;
      })
  WellFormed-Stages g w =
      let vs = onto [] (value_ids_of g) in
      let ss = onto [] (slot_ids_of g) in
      let to_value : (id : String) → Memᴰ id (value_ids_of g) → Memᴰ id vs =
        λ id m. (mem-onto_nil (value_ids_of g)).1 m in
      let to_slot : (id : String) → Memᴰ id (slot_ids_of g) → Memᴰ id ss =
        λ id m. (mem-onto_nil (slot_ids_of g)).1 m in
      let to_produced : (id : String)
          → Memᴰ id (outputs_of g.operations)
          → Memᴰ id (onto [] (outputs_of g.operations)) =
        λ id m. (mem-onto_nil (outputs_of g.operations)).1 m in
      let to_consumed : (t : ParameterSlot)
          → (t.optional ≡ true) ⊎ Memᴰ t.id (parameters_of g.operations)
          → (t.optional ≡ true) ⊎ Memᴰ t.id (consumed_from g.values vs ss [] g.operations) =
        λ t h. elim h [
          | inl e ↦ inl e
          | inr m ↦ inr ((consumed-mem g.values vs ss [] g.operations).1 (inr m))
        ] in
      let to_export : (x : ArchitectureExport) → Exportable (value_ids_of g) x → Exportable vs x =
        λ x e. record {
          gives = e.gives;
          values_known = Known-map (x.inputs ++ x.outputs) to_value e.values_known;
        } in
      record {
        version = (==_iff g.version 1).1 w.version_one;
        values =
            (insert_new_iff duplicate_value [] (value_ids_of g) vs).1
              ((Fresh-Unique _).1 w.values_unique, refl);
        slots =
            (insert_new_iff duplicate_slot [] (slot_ids_of g) ss).1
              ((Fresh-Unique _).1 w.slots_unique, refl);
        operations = (verify_operations_iff g.values vs ss nothing_seen g.operations _).1 (record {
          new_ids = (Fresh-Unique _).1 w.operations_unique;
          new_outputs = (Fresh-Unique _).1 w.one_producer;
          declared = Declared-map g.values g.operations to_value to_slot w.declared;
          ids_after = refl;
          produced_after = refl;
          consumed_after = refl;
        });
        produced =
            (require_known_iff no_producer _ (value_ids_of g)).1
              (Known-map (value_ids_of g) to_produced w.produced);
        used =
            (require_used_iff _ g.parameter_slots).1
              (All-imp _ _ to_consumed g.parameter_slots w.used);
        exports =
            (verify_exports_iff vs [] g.exports).1
              ((Fresh-Unique _).1 w.exports_unique, All-imp _ _ to_export g.exports w.exportable);
      }

  -- A graph passes the verification exactly if it is well formed.
  pub verify_architecture_graph_iff :
      (g : ArchitectureGraph F) → (verify_architecture_graph g ≡ ok tt) ↔ WellFormed g
  verify_architecture_graph_iff g =
      (λ h. Stages-WellFormed g (verify-Stages g h).3, λ w. Stages-verify g (WellFormed-Stages g w))
