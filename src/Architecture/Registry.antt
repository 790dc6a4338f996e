-- ===== src/Architecture/Registry.antt =====
-- crates/dyninfer-architecture/src/registry.rs, package.rs and lib.rs: the registered
-- architectures, the choice of one, and the package of a built graph. The registry is a hash map: its
-- entries are listed here in the order in which `values()` gives them.
pub mod Resolution
pub mod Packages
mod Tests
use dyninfer.Prelude.{
  ℕ, String, Bool, true, false, not, ◌&&◌, ◌||◌, Option, none, some, List, [], ◌∷◌, ◌++◌, any, find,
  filter, map, str_eq, Result, ok, err, ◌>>=◌, ok_or, if◌then◌else◌,
}
use dyninfer.Prelude.Options.{or_else, map_some}
use dyninfer.Prelude.Assoc.{get}
use dyninfer.Prelude.Json.{Json, string}
use dyninfer.Prelude.Strings.{
  trim, is_empty_text, eq_ignore_ascii_case, to_ascii_lowercase, strip_suffix,
}
use dyninfer.Core.Graph.{ArchitectureGraph}
use dyninfer.Architecture.Errors.{ArchitectureError, unknown_architecture, unresolved_architecture}
use dyninfer.Architecture.Config.{ConfigField, MetadataMap, resolve}
use dyninfer.Architecture.Builder.{ModelBuilder, Build, new, set_architecture_id}
use dyninfer.Architecture.Models.{build_decoder, build_hybrid}
use dyninfer.Checkpoint.Catalog.{ParameterCatalog, CheckpointCatalog}
use dyninfer.Architecture.Naming.{
  canonicalize_hf_family, canonicalize_lfm2, tie_output_to_embed, rename_catalog,
}
use dyninfer.Architecture.Remapping.{
  model_type_candidates, meta_model_type_candidates, remap_model_type,
}
use dyninfer.Architecture.Schemas.{
  llama_fields, qwen3_fields, lfm2_fields, llama_types, qwen3_types, lfm2_types,
}

-- `ArchitectureDefinition`
pub record Definition (F : Type 0) : Type 0 where
  pub id : String
  pub revision : String
  pub fields : List ConfigField
  pub model_types : List String
  pub canonicalize_param : String → Option String
  pub sanitize_catalog : ParameterCatalog → ParameterCatalog
  pub build : MetadataMap → Build F (ArchitectureGraph F)

pub record ArchitecturePackage (F : Type 0) : Type 0 where
  pub id : String
  pub revision : String
  pub graph : ArchitectureGraph F
  pub resolved_config : MetadataMap

abbrev pub ArchitectureRegistry : Type 0 → Type 0
ArchitectureRegistry F = List (String × Definition F)

-- the first candidate with an architecture
abbrev pub find_candidate : (String → Option String) → List String → Option String
find_candidate f [] = none
find_candidate f (c ∷ cs) = or_else (f c) (find_candidate f cs)

-- the override, unless it is blank or `auto`
abbrev pub named_id : Option String → Option String
named_id none = none
named_id (some id) =
    let name = trim id in
    if not (is_empty_text name) && not (eq_ignore_ascii_case name "auto") then some name else none

module _ {F : Type 0} where
  -- `insert` replaces the entry of the key.
  abbrev pub register : ArchitectureRegistry F → Definition F → ArchitectureRegistry F
  register r d = (d.id, d) ∷ filter (λ e. not (str_eq e.0 d.id)) r

  unfoldable pub require : ArchitectureRegistry F → String → Result ArchitectureError (Definition F)
  unfolding get
  require r id = ok_or (get r id) (unknown_architecture id)

  unfoldable pub find_by_model_type : ArchitectureRegistry F → String → Option String
  unfolding trim is_empty_text
  find_by_model_type r model_type =
      let needle = trim model_type in
      if is_empty_text needle
      then none
      else map_some (λ e. e.1.id)
          (find (λ e. any (λ t. eq_ignore_ascii_case t needle) e.1.model_types) r)

  unfoldable pub resolve_from_metadata :
      ArchitectureRegistry F → MetadataMap → Result ArchitectureError String
  unfolding find_by_model_type get
  resolve_from_metadata r meta =
      let candidates = meta_model_type_candidates meta in
      ok_or (find_candidate (find_by_model_type r) candidates) (unresolved_architecture candidates)

  abbrev pub registered : ArchitectureRegistry F → Option String → Option String
  registered r none = none
  registered r (some id) = map_some (λ d. id) (get r id)

  abbrev pub resolve_by_metadata :
      ArchitectureRegistry F → MetadataMap → Option String → Result ArchitectureError String
  resolve_by_metadata r meta (some id) = ok id
  resolve_by_metadata r meta none = resolve_from_metadata r meta

  abbrev pub resolve_override :
      ArchitectureRegistry F → MetadataMap → Option String → Result ArchitectureError String
  resolve_override r meta (some id) = ok_or (registered r (some id)) (unknown_architecture id)
  resolve_override r meta none =
      resolve_by_metadata r meta
        (find_candidate (λ c. registered r (remap_model_type c)) (model_type_candidates meta))

  unfoldable pub resolve_architecture :
      ArchitectureRegistry F → Option String → MetadataMap → Result ArchitectureError String
  unfolding resolve_from_metadata remap_model_type get trim is_empty_text
  resolve_architecture r override_id meta = resolve_override r meta (named_id override_id)

  -- `ArchitecturePackage::from_module`
  abbrev pub package_of : Definition F → MetadataMap → ArchitectureGraph F → ArchitecturePackage F
  package_of d config graph = record {
    id = graph.architecture_id;
    revision = d.revision;
    graph = graph;
    resolved_config = config;
  }

  -- The builder is dropped after the build.
  unfoldable pub build_with_config :
      ArchitectureRegistry F
      → String
      → MetadataMap
      → Result ArchitectureError (ArchitecturePackage F)
  unfolding require
  build_with_config r id config = do
    d ← require r id
    graph ← (d.build config (set_architecture_id d.id new)).1
    ok (package_of d config graph)

  unfoldable pub build_package :
      (Json → Option ℕ)
      → ArchitectureRegistry F
      → String
      → (overrides checkpoint_meta : MetadataMap) → Result ArchitectureError (ArchitecturePackage F)
  unfolding require resolve
  build_package as_u64 r id overrides checkpoint_meta = do
    d ← require r id
    config ← resolve as_u64 d.fields overrides checkpoint_meta []
    graph ← (d.build config (set_architecture_id d.id new)).1
    ok (package_of d config graph)

  -- The fingerprint that the code refreshes after it is not part of it.
  unfoldable pub apply_naming :
      ArchitectureRegistry F
      → String
      → CheckpointCatalog
      → Result ArchitectureError CheckpointCatalog
  unfolding require rename_catalog
  apply_naming r id catalog = do
    d ← require r id
    ok (rename_catalog d.canonicalize_param d.sanitize_catalog catalog)

module _ {F : Type 0} (as_u64 : Json → Option ℕ) (as_f64 : Json → Option F) where
  abbrev pub llama : Definition F
  llama = record {
    id = "llama.decoder";
    revision = "0.2.0";
    fields = llama_fields;
    model_types = llama_types;
    canonicalize_param = canonicalize_hf_family;
    sanitize_catalog = tie_output_to_embed;
    build = build_decoder as_u64 as_f64 false;
  }

  abbrev pub qwen3 : Definition F
  qwen3 = record {
    id = "qwen3.decoder";
    revision = "0.1.0";
    fields = qwen3_fields;
    model_types = qwen3_types;
    canonicalize_param = canonicalize_hf_family;
    sanitize_catalog = tie_output_to_embed;
    build = build_decoder as_u64 as_f64 true;
  }

  abbrev pub lfm2 : Definition F
  lfm2 = record {
    id = "lfm2.hybrid";
    revision = "0.1.0";
    fields = lfm2_fields;
    model_types = lfm2_types;
    canonicalize_param = canonicalize_lfm2;
    sanitize_catalog = tie_output_to_embed;
    build = build_hybrid as_u64 as_f64;
  }

  abbrev pub register_all : ArchitectureRegistry F → ArchitectureRegistry F
  register_all r = register (register (register r llama) qwen3) lfm2
