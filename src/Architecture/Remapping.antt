-- ===== src/Architecture/Remapping.antt =====
-- The model types that a checkpoint names: crates/dyninfer-architecture/src/remapping.rs, and the
-- candidates of lib.rs and registry.rs.
use dyninfer.Prelude.{String, Option, none, some, List, [], ◌∷◌, ◌++◌, find, str_eq, if◌then◌else◌}
use dyninfer.Prelude.Options.{or_else, and_then, map_some, some_or, list_of}
use dyninfer.Prelude.Assoc.{get}
use dyninfer.Prelude.Json.{Json, string}
use dyninfer.Prelude.Strings.{
  trim, is_empty_text, eq_ignore_ascii_case, to_ascii_lowercase, strip_suffix,
}
use dyninfer.Architecture.Config.{MetadataMap}
use dyninfer.Architecture.Schemas.{model_remapping}

abbrev pub as_text : Json → Option String
as_text (string s) = some s
as_text _ = none

abbrev pub text_at : MetadataMap → String → Option String
text_at meta key = and_then (get meta key) as_text

abbrev pub model_type_candidates : MetadataMap → List String
model_type_candidates meta =
    list_of (text_at meta "model_type") ++ list_of (text_at meta "hf_architecture")

abbrev pub class_candidates : Option String → List String
class_candidates none = []
class_candidates (some class) =
    class ∷ list_of (map_some to_ascii_lowercase (strip_suffix class "ForCausalLM"))

abbrev pub meta_model_type_candidates : MetadataMap → List String
meta_model_type_candidates meta =
    list_of (text_at meta "model_type") ++ class_candidates (text_at meta "hf_architecture")

abbrev pub architecture_id_for_stem : String → Option String
architecture_id_for_stem stem =
    if str_eq stem "llama"
    then some "llama.decoder"
    else (if str_eq stem "qwen3"
        then some "qwen3.decoder"
        else (if str_eq stem "lfm2" then some "lfm2.hybrid" else none))

-- the stem that the alias table has for a model type
abbrev pub alias_of : String → Option String
alias_of name = map_some (λ e. e.1) (find (λ e. eq_ignore_ascii_case e.0 name) model_remapping)

abbrev pub alias_of_class : Option String → Option String
alias_of_class none = none
alias_of_class (some class) = alias_of (to_ascii_lowercase class)

abbrev pub id_for : String → Option String
id_for stem =
    or_else (architecture_id_for_stem stem) (architecture_id_for_stem (to_ascii_lowercase stem))

unfoldable pub remap_model_type : String → Option String
unfolding trim is_empty_text
remap_model_type model_type =
    let name = trim model_type in
    if is_empty_text name
    then none
    else id_for
        (some_or (or_else (alias_of name) (alias_of_class (strip_suffix name "ForCausalLM"))) name)
