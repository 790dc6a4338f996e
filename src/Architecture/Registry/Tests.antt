-- ===== src/Architecture/Registry/Tests.antt =====
-- Runs of the registry on small inputs.
use dyninfer.Prelude.{
  ℕ, String, ◌≡◌, refl, List, [], ◌∷◌, Bool, true, false, Option, none, some, Result, ok, err,
  str_eq, ◌⊎◌, if◌then◌else◌,
}
use dyninfer.Prelude.Json.{Json, number, string}
use dyninfer.Prelude.Strings.{to_ascii_lowercase, strip_suffix}
use dyninfer.Prelude.Decimal.{decimal}
use dyninfer.Prelude.Effects.{◌>>=◌, ◌>>◌, pure, get_state, modify, lift, check}
use dyninfer.Architecture.Errors.{ArchitectureError, unknown_architecture}
use dyninfer.Architecture.Config.{num_layers}
use dyninfer.Architecture.Builder.{weighted, binary}
use dyninfer.Architecture.Models.{get_f64, build_decoder, build_hybrid}
use dyninfer.Architecture.Registry.{
  Definition, ArchitecturePackage, register_all, named_id, resolve_architecture, build_package,
}
use dyninfer.Architecture.Registry.Resolution.{Registered, resolve_architecture-Registered}
use dyninfer.Architecture.Registry.Packages.{Packaged, build_package-Packaged}

abbrev digit_of : Json → Option ℕ
digit_of (number s) =
    if str_eq s "1"
    then some 1
    else (if str_eq s "2" then some 2 else (if str_eq s "4" then some 4 else none))
digit_of _ = none

abbrev small_meta : List (String × Json)
small_meta =
    ("num_layers", number "1")
    ∷ ("hidden_size", number "2")
    ∷ ("vocab_size", number "4")
    ∷ ("intermediate_size", number "4")
    ∷ ("num_heads", number "2")
    ∷ ("num_kv_heads", number "1")
    ∷ ("head_dim", number "1")
    ∷ ("rms_norm_eps", number "1")
    ∷ ("rope_theta", number "2")
    ∷ ("hf_architecture", string "Qwen3ForCausalLM")
    ∷ []

abbrev built_ins : List (String × Definition ℕ)
built_ins = register_all digit_of digit_of []

by_class : resolve_architecture built_ins none small_meta ≡ ok "qwen3.decoder"
unfolding resolve_architecture to_ascii_lowercase strip_suffix
by_class = refl

by_id : resolve_architecture built_ins (some " lfm2.hybrid ") [] ≡ ok "lfm2.hybrid"
unfolding resolve_architecture to_ascii_lowercase strip_suffix
by_id = refl

automatic :
    resolve_architecture built_ins (some "Auto") (("model_type", string "Mistral") ∷ [])
    ≡ ok "llama.decoder"
unfolding resolve_architecture to_ascii_lowercase strip_suffix
automatic = refl

unknown :
    resolve_architecture built_ins (some "gpt2") small_meta ≡ err (unknown_architecture "gpt2")
unfolding resolve_architecture to_ascii_lowercase strip_suffix
unknown = refl

abbrev empty_package : ArchitecturePackage ℕ
empty_package = record {
  id = "";
  revision = "";
  graph = record {
    version = 0;
    architecture_id = "";
    values = [];
    operations = [];
    parameter_slots = [];
    exports = [];
  };
  resolved_config = [];
}

abbrev package_in : Result ArchitectureError (ArchitecturePackage ℕ) → ArchitecturePackage ℕ
package_in (ok p) = p
package_in (err e) = empty_package

abbrev gave_package : Result ArchitectureError (ArchitecturePackage ℕ) → Bool
gave_package (ok p) = true
gave_package (err e) = false

gave_package_lem :
    (r : Result ArchitectureError (ArchitecturePackage ℕ))
    → gave_package r ≡ true
    → r ≡ ok (package_in r)
gave_package_lem (ok p) h = refl
gave_package_lem (err e) h = absurd (cc)

abbrev small_package : Result ArchitectureError (ArchitecturePackage ℕ)
small_package = build_package digit_of built_ins "qwen3.decoder" [] small_meta

small_package_built : gave_package small_package ≡ true
unfolding build_decoder build_hybrid num_layers get_f64 weighted decimal binary ◌>>=◌ ◌>>◌ pure
    get_state modify lift check build_package
small_package_built = refl

build_package-Packaged_example :
    Packaged digit_of built_ins "qwen3.decoder" (package_in small_package)
build_package-Packaged_example =
    build_package-Packaged digit_of digit_of "qwen3.decoder" [] small_meta
      (package_in small_package) (gave_package_lem small_package small_package_built)

resolve_architecture-Registered_example :
    ((id : String)
      → resolve_architecture built_ins (some "qwen3.decoder") [] ≡ ok id
      → Registered built_ins id
        × ((named_id (some "qwen3.decoder") ≡ none) ⊎ (named_id (some "qwen3.decoder") ≡ some id)))
    × ((id : String)
        → named_id (some "qwen3.decoder") ≡ some id
        → Registered built_ins id
        → resolve_architecture built_ins (some "qwen3.decoder") [] ≡ ok id)
resolve_architecture-Registered_example =
    resolve_architecture-Registered built_ins (some "qwen3.decoder") [] (refl, (refl, (refl, tt)))
