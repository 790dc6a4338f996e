-- ===== src/Architecture/Config.antt =====
-- crates/dyninfer-architecture/src/config.rs. `as_u64` is serde_json's reading of a number.
use Prim.Native.String.{◌++◌ as ◌<>◌}
use dyninfer.Prelude.{
  ℕ, ◌/◌, ◌%◌, ◌^◌, String, Bool, true, false, not, ◌&&◌, ◌||◌, Option, none, some, List, [], ◌∷◌,
  Result, ok, err, ◌>>=◌, ◌>>◌, guard, ok_or, ◌==◌,
}
use dyninfer.Prelude.Options.{or_else, and_then}
use dyninfer.Prelude.Decimal.{decimal}
use dyninfer.Prelude.Assoc.{get, insert}
use dyninfer.Prelude.Json.{Json, number}
use dyninfer.Architecture.Errors.{
  ArchitectureError, missing_config, missing_field, head_dim_underivable,
}

pub record ConfigField : Type 0 where
  pub name : String
  pub required : Bool
  pub default : Option Json

abbrev pub MetadataMap : Type 0
MetadataMap = List (String × Json)

abbrev pub is_some : Option Json → Bool
is_some none = false
is_some (some v) = true

module _ (overrides checkpoint_meta defaults : MetadataMap) where
  -- the first source that has the field
  unfoldable pub source_of : ConfigField → Option Json
  unfolding get
  source_of field = or_else (get overrides field.name) (
      or_else (get checkpoint_meta field.name) (
        or_else (get checkpoint_meta ("llama." <> field.name))
          (or_else (get defaults field.name) field.default)))

  abbrev pub resolve_field :
      MetadataMap → ConfigField → Option Json → Result ArchitectureError MetadataMap
  resolve_field values field (some v) = ok (insert values field.name v)
  resolve_field values field none = do
    guard (not field.required) (missing_config field.name)
    ok values

  unfoldable pub resolve_fields :
      MetadataMap → List ConfigField → Result ArchitectureError MetadataMap
  unfolding source_of
  resolve_fields values [] = ok values
  resolve_fields values (field ∷ fields) = do
    values' ← resolve_field values field (source_of field)
    resolve_fields values' fields

  unfoldable pub has_config_value : String → Bool
  unfolding get
  has_config_value key =
      is_some (get overrides key)
      || is_some (get checkpoint_meta key)
      || is_some (get checkpoint_meta ("llama." <> key))
      || is_some (get defaults key)

module _ (as_u64 : Json → Option ℕ) where
  unfoldable pub config_u64 : MetadataMap → String → Result ArchitectureError ℕ
  unfolding get
  config_u64 values key = ok_or (and_then (get values key) as_u64) (missing_field key)

  -- `value as u32` keeps the low 32 bits
  unfoldable pub get_u32 : MetadataMap → String → Result ArchitectureError ℕ
  unfolding config_u64
  get_u32 values key = do n ← config_u64 values key; ok (n % 2 ^ 32)

  -- `or_else(|_| …)`
  abbrev pub or_retry :
      Result ArchitectureError ℕ → Result ArchitectureError ℕ → Result ArchitectureError ℕ
  or_retry (ok n) r = ok n
  or_retry (err e) r = r

  unfoldable pub num_layers : MetadataMap → Result ArchitectureError ℕ
  unfolding get_u32
  num_layers values =
      or_retry (or_retry (get_u32 values "num_layers") (get_u32 values "n_layer"))
        (get_u32 values "block_count")

  -- `head_dim` from the model's dimensions
  unfoldable pub derive_head_dim : MetadataMap → Result ArchitectureError MetadataMap
  unfolding config_u64
  derive_head_dim values = do
    hidden_size ← config_u64 values "hidden_size"
    heads ← config_u64 values "num_heads"
    guard (not (heads == 0) && hidden_size % heads == 0) (head_dim_underivable hidden_size heads)
    ok (insert values "head_dim" (number (decimal (hidden_size / heads))))

  abbrev pub derive_if : Bool → MetadataMap → Result ArchitectureError MetadataMap
  derive_if false values = ok values
  derive_if true values = derive_head_dim values

  unfoldable pub resolve :
      List ConfigField
      → MetadataMap
      → MetadataMap
      → MetadataMap
      → Result ArchitectureError MetadataMap
  unfolding resolve_fields has_config_value derive_head_dim get
  resolve fields overrides checkpoint_meta defaults = do
    values ← resolve_fields overrides checkpoint_meta defaults [] fields
    let explicit = has_config_value overrides checkpoint_meta defaults "head_dim"
    let configured =
        has_config_value overrides checkpoint_meta defaults "hidden_size"
        || has_config_value overrides checkpoint_meta defaults "num_heads"
    derive_if (not explicit && configured && is_some (get values "head_dim")) values
