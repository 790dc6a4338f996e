-- ===== src/Architecture/Naming.antt =====
-- The names of parameters: crates/dyninfer-architecture/src/naming.rs, `canonicalize_lfm2` of
-- models/lfm2.rs, and `apply_naming` of registry.rs up to the fingerprint that it refreshes at its end.
use Prim.Native.String.{◌++◌ as ◌<>◌}
use dyninfer.Prelude.{
  String, Bool, true, ◌||◌, Option, none, some, List, [], ◌∷◌, ◌++◌, any, find, str_eq, not, ◌&&◌,
  if◌then◌else◌, first,
}
use dyninfer.Prelude.Options.{or_else, and_then, some_or}
use dyninfer.Prelude.Assoc.{or_insert}
use dyninfer.Prelude.Decimal.{decimal}
use dyninfer.Prelude.Json.{Json, boolean}
use dyninfer.Prelude.Strings.{
  contains_text, ends_with, strip_suffix, strip_prefix, split_at_dot, parse_u32,
}
use dyninfer.Core.Types.{output}
use dyninfer.Checkpoint.Catalog.{LogicalParameter, ParameterCatalog, CheckpointCatalog}
use dyninfer.Checkpoint.Role.{infer_role}

abbrev pub text_in : List (String × String) → String → Option String
text_in [] key = none
text_in ((k, v) ∷ rest) key = let later = text_in rest key in if str_eq k key then some v else later

abbrev pub is_rope_cache : String → Bool
is_rope_cache key = contains_text key "rotary_emb" || ends_with key ".inv_freq"

abbrev pub hf_names : List (String × String)
hf_names =
    ("model.embed_tokens.weight", "token_embd.weight")
    ∷ ("embed_tokens.weight", "token_embd.weight")
    ∷ ("model.norm.weight", "output_norm.weight")
    ∷ ("norm.weight", "output_norm.weight")
    ∷ ("lm_head.weight", "output.weight")
    ∷ []

abbrev pub hf_suffixes : List (String × String)
hf_suffixes =
    ("input_layernorm.weight", "attn_norm.weight")
    ∷ ("post_attention_layernorm.weight", "ffn_norm.weight")
    ∷ ("self_attn.q_proj.weight", "attn_q.weight")
    ∷ ("self_attn.k_proj.weight", "attn_k.weight")
    ∷ ("self_attn.v_proj.weight", "attn_v.weight")
    ∷ ("self_attn.o_proj.weight", "attn_output.weight")
    ∷ ("self_attn.q_norm.weight", "attn_q_norm.weight")
    ∷ ("self_attn.k_norm.weight", "attn_k_norm.weight")
    ∷ ("mlp.gate_proj.weight", "ffn_gate.weight")
    ∷ ("mlp.up_proj.weight", "ffn_up.weight")
    ∷ ("mlp.down_proj.weight", "ffn_down.weight")
    ∷ []

abbrev pub lfm2_names : List (String × String)
lfm2_names =
    ("model.embed_tokens.weight", "token_embd.weight")
    ∷ ("model.embedding_norm.weight", "output_norm.weight")
    ∷ ("lm_head.weight", "output.weight")
    ∷ []

abbrev pub lfm2_suffixes : List (String × String)
lfm2_suffixes =
    ("operator_norm.weight", "attn_norm.weight")
    ∷ ("ffn_norm.weight", "ffn_norm.weight")
    ∷ ("feed_forward.w1.weight", "ffn_gate.weight")
    ∷ ("feed_forward.w3.weight", "ffn_up.weight")
    ∷ ("feed_forward.w2.weight", "ffn_down.weight")
    ∷ ("self_attn.q_proj.weight", "attn_q.weight")
    ∷ ("self_attn.k_proj.weight", "attn_k.weight")
    ∷ ("self_attn.v_proj.weight", "attn_v.weight")
    ∷ ("self_attn.out_proj.weight", "attn_output.weight")
    ∷ ("self_attn.q_layernorm.weight", "attn_q_norm.weight")
    ∷ ("self_attn.k_layernorm.weight", "attn_k_norm.weight")
    ∷ ("conv.in_proj.weight", "shortconv.in_proj.weight")
    ∷ ("conv.conv.weight", "shortconv.conv.weight")
    ∷ ("conv.out_proj.weight", "shortconv.out_proj.weight")
    ∷ []

-- `{layer}.{suffix}`, with the suffix in the table, as `blk.{layer}.{canonical}`
unfoldable pub layer_name : List (String × String) → String → Option String
unfolding split_at_dot parse_u32 decimal
layer_name suffixes rest = and_then (split_at_dot rest) λ parts.
    and_then (parse_u32 parts.0) λ layer.
      and_then (text_in suffixes parts.1)
        λ canonical. some ("blk." <> (decimal layer <> ("." <> canonical)))

unfoldable pub try_hf_remap : String → Option String
unfolding layer_name strip_prefix
try_hf_remap key = or_else (text_in hf_names key) (
    and_then (or_else (strip_prefix key "model.layers.") (strip_prefix key "layers."))
      (layer_name hf_suffixes))

unfoldable pub canonicalize_hf_family : String → Option String
unfolding try_hf_remap contains_text strip_suffix
canonicalize_hf_family key =
    if is_rope_cache key then none else some (some_or (try_hf_remap key) key)

-- a key that the table does not know passes unchanged
unfoldable pub canonicalize_lfm2 : String → Option String
unfolding layer_name strip_prefix contains_text strip_suffix
canonicalize_lfm2 key =
    if is_rope_cache key
    then none
    else some (
        some_or
          (or_else (text_in lfm2_names key)
            (and_then (strip_prefix key "model.layers.") (layer_name lfm2_suffixes)))
          key)

abbrev pub tied_to : LogicalParameter → LogicalParameter
tied_to p = record p {
  canonical_name = "output.weight";
  role = output;
  aliases = p.aliases ++ "output.weight" ∷ "lm_head.weight" ∷ [];
}

abbrev pub tie_with : ParameterCatalog → Option LogicalParameter → ParameterCatalog
tie_with catalog none = catalog
tie_with catalog (some p) = record catalog {
  parameters = catalog.parameters ++ tied_to p ∷ [];
  metadata = or_insert catalog.metadata "tie_word_embeddings" (boolean true);
}

unfoldable pub tie_output_to_embed : ParameterCatalog → ParameterCatalog
unfolding or_insert
tie_output_to_embed catalog =
    if any (λ p. str_eq p.canonical_name "output.weight") catalog.parameters
    then catalog
    else tie_with catalog
        (find (λ p. str_eq p.canonical_name "token_embd.weight") catalog.parameters)

-- `for (k, v) in pc.metadata { catalog.metadata.entry(k).or_insert(v); }`
unfoldable pub add_metadata : List (String × Json) → List (String × Json) → List (String × Json)
unfolding or_insert
add_metadata metadata [] = metadata
add_metadata metadata ((k, v) ∷ rest) = add_metadata (or_insert metadata k v) rest

module _ (canonicalize_param : String → Option String)
    (sanitize_catalog : ParameterCatalog → ParameterCatalog) where
  -- the canonical name of one parameter, which is dropped where there is none
  abbrev pub canonical_of : LogicalParameter → Option String
  canonical_of p =
      let source = some_or (first p.aliases) p.canonical_name in
      and_then (canonicalize_param source) λ canonical. some (
        if str_eq canonical source && not (str_eq p.canonical_name source)
        then some_or (canonicalize_param p.canonical_name) canonical
        else canonical)

  abbrev pub renamed : LogicalParameter → String → LogicalParameter
  renamed p canonical = record p {
    role = infer_role canonical;
    canonical_name = canonical;
    aliases =
        if any (λ a. str_eq a canonical) p.aliases then p.aliases else p.aliases ++ canonical ∷ [];
  }

  abbrev pub keep_renamed :
      LogicalParameter → Option String → List LogicalParameter → List LogicalParameter
  keep_renamed p none rest = rest
  keep_renamed p (some canonical) rest = renamed p canonical ∷ rest

  unfoldable pub remap_parameters : List LogicalParameter → List LogicalParameter
  unfolding infer_role
  remap_parameters [] = []
  remap_parameters (p ∷ ps) = keep_renamed p (canonical_of p) (remap_parameters ps)

  unfoldable pub rename_catalog : CheckpointCatalog → CheckpointCatalog
  unfolding remap_parameters add_metadata
  rename_catalog catalog =
      let pc = sanitize_catalog (record {
        convention_id = catalog.convention_id;
        parameters = remap_parameters catalog.parameters;
        metadata = catalog.metadata;
      }) in
      record catalog {
        parameters = pc.parameters;
        metadata = add_metadata catalog.metadata pc.metadata;
      }
