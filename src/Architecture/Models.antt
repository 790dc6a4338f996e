-- ===== src/Architecture/Models.antt =====
-- The models that are built in: `build` of crates/dyninfer-architecture/src/models/llama.rs, qwen3.rs and
-- lfm2.rs. `as_u64` and `as_f64` are serde_json's readings of a number.
use dyninfer.Prelude.{
  ℕ, zero, suc, String, Bool, true, false, Option, none, some, List, [], ◌∷◌, Result, ok, err,
  length, ok_or, guard, ◌==◌, str_eq, if◌then◌else◌,
}
use dyninfer.Prelude
use dyninfer.Prelude.Options.{and_then}
use dyninfer.Prelude.Assoc.{get}
use dyninfer.Prelude.Json.{Json, string, as_array}
use dyninfer.Prelude.Effects.{◌>>=◌, ◌>>◌, pure, lift}
use dyninfer.Core.Graph.{GraphValue, ArchitectureGraph}
use dyninfer.Architecture.Errors.{
  ArchitectureError, missing_field, schedule_length, unsupported_layer,
}
use dyninfer.Architecture.Config.{MetadataMap, get_u32, num_layers}
use dyninfer.Architecture.Builder.{
  Build, input_tokens, embedding, rms_norm_layer, output_projection, export_prefill_and_decode,
}
use dyninfer.Architecture.Blocks.{
  DecoderBlockSpec, ShortConvBlockSpec, attention_sublayer, short_conv_sublayer,
  feed_forward_sublayer, decoder_block, finish,
}

pub data LayerKind : Type 0 where
  attention_layer short_conv_layer : LayerKind

abbrev pub layer_kind : Json → Option LayerKind
layer_kind (string s) =
    if str_eq s "full_attention"
    then some attention_layer
    else (if str_eq s "conv" then some short_conv_layer else none)
layer_kind _ = none

abbrev pub unwrap_or : Result ArchitectureError ℕ → ℕ → ℕ
unwrap_or (ok n) d = n
unwrap_or (err e) d = d

module _ {F : Type 0} where
  -- `for layer in 0..num_layers`
  unfoldable pub decoder_layers :
      ℕ → ℕ → Bool → DecoderBlockSpec F → GraphValue → Build F GraphValue
  unfolding decoder_block
  decoder_layers zero layer has_qk_norm spec x = pure x
  decoder_layers (suc n) layer has_qk_norm spec x = do
    x' ← decoder_block x layer has_qk_norm spec
    decoder_layers n (suc layer) has_qk_norm spec x'

  -- the end that the models share
  unfoldable pub output_head : GraphValue → F → ℕ → Build F (ArchitectureGraph F)
  unfolding export_prefill_and_decode finish
  output_head x epsilon vocab = do
    normalized ← rms_norm_layer "output_norm" x "output_norm.weight" epsilon
    logits ← output_projection "output_projection" normalized "output.weight" vocab
    export_prefill_and_decode logits
    finish

  -- the operator of one layer
  abbrev pub operator_sublayer :
      LayerKind → ℕ → DecoderBlockSpec F → ShortConvBlockSpec F → GraphValue → Build F GraphValue
  operator_sublayer attention_layer layer block short_conv x = attention_sublayer x layer true block
  operator_sublayer short_conv_layer layer block short_conv x =
      short_conv_sublayer x layer short_conv

  -- the loop over the schedule, from the layer `layer` on
  unfoldable pub hybrid_layers :
      List LayerKind
      → ℕ
      → DecoderBlockSpec F
      → ShortConvBlockSpec F
      → GraphValue
      → Build F GraphValue
  unfolding attention_sublayer short_conv_sublayer feed_forward_sublayer
  hybrid_layers [] layer block short_conv x = pure x
  hybrid_layers (kind ∷ kinds) layer block short_conv x = do
    mixed ← operator_sublayer kind layer block short_conv x
    x' ← feed_forward_sublayer mixed layer block
    hybrid_layers kinds (suc layer) block short_conv x'

module _ {F : Type 0} (as_u64 : Json → Option ℕ) (as_f64 : Json → Option F) where
  unfoldable pub get_f64 : MetadataMap → String → Result ArchitectureError F
  unfolding get
  get_f64 values key = ok_or (and_then (get values key) as_f64) (missing_field key)

  -- the fields of the block in their order; the last reading is that of the epsilon
  unfoldable pub decoder_spec :
      MetadataMap → ℕ → Result ArchitectureError F → Result ArchitectureError (DecoderBlockSpec F)
  unfolding get_u32 get
  decoder_spec config hidden read_epsilon =
      Prelude.◌>>=◌ (get_u32 as_u64 config "intermediate_size") λ intermediate.
        Prelude.◌>>=◌ (get_u32 as_u64 config "num_heads") λ heads.
          Prelude.◌>>=◌ (get_u32 as_u64 config "num_kv_heads") λ kv_heads.
            Prelude.◌>>=◌ (get_u32 as_u64 config "head_dim") λ dim.
              Prelude.◌>>=◌ read_epsilon λ epsilon. ok (record {
                hidden_size = hidden;
                intermediate_size = intermediate;
                num_heads = heads;
                num_kv_heads = kv_heads;
                head_dim = dim;
                rms_norm_epsilon = epsilon;
                rope_theta = and_then (get config "rope_theta") as_f64;
              })

  -- `build` of llama.rs, where `has_qk_norm` is false, and of qwen3.rs, where it is true
  unfoldable pub build_decoder : Bool → MetadataMap → Build F (ArchitectureGraph F)
  unfolding decoder_spec decoder_layers output_head input_tokens
  build_decoder has_qk_norm config = do
    n ← lift (num_layers as_u64 config)
    hidden ← lift (get_u32 as_u64 config "hidden_size")
    vocab ← lift (get_u32 as_u64 config "vocab_size")
    spec ← lift (decoder_spec config hidden (get_f64 config "rms_norm_eps"))
    tokens ← input_tokens "tokens"
    x ← embedding "token_embedding" tokens "token_embd.weight" hidden
    x' ← decoder_layers n 0 has_qk_norm spec x
    output_head x' spec.rms_norm_epsilon vocab

  -- the entries of `layer_types`, the first at `index`
  unfoldable pub layer_kinds : ℕ → List Json → Result ArchitectureError (List LayerKind)
  layer_kinds index [] = ok []
  layer_kinds index (entry ∷ entries) =
      Prelude.◌>>=◌ (ok_or (layer_kind entry) (unsupported_layer index))
        λ kind. Prelude.◌>>=◌ (layer_kinds (suc index) entries) λ kinds. ok (kind ∷ kinds)

  unfoldable pub layer_schedule : MetadataMap → ℕ → Result ArchitectureError (List LayerKind)
  unfolding get layer_kinds
  layer_schedule config n =
      Prelude.◌>>=◌
        (ok_or (and_then (get config "layer_types") as_array) (missing_field "layer_types"))
        λ entries.
          Prelude.◌>>◌ (guard (length entries == n) (schedule_length (length entries) n))
            (layer_kinds 0 entries)

  -- `build` of lfm2.rs
  unfoldable pub build_hybrid : MetadataMap → Build F (ArchitectureGraph F)
  unfolding decoder_spec hybrid_layers output_head input_tokens layer_schedule
  build_hybrid config = do
    n ← lift (num_layers as_u64 config)
    hidden ← lift (get_u32 as_u64 config "hidden_size")
    vocab ← lift (get_u32 as_u64 config "vocab_size")
    epsilon ← lift (get_f64 config "rms_norm_eps")
    schedule ← lift (layer_schedule config n)
    block ← lift (decoder_spec config hidden (ok epsilon))
    kernel_size ← lift (get_u32 as_u64 config "conv_kernel")
    tokens ← input_tokens "tokens"
    x ← embedding "token_embedding" tokens "token_embd.weight" hidden
    x' ←
        hybrid_layers schedule 0 block
          (record {
            hidden_size = hidden;
            channels = unwrap_or (get_u32 as_u64 config "conv_dim") hidden;
            kernel_size = kernel_size;
            rms_norm_epsilon = epsilon;
          })
          x
    output_head x' epsilon vocab
