-- ===== src/Architecture/Blocks.antt =====
-- The sublayers that `ModelBuilder` expands, and `finish`, of
-- crates/dyninfer-architecture/src/builder.rs. A product of two `u32` wraps at 2 ^ 32.
use Prim.Native.String.{◌++◌ as ◌<>◌}
use dyninfer.Prelude.{
  ℕ, ◌*◌, ◌^◌, ◌%◌, String, Bool, true, false, not, ◌||◌, Option, none, some, [], ◌∷◌, ok_or, ◌==◌,
}
use dyninfer.Prelude.Decimal.{decimal}
use dyninfer.Prelude.Effects.{◌>>=◌, ◌>>◌, pure, get_state, modify, lift, check}
use dyninfer.Core.Types.{
  attention_q, attention_k, attention_v, attention_o, ffn_gate, ffn_up, ffn_down, other,
}
use dyninfer.Core.Graph.{
  activations, GraphValue, key, value, silu, multiply, residual, elementwise, attention,
  ArchitectureGraph,
}
use dyninfer.Architecture.Errors.{zero_dimension, uneven_heads, missing_architecture_id}
use dyninfer.Architecture.Builder.{
  ModelBuilder, Build, with_output, linear_layer, rms_norm_layer, per_head_norm, rope_layer,
  cache_write, cache_read, elementwise_unary, binary, short_conv_layer,
}
use dyninfer.Architecture.Verify.{verify_architecture_conformance}

pub record DecoderBlockSpec (F : Type 0) : Type 0 where
  pub hidden_size : ℕ
  pub intermediate_size : ℕ
  pub num_heads : ℕ
  pub num_kv_heads : ℕ
  pub head_dim : ℕ
  pub rms_norm_epsilon : F
  pub rope_theta : Option F

pub record ShortConvBlockSpec (F : Type 0) : Type 0 where
  pub hidden_size : ℕ
  pub channels : ℕ
  pub kernel_size : ℕ
  pub rms_norm_epsilon : F

abbrev pub mul_u32 : ℕ → ℕ → ℕ
mul_u32 a b = a * b % 2 ^ 32

-- `format!("blk.{layer}{rest}")`
abbrev pub blk : ℕ → String → String
blk layer rest = "blk." <> (decimal layer <> rest)

module _ {F : Type 0} where
  unfoldable pub validate_decoder : DecoderBlockSpec F → Build F (Unit {0})
  validate_decoder spec = do
    check
        (not (
          spec.hidden_size == 0
          || spec.intermediate_size == 0
          || spec.num_heads == 0
          || spec.num_kv_heads == 0
          || spec.head_dim == 0))
        zero_dimension
    check (spec.num_heads % spec.num_kv_heads == 0) (uneven_heads spec.num_heads spec.num_kv_heads)

  unfoldable pub validate_short_conv : ShortConvBlockSpec F → Build F (Unit {0})
  validate_short_conv spec =
      check (not (spec.hidden_size == 0 || spec.channels == 0 || spec.kernel_size == 0))
        zero_dimension

  -- `if has_qk_norm { … }`
  abbrev pub norm_if : Bool → DecoderBlockSpec F → String → GraphValue → ℕ → Build F GraphValue
  norm_if false spec id x heads = pure x
  norm_if true spec id x heads =
      per_head_norm id x (id <> ".weight") spec.rms_norm_epsilon heads spec.head_dim

  -- `if let Some(theta) = spec.rope_theta { … }`
  abbrev pub rope_if : Option F → DecoderBlockSpec F → String → GraphValue → ℕ → Build F GraphValue
  rope_if none spec id x heads = pure x
  rope_if (some theta) spec id x heads = rope_layer id x heads spec.head_dim theta

  abbrev pub attend :
      String → GraphValue → GraphValue → GraphValue → DecoderBlockSpec F → Build F GraphValue
  attend id query key_cache value_cache spec =
      with_output id (attention spec.num_heads spec.num_kv_heads spec.head_dim true)
        (query ∷ key_cache ∷ value_cache ∷ []) (activations (mul_u32 spec.num_heads spec.head_dim))
        []

  unfoldable pub attention_sublayer :
      GraphValue → ℕ → Bool → DecoderBlockSpec F → Build F GraphValue
  unfolding validate_decoder
  attention_sublayer x layer has_qk_norm spec = do
    validate_decoder spec
    normalized ←
        rms_norm_layer (blk layer ".attn_norm") x (blk layer ".attn_norm.weight")
          spec.rms_norm_epsilon
    query ←
        linear_layer (blk layer ".attn_q") normalized (blk layer ".attn_q.weight")
          (mul_u32 spec.num_heads spec.head_dim) attention_q
    key_proj ←
        linear_layer (blk layer ".attn_k") normalized (blk layer ".attn_k.weight")
          (mul_u32 spec.num_kv_heads spec.head_dim) attention_k
    value_proj ←
        linear_layer (blk layer ".attn_v") normalized (blk layer ".attn_v.weight")
          (mul_u32 spec.num_kv_heads spec.head_dim) attention_v
    query_norm ← norm_if has_qk_norm spec (blk layer ".attn_q_norm") query spec.num_heads
    key_norm ← norm_if has_qk_norm spec (blk layer ".attn_k_norm") key_proj spec.num_kv_heads
    query_rope ← rope_if spec.rope_theta spec (blk layer ".attn_q_rope") query_norm spec.num_heads
    key_rope ← rope_if spec.rope_theta spec (blk layer ".attn_k_rope") key_norm spec.num_kv_heads
    cache_write (blk layer ".key_cache_write") key_rope layer key
    cache_write (blk layer ".value_cache_write") value_proj layer value
    key_cache ←
        cache_read (blk layer ".key_cache_read") key_rope layer key spec.num_kv_heads spec.head_dim
    value_cache ←
        cache_read (blk layer ".value_cache_read") value_proj layer value spec.num_kv_heads
          spec.head_dim
    attended ← attend (blk layer ".attention") query_rope key_cache value_cache spec
    projected ←
        linear_layer (blk layer ".attn_output") attended (blk layer ".attn_output.weight")
          spec.hidden_size attention_o
    binary (blk layer ".attn_residual") residual x projected

  unfoldable pub short_conv_sublayer : GraphValue → ℕ → ShortConvBlockSpec F → Build F GraphValue
  unfolding validate_short_conv
  short_conv_sublayer x layer spec = do
    validate_short_conv spec
    normalized ←
        rms_norm_layer (blk layer ".attn_norm") x (blk layer ".attn_norm.weight")
          spec.rms_norm_epsilon
    gates ←
        linear_layer (blk layer ".shortconv_in") normalized (blk layer ".shortconv.in_proj.weight")
          (mul_u32 3 spec.channels) (other "shortconv.in")
    mixed ←
        short_conv_layer (blk layer ".shortconv") gates (blk layer ".shortconv.conv.weight") layer
          spec.channels spec.kernel_size
    projected ←
        linear_layer (blk layer ".shortconv_out") mixed (blk layer ".shortconv.out_proj.weight")
          spec.hidden_size (other "shortconv.out")
    binary (blk layer ".shortconv_residual") residual x projected

  unfoldable pub feed_forward_sublayer : GraphValue → ℕ → DecoderBlockSpec F → Build F GraphValue
  feed_forward_sublayer x layer spec = do
    ffn_input ←
        rms_norm_layer (blk layer ".ffn_norm") x (blk layer ".ffn_norm.weight")
          spec.rms_norm_epsilon
    gate ←
        linear_layer (blk layer ".ffn_gate") ffn_input (blk layer ".ffn_gate.weight")
          spec.intermediate_size ffn_gate
    up ←
        linear_layer (blk layer ".ffn_up") ffn_input (blk layer ".ffn_up.weight")
          spec.intermediate_size ffn_up
    activated ← elementwise_unary (blk layer ".ffn_silu") gate silu
    gated ← binary (blk layer ".ffn_multiply") (elementwise multiply) activated up
    down ←
        linear_layer (blk layer ".ffn_down") gated (blk layer ".ffn_down.weight") spec.hidden_size
          ffn_down
    binary (blk layer ".ffn_residual") residual x down

  unfoldable pub decoder_block : GraphValue → ℕ → Bool → DecoderBlockSpec F → Build F GraphValue
  unfolding attention_sublayer feed_forward_sublayer
  decoder_block x layer has_qk_norm spec = do
    after_attention ← attention_sublayer x layer has_qk_norm spec
    feed_forward_sublayer after_attention layer spec

  -- the graph that `finish` takes out of the builder
  abbrev pub graph_of : String → ModelBuilder F → ArchitectureGraph F
  graph_of id b = record {
    version = 1;
    architecture_id = id;
    values = b.values;
    operations = b.operations;
    parameter_slots = b.slots;
    exports = b.exports;
  }

  -- `take()` leaves the builder empty, also where the checks fail.
  unfoldable pub finish : Build F (ArchitectureGraph F)
  unfolding verify_architecture_conformance
  finish = do
    b ← get_state
    id ← lift (ok_or b.architecture_id missing_architecture_id)
    modify (λ s. record s {
      architecture_id = none;
      slots = [];
      values = [];
      operations = [];
      exports = [];
    })
    lift (verify_architecture_conformance (graph_of id b))
    pure (graph_of id b)
