-- ===== src/Architecture/Typing/Models.antt =====
-- The graphs that the built-in models of crates/dyninfer-architecture/src/models build can run: their
-- operations are in order and typed, and the whole passes the verification.
use mathlib.Core.Path.{subst}
use dyninfer.Prelude.{
  Option, ℕ, zero, suc, String, ◌≡◌, refl, sym, ap, List, [], ◌∷◌, Memᴰ, Bool, true, Result, ok,
  guard, >>=-eq-ok, guard-eq-ok,
}
use dyninfer.Prelude.Json.{Json}
use dyninfer.Prelude.Effects.{
  Hoare, bind-Hoare, then-Hoare, get_state-Hoare, modify-Hoare, pure-Hoare, lift-Hoare, from-Hoare,
  given-Hoare,
}
use dyninfer.Core.Ir.{prefill, decode}
use dyninfer.Core.Graph.{activations, GraphValue, ArchitectureGraph}
use dyninfer.Architecture.Errors.{ArchitectureError}
use dyninfer.Architecture.Config.{MetadataMap, get_u32}
use dyninfer.Architecture.Builder.{
  ModelBuilder, new, set_architecture_id, export_prefill_and_decode,
}
use dyninfer.Architecture.Blocks.{DecoderBlockSpec, ShortConvBlockSpec, short_conv_sublayer, finish}
use dyninfer.Architecture.Models.{
  LayerKind, attention_layer, short_conv_layer, decoder_spec, decoder_layers, output_head,
  operator_sublayer, build_decoder, hybrid_layers, build_hybrid,
}
use dyninfer.Architecture.Verify.{
  has_export, verify_architecture_graph, verify_architecture_conformance,
}
use dyninfer.Architecture.Verify.WellFormed.{WellFormed, verify_architecture_graph_iff}
use dyninfer.Architecture.Typing.{
  embedding_type, rms_norm_type, output_type, Ordered, Context, Holds,
}
use dyninfer.Architecture.Typing.Rules.{
  Yields, bind-Yields, pure-Yields, weighted-Yields, input_tokens-Yields,
}
use dyninfer.Architecture.Typing.Sublayers.{
  attention_sublayer-Yields, short_conv_sublayer-Yields, feed_forward_sublayer-Yields,
  decoder_block-Yields,
}

module _ {F : Type 0} where
  -- A graph whose operations run in their order on values of the right types, that is well formed, and
  -- that exports both phases.
  pub record Runnable (g : ArchitectureGraph F) : Type 0 where
    pub ordered : Ordered g.values [] g.operations
    pub well_formed : WellFormed g
    pub exports_prefill : has_export "prefill" prefill g.exports ≡ true
    pub exports_decode : has_export "decode" decode g.exports ≡ true

  conformance-Runnable :
      (g : ArchitectureGraph F)
      → Ordered g.values [] g.operations
      → verify_architecture_conformance g ≡ ok tt
      → Runnable g
  unfolding verify_architecture_conformance
  conformance-Runnable g ordered h =
      let (u, verified, rest) = >>=-eq-ok (verify_architecture_graph g) _ h in
      let (w, first, second) =
        >>=-eq-ok (guard (has_export "prefill" prefill g.exports) _) _ rest in
      record {
        ordered = ordered;
        well_formed = (verify_architecture_graph_iff g).0 verified;
        exports_prefill = guard-eq-ok _ _ _ first;
        exports_decode = guard-eq-ok _ _ _ second;
      }

  finish-Hoare : {Γ : Context} → Hoare (Holds Γ) finish (λ g s. Runnable g)
  unfolding finish
  finish-Hoare {Γ} = bind-Hoare {Q = λ b s. Holds Γ b} (from-Hoare (λ s h. h) get_state-Hoare) λ b.
      bind-Hoare {Q = λ id s. Holds Γ b} (from-Hoare (λ s h id e. h) (lift-Hoare _)) λ id.
        then-Hoare {Q = λ s. Holds Γ b} (from-Hoare (λ s h. h) (modify-Hoare _)) (
          then-Hoare (from-Hoare (λ s h u e. conformance-Runnable _ h.ordered e) (lift-Hoare _))
            (pure-Hoare _))

  export-Holds :
      {Γ : Context} (v : GraphValue)
      → Hoare (Holds {F = F} Γ) (export_prefill_and_decode v) (λ u. Holds Γ)
  unfolding export_prefill_and_decode
  export-Holds {Γ} v = bind-Hoare {Q = λ b. Holds Γ} (from-Hoare (λ s h. h) get_state-Hoare) λ b.
      bind-Hoare {Q = λ id. Holds Γ} (from-Hoare (λ s h id e. h) (lift-Hoare _)) λ start.
        from-Hoare (λ s h. record { ordered = h.ordered; context = h.context }) (modify-Hoare _)

  output_head-Hoare :
      {Γ : Context} (x : GraphValue) (epsilon : F) (vocab hidden : ℕ)
      → Memᴰ (x, activations hidden) Γ
      → Hoare (Holds Γ) (output_head x epsilon vocab) (λ g s. Runnable g)
  unfolding output_head
  output_head-Hoare x epsilon vocab hidden m =
      bind-Hoare (weighted-Yields _ _ _ _ m (rms_norm_type _ _) (λ e. e)) λ normalized.
        bind-Hoare (weighted-Yields _ _ _ _ (Memᴰ.head refl) (output_type hidden vocab) (λ e. refl))
          λ logits. then-Hoare (export-Holds logits) finish-Hoare

  decoder_layers-Yields :
      (n : ℕ) {Γ : Context} (layer : ℕ) (has_qk_norm : Bool) (spec : DecoderBlockSpec F)
      (x : GraphValue)
      → Memᴰ (x, activations spec.hidden_size) Γ
      → Yields Γ (decoder_layers n layer has_qk_norm spec x) (activations spec.hidden_size)
  unfolding decoder_layers
  decoder_layers-Yields zero layer q spec x m = pure-Yields m
  decoder_layers-Yields (suc n) layer q spec x m =
      bind-Yields (decoder_block-Yields x layer q spec m)
        λ x'. decoder_layers-Yields n (suc layer) q spec x' (Memᴰ.head refl)

  operator_sublayer-Yields :
      {Γ : Context} (kind : LayerKind) (layer : ℕ) (block : DecoderBlockSpec F)
      (conv : ShortConvBlockSpec F) (x : GraphValue)
      → conv.hidden_size ≡ block.hidden_size
      → Memᴰ (x, activations block.hidden_size) Γ
      → Yields Γ (operator_sublayer kind layer block conv x) (activations block.hidden_size)
  operator_sublayer-Yields attention_layer layer block conv x same m =
      attention_sublayer-Yields x layer true block m
  operator_sublayer-Yields {Γ} short_conv_layer layer block conv x same m =
      subst (λ h. Yields Γ (short_conv_sublayer x layer conv) (activations h)) same
        (short_conv_sublayer-Yields x layer conv
          (subst (λ h. Memᴰ (x, activations h) Γ) (sym same) m))

  hybrid_layers-Yields :
      (kinds : List LayerKind) {Γ : Context} (layer : ℕ) (block : DecoderBlockSpec F)
      (conv : ShortConvBlockSpec F) (x : GraphValue)
      → conv.hidden_size ≡ block.hidden_size
      → Memᴰ (x, activations block.hidden_size) Γ
      → Yields Γ (hybrid_layers kinds layer block conv x) (activations block.hidden_size)
  unfolding hybrid_layers
  hybrid_layers-Yields [] layer block conv x same m = pure-Yields m
  hybrid_layers-Yields (kind ∷ kinds) layer block conv x same m =
      bind-Yields (operator_sublayer-Yields kind layer block conv x same m) λ mixed.
        bind-Yields (feed_forward_sublayer-Yields mixed layer block (Memᴰ.head refl))
          λ x'. hybrid_layers-Yields kinds (suc layer) block conv x' same (Memᴰ.head refl)

  module _ (as_u64 : Json → Option ℕ) (as_f64 : Json → Option F) where
    decoder_spec-hidden :
        (config : MetadataMap) (hidden : ℕ) (eps : Result ArchitectureError F)
        (spec : DecoderBlockSpec F)
        → decoder_spec as_u64 as_f64 config hidden eps ≡ ok spec
        → spec.hidden_size ≡ hidden
    unfolding decoder_spec
    decoder_spec-hidden config hidden eps spec h =
        let (a, e1, h1) = >>=-eq-ok (get_u32 as_u64 config "intermediate_size") _ h in
        let (b, e2, h2) = >>=-eq-ok (get_u32 as_u64 config "num_heads") _ h1 in
        let (c, e3, h3) = >>=-eq-ok (get_u32 as_u64 config "num_kv_heads") _ h2 in
        let (d, e4, h4) = >>=-eq-ok (get_u32 as_u64 config "head_dim") _ h3 in
        let (f, e5, h5) = >>=-eq-ok eps _ h4 in cc

    pub build_decoder-Hoare :
        (has_qk_norm : Bool) (config : MetadataMap)
        → Hoare (Holds []) (build_decoder as_u64 as_f64 has_qk_norm config) (λ g s. Runnable g)
    unfolding build_decoder
    build_decoder-Hoare q config = bind-Hoare (from-Hoare (λ s h n e. h) (lift-Hoare _)) λ n.
        bind-Hoare (from-Hoare (λ s h a e. h) (lift-Hoare _)) λ hidden.
          bind-Hoare (from-Hoare (λ s h a e. h) (lift-Hoare _)) λ vocab.
            bind-Hoare
              (from-Hoare (λ s h spec e. (decoder_spec-hidden config hidden _ spec e, h))
                (lift-Hoare _))
              λ spec. given-Hoare λ same. bind-Hoare (input_tokens-Yields "tokens") λ tokens.
                bind-Hoare
                  (weighted-Yields _ _ _ _ (Memᴰ.head refl) (embedding_type hidden) (λ e. refl))
                  λ x.
                    bind-Hoare
                      (decoder_layers-Yields n 0 q spec x
                        (Memᴰ.head (ap (λ h. (x, activations h)) same)))
                      λ x'.
                        output_head-Hoare x' spec.rms_norm_epsilon vocab spec.hidden_size
                          (Memᴰ.head refl)

    pub build_hybrid-Hoare :
        (config : MetadataMap)
        → Hoare (Holds []) (build_hybrid as_u64 as_f64 config) (λ g s. Runnable g)
    unfolding build_hybrid
    build_hybrid-Hoare config = bind-Hoare (from-Hoare (λ s h n e. h) (lift-Hoare _)) λ n.
        bind-Hoare (from-Hoare (λ s h a e. h) (lift-Hoare _)) λ hidden.
          bind-Hoare (from-Hoare (λ s h a e. h) (lift-Hoare _)) λ vocab.
            bind-Hoare (from-Hoare (λ s h a e. h) (lift-Hoare _)) λ epsilon.
              bind-Hoare (from-Hoare (λ s h a e. h) (lift-Hoare _)) λ schedule.
                bind-Hoare
                  (from-Hoare
                    (λ s h spec e. (decoder_spec-hidden config hidden (ok epsilon) spec e, h))
                    (lift-Hoare _))
                  λ block. given-Hoare λ same.
                    bind-Hoare (from-Hoare (λ s h a e. h) (lift-Hoare _)) λ kernel_size.
                      bind-Hoare (input_tokens-Yields "tokens") λ tokens.
                        bind-Hoare
                          (weighted-Yields _ _ _ _ (Memᴰ.head refl) (embedding_type hidden)
                            (λ e. refl))
                          λ x.
                            bind-Hoare
                              (hybrid_layers-Yields schedule 0 block _ x (sym same)
                                (Memᴰ.head (ap (λ h. (x, activations h)) same)))
                              λ x'.
                                output_head-Hoare x' epsilon vocab block.hidden_size
                                  (Memᴰ.head refl)

    -- A graph that the decoder models, llama and qwen3, give from a new builder can run its operations in
    -- their order, each on values that an operation before it gave, of the types of its kind, and with as
    -- many weights as its kind reads; the graph is well formed, and it exports both phases.
    pub build_decoder-Runnable :
        (has_qk_norm : Bool) (id : String) (config : MetadataMap) (s : ModelBuilder F)
        (g : ArchitectureGraph F)
        → build_decoder as_u64 as_f64 has_qk_norm config (set_architecture_id id new) ≡ (s, ok g)
        → Runnable g
    build_decoder-Runnable q id config s g h =
        (build_decoder-Hoare q config).run _ (record { ordered = tt; context = tt }) g s h

    -- A graph that the hybrid model lfm2, of attention and convolution layers, gives from a new builder
    -- can run its operations in their order on values of the types of their kinds; the graph is well
    -- formed, and it exports both phases.
    pub build_hybrid-Runnable :
        (id : String) (config : MetadataMap) (s : ModelBuilder F) (g : ArchitectureGraph F)
        → build_hybrid as_u64 as_f64 config (set_architecture_id id new) ≡ (s, ok g)
        → Runnable g
    build_hybrid-Runnable id config s g h =
        (build_hybrid-Hoare config).run _ (record { ordered = tt; context = tt }) g s h
