-- ===== src/Architecture/Typing/Sublayers.antt =====
-- The sublayers of crates/dyninfer-architecture/src/builder.rs are well typed.
use dyninfer.Prelude.{
  ℕ, ◌%◌, String, ◌≡◌, refl, [], ◌∷◌, Memᴰ, Bool, true, false, Option, none, some, ==_iff,
}
use dyninfer.Prelude.Effects.{Hoare, then-Hoare, check-Hoare, from-Hoare, given-Hoare}
use dyninfer.Core.Graph.{SemanticTensorType, activations, kv_cache, GraphValue}
use dyninfer.Architecture.Builder.{ModelBuilder}
use dyninfer.Architecture.Blocks.{
  DecoderBlockSpec, ShortConvBlockSpec, mul_u32, validate_decoder, validate_short_conv, norm_if,
  rope_if, attention_sublayer, short_conv_sublayer, feed_forward_sublayer, decoder_block,
}
use dyninfer.Architecture.Typing.{
  linear_type, rms_norm_type, per_head_rms_norm_type, rope_type, write_type, read_type,
  attention_type, short_conv_type, silu_type, multiply_type, residual_type, Context,
}
use dyninfer.Architecture.Typing.Rules.{
  Yields, bind-Yields, pure-Yields, with_output-Yields, weighted-Yields, binary-Yields,
  operation-Holds,
}

-- the places of a context, the last value first
module _ {Γ : Context} where
  x0 : {p : GraphValue × SemanticTensorType} → Memᴰ p (p ∷ Γ)
  x0 = Memᴰ.head refl

  x1 : {p q : GraphValue × SemanticTensorType} → Memᴰ p (q ∷ p ∷ Γ)
  x1 = Memᴰ.tail x0

  x2 : {p q r : GraphValue × SemanticTensorType} → Memᴰ p (r ∷ q ∷ p ∷ Γ)
  x2 = Memᴰ.tail x1

  x3 : {p q r s : GraphValue × SemanticTensorType} → Memᴰ p (s ∷ r ∷ q ∷ p ∷ Γ)
  x3 = Memᴰ.tail x2

  x4 : {p q r s t : GraphValue × SemanticTensorType} → Memᴰ p (t ∷ s ∷ r ∷ q ∷ p ∷ Γ)
  x4 = Memᴰ.tail x3

  x5 : {p q r s t u : GraphValue × SemanticTensorType} → Memᴰ p (u ∷ t ∷ s ∷ r ∷ q ∷ p ∷ Γ)
  x5 = Memᴰ.tail x4

  past6 :
      {p q r s t u v : GraphValue × SemanticTensorType}
      → Memᴰ p Γ
      → Memᴰ p (q ∷ r ∷ s ∷ t ∷ u ∷ v ∷ Γ)
  past6 m = Memᴰ.tail (Memᴰ.tail (Memᴰ.tail (Memᴰ.tail (Memᴰ.tail (Memᴰ.tail m)))))

module _ {F : Type 0} where
  pub feed_forward_sublayer-Yields :
      {Γ : Context} (x : GraphValue) (layer : ℕ) (spec : DecoderBlockSpec F)
      → Memᴰ (x, activations spec.hidden_size) Γ
      → Yields Γ (feed_forward_sublayer x layer spec) (activations spec.hidden_size)
  unfolding feed_forward_sublayer
  feed_forward_sublayer-Yields x layer spec m =
      bind-Yields (weighted-Yields _ _ _ _ m (rms_norm_type _ _) (λ e. e)) λ normalized.
        bind-Yields (weighted-Yields _ _ _ _ x0 (linear_type _ _ _) (λ e. refl)) λ gate.
          bind-Yields (weighted-Yields _ _ _ _ x1 (linear_type _ _ _) (λ e. refl)) λ up.
            bind-Yields
              (with_output-Yields ((gate, activations spec.intermediate_size) ∷ []) _ _ (x1, tt)
                (silu_type _) (λ h. h.0))
              λ activated. bind-Yields (binary-Yields _ x0 x1 (multiply_type _)) λ gated.
                bind-Yields (weighted-Yields _ _ _ _ x0 (linear_type _ _ _) (λ e. refl))
                  λ down. binary-Yields _ (past6 m) x0 (residual_type _)

  norm_if-Yields :
      {Γ : Context} (has_qk_norm : Bool) (spec : DecoderBlockSpec F) (id : String) (x : GraphValue)
      (heads : ℕ)
      → Memᴰ (x, activations (mul_u32 heads spec.head_dim)) Γ
      → Yields Γ (norm_if has_qk_norm spec id x heads) (activations (mul_u32 heads spec.head_dim))
  norm_if-Yields false spec id x heads m = pure-Yields m
  norm_if-Yields true spec id x heads m =
      weighted-Yields _ _ _ _ m (per_head_rms_norm_type _ _ _) (λ e. e)

  rope_if-Yields :
      {Γ : Context} (theta : Option F) (spec : DecoderBlockSpec F) (id : String) (x : GraphValue)
      (heads : ℕ)
      → Memᴰ (x, activations (mul_u32 heads spec.head_dim)) Γ
      → Yields Γ (rope_if theta spec id x heads) (activations (mul_u32 heads spec.head_dim))
  rope_if-Yields none spec id x heads m = pure-Yields m
  rope_if-Yields (some theta) spec id x heads m =
      with_output-Yields ((x, activations (mul_u32 heads spec.head_dim)) ∷ []) _ _ (m, tt)
        (rope_type _ _ _) (λ h. h.0)

  validate_decoder-Hoare :
      {P : ModelBuilder F → Type 0} (spec : DecoderBlockSpec F)
      → Hoare P (validate_decoder spec) (λ u s. (spec.num_heads % spec.num_kv_heads ≡ 0) × P s)
  unfolding validate_decoder
  validate_decoder-Hoare spec =
      then-Hoare (from-Hoare (λ s p e. p) (check-Hoare _ _))
        (from-Hoare (λ s p e. ((==_iff _ _).0 e, p)) (check-Hoare _ _))

  pub attention_sublayer-Yields :
      {Γ : Context} (x : GraphValue) (layer : ℕ) (has_qk_norm : Bool) (spec : DecoderBlockSpec F)
      → Memᴰ (x, activations spec.hidden_size) Γ
      → Yields Γ (attention_sublayer x layer has_qk_norm spec) (activations spec.hidden_size)
  unfolding attention_sublayer
  attention_sublayer-Yields x layer has_qk_norm spec m =
      let query_type = activations (mul_u32 spec.num_heads spec.head_dim) in
      let key_type = activations (mul_u32 spec.num_kv_heads spec.head_dim) in
      let cache_type = kv_cache spec.num_kv_heads spec.head_dim in
      then-Hoare (validate_decoder-Hoare spec) (
        given-Hoare λ even.
          bind-Yields (weighted-Yields _ _ _ _ m (rms_norm_type _ _) (λ e. e)) λ normalized.
            bind-Yields (weighted-Yields _ _ _ _ x0 (linear_type _ _ _) (λ e. refl)) λ query.
              bind-Yields (weighted-Yields _ _ _ _ x1 (linear_type _ _ _) (λ e. refl)) λ key_proj.
                bind-Yields (weighted-Yields _ _ _ _ x2 (linear_type _ _ _) (λ e. refl))
                  λ value_proj.
                    bind-Yields (norm_if-Yields has_qk_norm spec _ query _ x2) λ query_norm.
                      bind-Yields (norm_if-Yields has_qk_norm spec _ key_proj _ x2) λ key_norm.
                        bind-Yields (rope_if-Yields spec.rope_theta spec _ query_norm _ x1)
                          λ query_rope.
                            bind-Yields (rope_if-Yields spec.rope_theta spec _ key_norm _ x1)
                              λ key_rope. then-Hoare (operation-Holds _ x0 (write_type _ _ _)) (
                                then-Hoare (operation-Holds _ x4 (write_type _ _ _)) (
                                  bind-Yields
                                    (with_output-Yields ((key_rope, key_type) ∷ []) _ _ (x0, tt)
                                      (read_type _ _ _ _) (λ h. refl))
                                    λ key_cache.
                                      bind-Yields
                                        (with_output-Yields ((value_proj, key_type) ∷ []) _ _
                                          (x5, tt) (read_type _ _ _ _) (λ h. refl))
                                        λ value_cache.
                                          bind-Yields
                                            (with_output-Yields
                                              ((query_rope, query_type)
                                                ∷ (key_cache, cache_type)
                                                ∷ (value_cache, cache_type)
                                                ∷ [])
                                              _ _ (x3, (x1, (x0, tt))) (attention_type _ _ _ even)
                                              (λ h. refl))
                                            λ attended.
                                              bind-Yields
                                                (weighted-Yields _ _ _ _ x0 (linear_type _ _ _)
                                                  (λ e. refl))
                                                λ projected.
                                                  binary-Yields _ (past6 (past6 m)) x0
                                                    (residual_type _))))

  pub short_conv_sublayer-Yields :
      {Γ : Context} (x : GraphValue) (layer : ℕ) (spec : ShortConvBlockSpec F)
      → Memᴰ (x, activations spec.hidden_size) Γ
      → Yields Γ (short_conv_sublayer x layer spec) (activations spec.hidden_size)
  unfolding short_conv_sublayer validate_short_conv
  short_conv_sublayer-Yields x layer spec m =
      then-Hoare (from-Hoare (λ s h e. h) (check-Hoare _ _)) (
        bind-Yields (weighted-Yields _ _ _ _ m (rms_norm_type _ _) (λ e. e)) λ normalized.
          bind-Yields (weighted-Yields _ _ _ _ x0 (linear_type _ _ _) (λ e. refl)) λ gates.
            bind-Yields (weighted-Yields _ _ _ _ x0 (short_conv_type _ _ _) (λ e. refl)) λ mixed.
              bind-Yields (weighted-Yields _ _ _ _ x0 (linear_type _ _ _) (λ e. refl)) λ projected.
                binary-Yields _ (Memᴰ.tail (Memᴰ.tail (Memᴰ.tail (Memᴰ.tail m)))) x0
                  (residual_type _))

  pub decoder_block-Yields :
      {Γ : Context} (x : GraphValue) (layer : ℕ) (has_qk_norm : Bool) (spec : DecoderBlockSpec F)
      → Memᴰ (x, activations spec.hidden_size) Γ
      → Yields Γ (decoder_block x layer has_qk_norm spec) (activations spec.hidden_size)
  unfolding decoder_block
  decoder_block-Yields x layer has_qk_norm spec m =
      bind-Yields (attention_sublayer-Yields x layer has_qk_norm spec m)
        λ after_attention. feed_forward_sublayer-Yields after_attention layer spec x0
