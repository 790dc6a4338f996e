-- ===== src/Architecture/Tests.antt =====
-- Runs of the builder, of the models and of the verification on small inputs.
use dyninfer.Prelude.{
  ℕ, ◌≡◌, refl, ◌↔◌, true, false, [], ◌∷◌, Bool, Option, none, some, Result, ok, err, str_eq,
  if◌then◌else◌, length,
}
use dyninfer.Prelude.Json.{Json, number, string, array, nil, cons}
use dyninfer.Prelude.Effects.{◌>>=◌, ◌>>◌, pure, get_state, modify, lift, check}
use dyninfer.Core.Graph.{ArchitectureGraph}
use dyninfer.Architecture.Errors.{ArchitectureError, missing_architecture_id}
use dyninfer.Architecture.Config.{MetadataMap, num_layers}
use dyninfer.Prelude.Decimal.{decimal}
use dyninfer.Architecture.Verify.{verify_architecture_graph}
use dyninfer.Architecture.Verify.WellFormed.{WellFormed, verify_architecture_graph_iff}
use dyninfer.Architecture.Naming.{canonicalize_hf_family, canonicalize_lfm2}
use dyninfer.Architecture.Builder.{ModelBuilder, new, weighted, binary, set_architecture_id}
use dyninfer.Architecture.Models.{get_f64, build_decoder, build_hybrid}
use dyninfer.Architecture.Typing.Models.{Runnable, build_decoder-Runnable, build_hybrid-Runnable}

abbrev digit_of : Json → Option ℕ
digit_of (number s) =
    if str_eq s "1"
    then some 1
    else (if str_eq s "2" then some 2 else (if str_eq s "4" then some 4 else none))
digit_of _ = none

abbrev small_config : MetadataMap
small_config =
    ("num_layers", number "1")
    ∷ ("hidden_size", number "2")
    ∷ ("vocab_size", number "4")
    ∷ ("intermediate_size", number "4")
    ∷ ("num_heads", number "2")
    ∷ ("num_kv_heads", number "1")
    ∷ ("head_dim", number "1")
    ∷ ("rms_norm_eps", number "1")
    ∷ ("rope_theta", number "2")
    ∷ ("conv_kernel", number "4")
    ∷ ("layer_types", array (cons (string "conv") nil))
    ∷ []

abbrev graph_in : Result ArchitectureError (ArchitectureGraph ℕ) → ArchitectureGraph ℕ
graph_in (ok g) = g
graph_in (err e) = record {
  version = 0;
  architecture_id = "";
  values = [];
  operations = [];
  parameter_slots = [];
  exports = [];
}

abbrev gave_graph : Result ArchitectureError (ArchitectureGraph ℕ) → Bool
gave_graph (ok g) = true
gave_graph (err e) = false

gave_graph_lem :
    (s : ModelBuilder ℕ) (r : Result ArchitectureError (ArchitectureGraph ℕ))
    → gave_graph r ≡ true
    → ◌≡◌ {A = ModelBuilder ℕ × Result ArchitectureError (ArchitectureGraph ℕ)}
        (s, r)
        (s, ok (graph_in r))
gave_graph_lem s (ok g) h = refl
gave_graph_lem s (err e) h = absurd (cc)

abbrev small_qwen : ModelBuilder ℕ × Result ArchitectureError (ArchitectureGraph ℕ)
small_qwen = build_decoder digit_of digit_of true small_config (set_architecture_id "qwen3" new)

abbrev small_hybrid : ModelBuilder ℕ × Result ArchitectureError (ArchitectureGraph ℕ)
small_hybrid = build_hybrid digit_of digit_of small_config (set_architecture_id "lfm2" new)

small_qwen_built : gave_graph small_qwen.1 ≡ true
unfolding build_decoder build_hybrid num_layers get_f64 weighted decimal binary ◌>>=◌ ◌>>◌ pure
    get_state modify lift check
small_qwen_built = refl

small_qwen_operations : length (graph_in small_qwen.1).operations ≡ 26
unfolding build_decoder build_hybrid num_layers get_f64 weighted decimal binary ◌>>=◌ ◌>>◌ pure
    get_state modify lift check
small_qwen_operations = refl

small_hybrid_built : gave_graph small_hybrid.1 ≡ true
unfolding build_decoder build_hybrid num_layers get_f64 weighted decimal binary ◌>>=◌ ◌>>◌ pure
    get_state modify lift check
small_hybrid_built = refl

small_hybrid_operations : length (graph_in small_hybrid.1).operations ≡ 16
unfolding build_decoder build_hybrid num_layers get_f64 weighted decimal binary ◌>>=◌ ◌>>◌ pure
    get_state modify lift check
small_hybrid_operations = refl

-- Without an id the model is refused.
nameless : (build_decoder digit_of digit_of false small_config new).1 ≡ err missing_architecture_id
unfolding build_decoder build_hybrid num_layers get_f64 weighted decimal binary ◌>>=◌ ◌>>◌ pure
    get_state modify lift check
nameless = refl

build_decoder-Runnable_example : Runnable (graph_in small_qwen.1)
build_decoder-Runnable_example =
    build_decoder-Runnable digit_of digit_of true "qwen3" small_config small_qwen.0
      (graph_in small_qwen.1) (gave_graph_lem small_qwen.0 small_qwen.1 small_qwen_built)

build_hybrid-Runnable_example : Runnable (graph_in small_hybrid.1)
build_hybrid-Runnable_example =
    build_hybrid-Runnable digit_of digit_of "lfm2" small_config small_hybrid.0
      (graph_in small_hybrid.1) (gave_graph_lem small_hybrid.0 small_hybrid.1 small_hybrid_built)

verify_architecture_graph_iff_example :
    (verify_architecture_graph (graph_in small_qwen.1) ≡ ok tt) ↔ WellFormed (graph_in small_qwen.1)
verify_architecture_graph_iff_example = verify_architecture_graph_iff (graph_in small_qwen.1)

hf_projection :
    canonicalize_hf_family "model.layers.07.self_attn.q_proj.weight" ≡ some "blk.7.attn_q.weight"
unfolding canonicalize_hf_family
hf_projection = refl

hf_canonical : canonicalize_hf_family "blk.0.attn_q.weight" ≡ some "blk.0.attn_q.weight"
unfolding canonicalize_hf_family
hf_canonical = refl

hf_rope : canonicalize_hf_family "model.layers.0.self_attn.rotary_emb.inv_freq" ≡ none
unfolding canonicalize_hf_family
hf_rope = refl

lfm2_convolution :
    canonicalize_lfm2 "model.layers.0.conv.conv.weight" ≡ some "blk.0.shortconv.conv.weight"
unfolding canonicalize_lfm2
lfm2_convolution = refl
