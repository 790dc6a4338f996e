-- ===== src/Architecture/Schemas.antt =====
-- The built-in architectures: the ids, the model types and the fields of
-- crates/dyninfer-architecture/src/models/llama.rs, qwen3.rs and lfm2.rs, and `field` of slots.rs.
use dyninfer.Prelude.{String, Bool, true, false, Option, none, some, List, [], ◌∷◌}
use dyninfer.Prelude.Json.{Json, number, string, array, nil, cons}
use dyninfer.Architecture.Config.{ConfigField}

abbrev pub field : String → Bool → Option Json → ConfigField
field name required default = record { name = name; required = required; default = default }

-- the fields of the decoder models with their defaults, in the order of their schemas
abbrev pub decoder_fields :
    (layers heads kv_heads head_dim hidden intermediate vocab context epsilon : String)
    → Option Json
    → List ConfigField
decoder_fields layers heads kv_heads head_dim hidden intermediate vocab context epsilon theta =
    field "num_layers" true (some (number layers))
    ∷ field "num_heads" true (some (number heads))
    ∷ field "num_kv_heads" true (some (number kv_heads))
    ∷ field "head_dim" true (some (number head_dim))
    ∷ field "hidden_size" true (some (number hidden))
    ∷ field "intermediate_size" true (some (number intermediate))
    ∷ field "vocab_size" true (some (number vocab))
    ∷ field "context_length" true (some (number context))
    ∷ field "rms_norm_eps" false (some (number epsilon))
    ∷ field "rope_theta" false theta
    ∷ field "prefill_window" false none
    ∷ field "max_kv" false none
    ∷ []

abbrev pub llama_fields : List ConfigField
llama_fields = decoder_fields "2" "4" "4" "64" "256" "512" "32000" "2048" "1e-5" none

abbrev pub qwen3_fields : List ConfigField
qwen3_fields =
    decoder_fields "28" "16" "8" "128" "1024" "3072" "151936" "40960" "1e-6"
      (some (number "1000000.0"))

abbrev pub default_schedule : Json
default_schedule =
    array (cons (string "conv") (cons (string "conv") (cons (string "full_attention") nil)))

abbrev pub lfm2_fields : List ConfigField
lfm2_fields =
    field "num_layers" true (some (number "3"))
    ∷ field "num_heads" true (some (number "4"))
    ∷ field "num_kv_heads" true (some (number "2"))
    ∷ field "head_dim" true (some (number "64"))
    ∷ field "hidden_size" true (some (number "256"))
    ∷ field "intermediate_size" true (some (number "512"))
    ∷ field "vocab_size" true (some (number "32000"))
    ∷ field "context_length" true (some (number "4096"))
    ∷ field "layer_types" true (some default_schedule)
    ∷ field "rms_norm_eps" false (some (number "1e-5"))
    ∷ field "rope_theta" false (some (number "1000000.0"))
    ∷ field "conv_kernel" false (some (number "3"))
    ∷ field "conv_dim" false none
    ∷ field "prefill_window" false none
    ∷ field "max_kv" false none
    ∷ []

abbrev pub llama_types : List String
llama_types = "llama" ∷ "mistral" ∷ "LlamaForCausalLM" ∷ "MistralForCausalLM" ∷ []

abbrev pub qwen3_types : List String
qwen3_types = "qwen3" ∷ "Qwen3ForCausalLM" ∷ []

abbrev pub lfm2_types : List String
lfm2_types = "lfm2" ∷ "Lfm2ForCausalLM" ∷ []

-- `MODEL_REMAPPING` of remapping.rs
abbrev pub model_remapping : List (String × String)
model_remapping =
    ("llama", "llama")
    ∷ ("mistral", "llama")
    ∷ ("LlamaForCausalLM", "llama")
    ∷ ("MistralForCausalLM", "llama")
    ∷ ("qwen3", "qwen3")
    ∷ ("Qwen3ForCausalLM", "qwen3")
    ∷ ("lfm2", "lfm2")
    ∷ ("Lfm2ForCausalLM", "lfm2")
    ∷ []
