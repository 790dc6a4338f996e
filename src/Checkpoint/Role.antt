-- ===== src/Checkpoint/Role.antt =====
-- crates/dyninfer-checkpoint/src/role.rs: the role that a parameter's name suggests.
use dyninfer.Prelude.{String, ◌||◌, List, [], ◌∷◌, any, if◌then◌else◌}
use dyninfer.Prelude.Strings.{to_ascii_lowercase, contains_text, ends_with, strip_suffix}
use dyninfer.Core.Types.{
  ParameterRole, embedding, attention_q, attention_k, attention_v, attention_o, ffn_gate, ffn_up,
  ffn_down, norm, output, bias, rope_freqs, other,
}

-- the roles in the order of their tests, with the texts to look for and the ends
pub record RoleRule : Type 0 where
  pub role : ParameterRole
  pub parts : List String
  pub ends : List String

abbrev pub rule : ParameterRole → List String → List String → RoleRule
rule role parts ends = record { role = role; parts = parts; ends = ends }

abbrev pub role_rules : List RoleRule
role_rules =
    rule embedding ("embed" ∷ "token_embd" ∷ "tok_embeddings" ∷ []) []
    ∷ rule norm ("q_norm" ∷ "k_norm" ∷ []) []
    ∷ rule attention_q ("attn_q" ∷ "attention.wq" ∷ "q_proj" ∷ []) (".q.weight" ∷ [])
    ∷ rule attention_k ("attn_k" ∷ "attention.wk" ∷ "k_proj" ∷ []) (".k.weight" ∷ [])
    ∷ rule attention_v ("attn_v" ∷ "attention.wv" ∷ "v_proj" ∷ []) (".v.weight" ∷ [])
    ∷ rule attention_o ("attn_output" ∷ "attn_o" ∷ "attention.wo" ∷ "o_proj" ∷ [])
        (".o.weight" ∷ [])
    ∷ rule ffn_gate ("ffn_gate" ∷ "w1" ∷ "gate_proj" ∷ []) []
    ∷ rule ffn_up ("ffn_up" ∷ "w3" ∷ "up_proj" ∷ []) []
    ∷ rule ffn_down ("ffn_down" ∷ "w2" ∷ "down_proj" ∷ []) []
    ∷ rule norm ("norm" ∷ "ln_" ∷ "layernorm" ∷ []) []
    ∷ rule output ("output" ∷ "lm_head" ∷ []) ("output.weight" ∷ [])
    ∷ rule bias ("bias" ∷ []) []
    ∷ rule rope_freqs ("rope" ∷ "freq" ∷ []) []
    ∷ []

unfoldable pub first_role : String → String → List RoleRule → ParameterRole
unfolding contains_text strip_suffix
first_role name lowered [] = other name
first_role name lowered (r ∷ rules) =
    let rest = first_role name lowered rules in
    if any (contains_text lowered) r.parts || any (ends_with lowered) r.ends then r.role else rest

unfoldable pub infer_role : String → ParameterRole
unfolding first_role to_ascii_lowercase
infer_role name = first_role name (to_ascii_lowercase name) role_rules
