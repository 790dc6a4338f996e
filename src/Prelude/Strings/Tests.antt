-- ===== src/Prelude/Strings/Tests.antt =====
-- Runs of the operations on texts.
use dyninfer.Prelude.{◌≡◌, refl, none, some, [], ◌∷◌}
use dyninfer.Prelude.Utf8.{from_utf8}
use dyninfer.Prelude.Strings.{trim, to_ascii_lowercase, strip_suffix, split_at_dot, parse_u32}

trims : trim "\t llama \n" ≡ "llama"
unfolding trim
trims = refl

lowers : to_ascii_lowercase "Qwen3" ≡ "qwen3"
unfolding to_ascii_lowercase
lowers = refl

strips : strip_suffix "LlamaForCausalLM" "ForCausalLM" ≡ some "Llama"
unfolding strip_suffix
strips = refl

splits : split_at_dot "12.attn" ≡ some ("12", "attn")
unfolding split_at_dot
splits = refl

parses : parse_u32 "+4294967295" ≡ some 4294967295
unfolding parse_u32
parses = refl

overflows : parse_u32 "4294967296" ≡ none
unfolding parse_u32
overflows = refl

decodes : from_utf8 (65 ∷ 194 ∷ 181 ∷ 226 ∷ 130 ∷ 172 ∷ 240 ∷ 159 ∷ 152 ∷ 128 ∷ []) ≡ some "Aµ€😀"
unfolding from_utf8
decodes = refl

refuses_surrogate : from_utf8 (237 ∷ 160 ∷ 128 ∷ []) ≡ none
unfolding from_utf8
refuses_surrogate = refl

refuses_cut : from_utf8 (226 ∷ 130 ∷ []) ≡ none
unfolding from_utf8
refuses_cut = refl
