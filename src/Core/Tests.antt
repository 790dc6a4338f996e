-- ===== src/Core/Tests.antt =====
-- The theorems on the core types at concrete inputs.
use dyninfer.Prelude.{
  ◌*◌, ◌≡◌, ◌≤◌, ◌<◌, refl, some, none, [], ◌∷◌, map, min, codes, ltb, u64_mod, u64_max,
  if◌then◌else◌, arith,
}
use dyninfer.Core.Scalar.{f16, bf16, parse, display}
use dyninfer.Core.Scalar.Parsing.{to_ascii_uppercase, parse-display}
use dyninfer.Core.Shape.{Shape, numel}
use dyninfer.Core.Shape.Numel.{product, numel-eq-product, numel-some}
use dyninfer.Core.KvCache.{
  KvCacheDescriptor, layers_heads_seq_dim, static_globals, element_bytes, bytes_for_tokens,
  capacity_bytes,
}
use dyninfer.Core.KvCache.Bytes.{bytes_for_tokens_bounds, bytes_for_tokens_exact}

abbrev matrix : Shape
matrix = record { dims = 4096 ∷ 11008 ∷ [] }

abbrev cache : KvCacheDescriptor
cache = record {
  layer_count = 22;
  max_batch_size = 1;
  max_sequence_length = 2048;
  kv_head_count = 4;
  head_dimension = 64;
  element_type = f16;
  layout = layers_heads_seq_dim;
  alignment = 64;
  storage = static_globals;
}

counted : numel matrix ≡ some 45088768
unfolding numel
counted = refl

numel-some_example : (45088768 ≡ product (4096 ∷ 11008 ∷ [])) × (45088768 < u64_mod)
numel-some_example = numel-some matrix {n = 45088768} counted

numel-eq-product_example : numel matrix ≡ (
    if ltb (product (4096 ∷ 11008 ∷ [])) u64_mod then some (product (4096 ∷ 11008 ∷ [])) else none)
numel-eq-product_example = numel-eq-product matrix (omega arith, (omega arith, tt))

bytes_for_tokens_bounds_example :
    (bytes_for_tokens cache 10 ≤ bytes_for_tokens cache 3000)
    × (bytes_for_tokens cache 3000 ≤ capacity_bytes cache)
bytes_for_tokens_bounds_example = bytes_for_tokens_bounds cache 10 3000 (omega arith)

bytes_for_tokens_exact_example :
    bytes_for_tokens cache 3000 ≡ min (22 * 4 * 64 * element_bytes f16 * min 3000 2048 * 2) u64_max
bytes_for_tokens_exact_example = bytes_for_tokens_exact cache 3000 (omega arith)

parse-display_example :
    (parse (codes (display bf16)) ≡ some bf16)
    × (parse (map to_ascii_uppercase (codes (display bf16))) ≡ some bf16)
parse-display_example = parse-display bf16
