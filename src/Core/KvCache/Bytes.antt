-- ===== src/Core/KvCache/Bytes.antt =====
-- The cache sizes of crates/dyninfer-core/src/types.rs: bounded by the capacity, growing with the
-- tokens, and exact where 64 bits suffice.
use dyninfer.Prelude.{
  ℕ, ◌*◌, ◌≤◌, ◌≡◌, arith, min, u32_max, u64_max, saturating_mul_mono, saturating_mul_mono_right,
  saturating_mul-min,
}
use dyninfer.Core.KvCache.{
  KvCacheDescriptor, element_bytes, bytes_per_token_component, bytes_for_tokens, capacity_bytes,
}

-- More tokens take no fewer bytes, and no number of tokens takes more than the capacity.
pub bytes_for_tokens_bounds :
    (kv : KvCacheDescriptor) (m n : ℕ)
    → m ≤ n
    → (bytes_for_tokens kv m ≤ bytes_for_tokens kv n) × (bytes_for_tokens kv n ≤ capacity_bytes kv)
unfolding bytes_for_tokens capacity_bytes
bytes_for_tokens_bounds kv m n h =
    let step = λ (a b : ℕ) (k : a ≤ b).
      saturating_mul_mono _ _ 2 (saturating_mul_mono_right (bytes_per_token_component kv) a b k) in
    (step _ _ (omega arith), step _ _ (omega arith))

-- The size is the product of layers, heads, dimensions, element bytes, the tokens that the cache has
-- room for, and 2 (keys and values), cut off at the largest 64-bit number.
pub bytes_for_tokens_exact :
    (kv : KvCacheDescriptor) (n : ℕ)
    → kv.layer_count ≤ u32_max
    → bytes_for_tokens kv n
      ≡ min
          (kv.layer_count
            * kv.kv_head_count
            * kv.head_dimension
            * element_bytes kv.element_type
            * min n kv.max_sequence_length
            * 2)
          u64_max
unfolding bytes_for_tokens bytes_per_token_component
bytes_for_tokens_exact kv n h =
    let e : kv.layer_count ≡ min kv.layer_count u64_max = omega arith in
    rw e (simp (saturating_mul-min, ← e))
