-- ===== src/Quantization/Resolved.antt =====
-- The definition that the registry of `register_all` finds for a parameter, and what its acceptance says of the
-- parameter's storage.
use dyninfer.Prelude.{
  ℕ, ◌≡◌, refl, sym, ◌^◌, Bool, true, ◌&&◌, some, List, [], ◌∷◌, ok, All, All-mem, All-append, all,
  map, find-some, ltb, ltb→lt, Memᴰ, arith, &&_parts,
}
use dyninfer.Prelude.Eq.{eq, option_eq, option_beq_iff}
use dyninfer.Core.Scalar.{f32, f16, bf16, display}
use dyninfer.Quantization.Plain.{candidates_of}
use dyninfer.Quantization.Codegen.{block_candidate}
use dyninfer.Checkpoint.Catalog.{LogicalParameter}
use dyninfer.Kernel.{encoding_eq, EncodingKey, KernelCandidateDescriptor}
use dyninfer.Quantization.{QuantizationDefinition, physical_encoding_key}
use dyninfer.Quantization.GgufBlock.{GgufBlockDefinition, block_definition}
use dyninfer.Quantization.MlxAffine.{mlx_definition, mlx_candidates}
use dyninfer.Quantization.Registry.{
  resolve, register_all, new_registry, builtin_registry, builtin_definitions,
  schema_only_definitions, mlx_bits, q4_1_schema, q6_k_schema, q8_0_schema,
}
use dyninfer.Quantization.Stored.{StoredAs}
use dyninfer.Quantization.Sound.{Sound}
use dyninfer.Quantization.Sound.Plain.{plain_definition-Sound}
use dyninfer.Quantization.Sound.Blocks.{block_definition-Sound, q4_0_definition-Sound}
use dyninfer.Quantization.Sound.Groups.{mlx_definition-Sound}

-- the numbers of a table's row fit in 32 bits
abbrev fits : GgufBlockDefinition → Bool
fits d = ltb d.block_size (2 ^ 32) && ltb d.bytes_per_block (2 ^ 32)

block_definitions-Sound :
    (ds : List GgufBlockDefinition)
    → all fits ds ≡ true
    → All Sound (map (λ d. block_definition d []) ds)
block_definitions-Sound [] h = tt
block_definitions-Sound (d ∷ ds) h =
    let (here, later) = &&_parts (fits d) (all fits ds) h in
    let (size, bytes) = &&_parts _ _ here in
    (
      block_definition-Sound d (ltb→lt _ _ size) (ltb→lt _ _ bytes) [],
      block_definitions-Sound ds later,
    )

mlx_definitions-Sound : (bits : List ℕ) → All Sound (map mlx_definition bits)
mlx_definitions-Sound [] = tt
mlx_definitions-Sound (b ∷ bits) = (mlx_definition-Sound b, mlx_definitions-Sound bits)

builtin_definitions-Sound : All Sound builtin_definitions
unfolding builtin_definitions
builtin_definitions-Sound = (
  plain_definition-Sound f32,
  (
    plain_definition-Sound f16,
    (
      plain_definition-Sound bf16,
      (
        q4_0_definition-Sound,
        (
          block_definition-Sound q4_1_schema (omega arith) (omega arith) _,
          (
            block_definition-Sound q6_k_schema (omega arith) (omega arith) _,
            (
              block_definition-Sound q8_0_schema (omega arith) (omega arith) _,
              All-append Sound (map (λ d. block_definition d []) schema_only_definitions)
                  (map mlx_definition mlx_bits)
                  (block_definitions-Sound schema_only_definitions refl)
                  (mlx_definitions-Sound mlx_bits),
            ),
          ),
        ),
      ),
    ),
  ),
)

-- the candidate is for the encoding of the key
abbrev is_for : EncodingKey → KernelCandidateDescriptor → Bool
is_for key c = eq c.encoding (some key)

all-All :
    (key : EncodingKey) (cs : List KernelCandidateDescriptor)
    → all (is_for key) cs ≡ true
    → All (λ c. c.encoding ≡ some key) cs
all-All key [] h = tt
all-All key (c ∷ cs) h =
    let (here, later) = &&_parts (is_for key c) (all (is_for key) cs) h in
    ((option_beq_iff c.encoding (some key)).0 here, all-All key cs later)

abbrev offers : QuantizationDefinition → Bool
offers d = all (is_for d.descriptor.key) d.kernel_candidates

all-offers : all offers builtin_definitions ≡ true
unfolding builtin_definitions block_candidate candidates_of mlx_candidates display
all-offers = refl

all-member :
    (ds : List QuantizationDefinition) {d : QuantizationDefinition}
    → all offers ds ≡ true
    → Memᴰ d ds
    → offers d ≡ true
all-member (c ∷ ds) h (Memᴰ.head q) = rw q (&&_parts (offers c) (all offers ds) h).0
all-member (c ∷ ds) h (Memᴰ.tail m) = all-member ds (&&_parts (offers c) (all offers ds) h).1 m
all-member [] h m = elim m [ ]

-- `register_all` registers every built-in definition, with no key twice. For a parameter: where the
-- registry finds a definition for its encoding and the definition accepts the parameter, the definition's
-- key is that of the encoding, so are the keys of the kernels that it offers, and the parameter is stored as
-- its encoding says: plain elements in one component of their exact size; or whole blocks in one
-- component, of the declared layout without gaps; or words, scales and biases in three components that fit
-- the last axis and have their exact sizes.
pub resolve-StoredAs :
    (p : LogicalParameter) (d : QuantizationDefinition)
    → resolve builtin_registry p.encoding ≡ some d
    → d.validate p ≡ ok tt
    → (register_all new_registry ≡ ok builtin_registry)
      × (d.descriptor.key ≡ physical_encoding_key p.encoding)
      × All (λ c. c.encoding ≡ some (physical_encoding_key p.encoding)) d.kernel_candidates
      × StoredAs p.encoding p
unfolding resolve register_all display
resolve-StoredAs p d found accepted =
    let (matched, member) = find-some (λ c. c.matches p.encoding) builtin_definitions found in
    let sound = All-mem Sound builtin_definitions-Sound member in
    let key = sound.key_agrees p.encoding matched in
    (
      refl,
      sym key,
      rw key (
          all-All d.descriptor.key d.kernel_candidates
            (all-member builtin_definitions all-offers member)),
      (sound.accepts p).run tt accepted,
    )
