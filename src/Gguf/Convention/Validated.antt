-- ===== src/Gguf/Convention/Validated.antt =====
-- A GGUF tensor of the size of its type is decoded to a parameter that the encoding definitions accept:
-- crates/dyninfer-checkpoint-gguf/src/convention.rs against crates/dyninfer-quantization.
use dyninfer.Prelude.{
  ℕ, ◌≡◌, refl, sym, ap, ◌∙◌, ◌/◌, ◌%◌, ◌<◌, String, Bool, true, ◌==◌, ==_iff, none, some, List, [],
  ◌∷◌, ok, ok_or, guard, >>=-eq-ok, guard-eq-ok, ok_or-eq-ok, checked_mul, checked_mul-some,
  u64_mod, length, str_eq_iff, arith,
}
use dyninfer.Core.Scalar.{ScalarType, opaque, scalar_index, size_bytes, scalar_beq, scalar_beq_iff}
use dyninfer.Core.Shape.{ByteRange, numel, fold_mul}
use dyninfer.Core.Types.{PhysicalEncoding, plain_of, block_quantized, StorageComponent}
use dyninfer.Checkpoint.Errors.{numel_overflow, unsized_type, partial_block, size_overflow}
use dyninfer.Checkpoint.Catalog.{RawTensorEntry, LogicalParameter}
use dyninfer.Gguf.Types.{
  GgufType, block_size, type_size, name, storage_element_type, nbytes_for_shape, sized, f32, f16,
  bf16, q4_0,
}
use dyninfer.Gguf.Convention.{physical_encoding, parameter_of_entry}
use dyninfer.Gguf.Convention.Known.{is_schema, block_type-Known, q4_0_type-Known}
use dyninfer.Quantization.{QuantizationDefinition, fold_lengths, ranges_of, is_data_component}
use dyninfer.Quantization.Plain.{validate_plain, matches_plain, plain_bytes, plain_definition}
use dyninfer.Quantization.GgufBlock.{
  block_codec, block_definition, validate_blocks, validate_block, validate_q4_0,
}
use dyninfer.Quantization.Registry.{resolve, builtin_registry, builtin_definitions, q4_0_definition}

-- the size of a type in blocks, taken apart
nbytes_for_shape-parts :
    (t : GgufType) (shape : List ℕ) {block bytes r : ℕ}
    → block_size t ≡ some block
    → type_size t ≡ some bytes
    → nbytes_for_shape t shape ≡ ok r
    → (n : ℕ) × (fold_mul 1 shape ≡ some n)
      × (n % block ≡ 0)
      × (checked_mul (n / block) bytes ≡ some r)
unfolding nbytes_for_shape sized
nbytes_for_shape-parts t shape {block} {bytes} {r} b s h =
    let (n, counted, sizes) =
      >>=-eq-ok (ok_or (fold_mul 1 shape) numel_overflow) (λ n. sized t n (block_size t)) h in
    let same : sized t n (some block) ≡ ok r = ap (sized t n) (sym b) ∙ sizes in
    let (w, typed, rest) = >>=-eq-ok (ok_or (type_size t) (unsized_type (name t))) _ same in
    let width : w ≡ bytes = cc (ok_or-eq-ok (type_size t) (unsized_type (name t)) typed, s) in
    let (u, whole, last) =
      >>=-eq-ok (guard (n % block == 0) (partial_block (name t) n block)) _ rest in
    (
      n,
      ok_or-eq-ok (fold_mul 1 shape) numel_overflow counted,
      (==_iff (n % block) 0).0
          (guard-eq-ok (n % block == 0) (partial_block (name t) n block) u whole),
      ap (λ k. checked_mul (n / block) k) (sym width) ∙ ok_or-eq-ok _ size_overflow last,
    )

-- one range of the exact bytes passes the checks
module _ (codec : String) (block bytes : ℕ) (p : LogicalParameter) where
  validate_blocks-ok :
      (c : StorageComponent) (r : ByteRange) {n k : ℕ}
      → p.components ≡ c ∷ []
      → c.name ≡ "data"
      → c.storage_type ≡ opaque codec
      → c.byte_ranges ≡ r ∷ []
      → r.length ≡ k
      → fold_mul 1 p.logical_type.shape.dims ≡ some n
      → n % block ≡ 0
      → checked_mul (n / block) bytes ≡ some k
      → validate_blocks codec block bytes p ≡ ok tt
  unfolding validate_blocks numel fold_lengths
  validate_blocks-ok c r {n} {k} single named typed ranges exact counted whole size =
      let fits : k < u64_mod =
        let parts = checked_mul-some (n / block) bytes size in omega (arith, parts) in
      let folded : fold_lengths 0 (r ∷ []) ≡ some k = ground (arith, exact, fits) in
      let joined : ranges_of p.components ≡ r ∷ [] = rw (single, ranges) refl in
      let summed : fold_lengths 0 (ranges_of p.components) ≡ some k =
        ap (fold_lengths 0) joined ∙ folded in
      let text = (str_eq_iff codec codec).1 refl in
      let equal = (==_iff k k).1 refl in
      let data_stored : is_data_component p.components codec ≡ true =
        rw (single, named, typed) text in
      rw (counted, whole, size, summed, data_stored, equal) refl

-- the types that have a registered encoding
abbrev pub is_registered : GgufType → Bool
is_registered f32 = true
is_registered f16 = true
is_registered bf16 = true
is_registered q4_0 = true
is_registered t = is_schema t

-- The entry of a tensor: one range of the exact bytes of its type and its shape.
pub record Stored (t : GgufType) (e : RawTensorEntry) : Type 0 where
  pub range : ByteRange
  pub one_range : e.byte_ranges ≡ range ∷ []
  pub typed : e.storage_type ≡ storage_element_type t
  pub exact : nbytes_for_shape t e.shape ≡ ok range.length

-- The parameter that is made of the entry has a definition, which accepts it.
abbrev pub Accepted : GgufType → RawTensorEntry → Type 0
Accepted t e =
    (made : PhysicalEncoding × ScalarType) × (d : QuantizationDefinition) × (physical_encoding t
      ≡ ok made)
    × (resolve builtin_registry made.0 ≡ some d)
    × (d.validate (parameter_of_entry e made) ≡ ok tt)

schema-Accepted :
    (t : GgufType) (e : RawTensorEntry) → is_schema t ≡ true → Stored t e → Accepted t e
unfolding block_definition validate_block
schema-Accepted t e h stored =
    let (d, cs, b, made, found, valid, typed, block, bytes) = block_type-Known t h in
    let (n, counted, whole, size) = nbytes_for_shape-parts t e.shape block bytes stored.exact in
    let p = parameter_of_entry e (block_quantized b, ScalarType.f16) in
    let checked =
      validate_blocks-ok (block_codec d) d.block_size d.bytes_per_block p _ stored.range refl refl
        (stored.typed ∙ typed) stored.one_range refl counted whole size in
    ((block_quantized b, ScalarType.f16), block_definition d cs, made, found, rw valid checked)

-- the size of a type without blocks, taken apart
nbytes_for_shape-elements :
    (t : GgufType) (shape : List ℕ) {width r : ℕ}
    → block_size t ≡ none
    → type_size t ≡ some width
    → nbytes_for_shape t shape ≡ ok r
    → (n : ℕ) × (fold_mul 1 shape ≡ some n) × (checked_mul n width ≡ some r)
unfolding nbytes_for_shape sized
nbytes_for_shape-elements t shape {width} {r} b s h =
    let (n, counted, sizes) =
      >>=-eq-ok (ok_or (fold_mul 1 shape) numel_overflow) (λ n. sized t n (block_size t)) h in
    let same : sized t n none ≡ ok r = ap (sized t n) (sym b) ∙ sizes in
    let (w, typed, last) = >>=-eq-ok (ok_or (type_size t) (unsized_type (name t))) _ same in
    let known : w ≡ width = cc (ok_or-eq-ok (type_size t) (unsized_type (name t)) typed, s) in
    (
      n,
      ok_or-eq-ok (fold_mul 1 shape) numel_overflow counted,
      ap (λ k. checked_mul n k) (sym known) ∙ ok_or-eq-ok _ size_overflow last,
    )

-- one range of the exact bytes of plain elements passes the checks
validate_plain-ok :
    (t : ScalarType) (p : LogicalParameter) (c : StorageComponent) (r : ByteRange) {n width k : ℕ}
    → matches_plain t p.encoding ≡ true
    → p.logical_type.element_type ≡ t
    → p.components ≡ c ∷ []
    → c.byte_ranges ≡ r ∷ []
    → r.length ≡ k
    → numel p.logical_type.shape ≡ some n
    → size_bytes t ≡ some width
    → checked_mul n width ≡ some k
    → validate_plain t p ≡ ok tt
unfolding validate_plain plain_bytes fold_lengths
validate_plain-ok t p c r {n} {width} {k} matched typed single ranges exact counted element size =
    let fits : k < u64_mod = let parts = checked_mul-some n width size in omega (arith, parts) in
    let folded : fold_lengths 0 (r ∷ []) ≡ some k = ground (arith, exact, fits) in
    let joined : ranges_of p.components ≡ r ∷ [] = rw (single, ranges) refl in
    let summed : fold_lengths 0 (ranges_of p.components) ≡ some k =
      ap (fold_lengths 0) joined ∙ folded in
    let same_type : scalar_beq p.logical_type.element_type t ≡ true =
      (scalar_beq_iff _ _).1 typed in
    let sized_bytes : plain_bytes t p.logical_type.shape ≡ some k =
      rw (counted, element, size) refl in
    let equal = (==_iff k k).1 refl in
    let one : (length p.components == 1) ≡ true = rw single refl in
    rw (matched, same_type, sized_bytes, summed, one, equal) refl

plain-Accepted :
    (t : GgufType) (e : RawTensorEntry) (s : ScalarType) {width : ℕ}
    → physical_encoding t ≡ ok (plain_of s, s)
    → resolve builtin_registry (plain_of s) ≡ some (plain_definition s)
    → block_size t ≡ none
    → type_size t ≡ some width
    → size_bytes s ≡ some width
    → Stored t e
    → Accepted t e
unfolding numel
plain-Accepted t e s made found blocks width element stored =
    let (n, counted, size) = nbytes_for_shape-elements t e.shape blocks width stored.exact in
    (
      (plain_of s, s),
      plain_definition s,
      made,
      found,
      validate_plain-ok s (parameter_of_entry e (plain_of s, s)) _ stored.range
          ((scalar_beq_iff s s).1 refl) refl refl stored.one_range refl counted element size,
    )

q4_0-Accepted : (e : RawTensorEntry) → Stored q4_0 e → Accepted q4_0 e
unfolding validate_q4_0 block_size type_size storage_element_type
q4_0-Accepted e stored =
    let (n, counted, whole, size) =
      nbytes_for_shape-parts q4_0 e.shape {block = 32} {bytes = 18} refl refl stored.exact in
    let (b, made, found, matched, valid) = q4_0_type-Known in
    let p = parameter_of_entry e (block_quantized b, ScalarType.f16) in
    let checked =
      validate_blocks-ok "gguf.q4_0" 32 18 p _ stored.range refl refl stored.typed stored.one_range
        refl counted whole size in
    ((block_quantized b, ScalarType.f16), q4_0_definition, made, found, rw (matched, valid) checked)

-- Of a tensor whose entry has one range of the exact bytes of its type and its shape, where the type is f32, f16,
-- bf16 or a block type: the convention makes an encoding of the type, the registry of `register_all` has a
-- definition for it, and the definition accepts the parameter that is made of the entry.
pub physical_encoding-Accepted :
    (t : GgufType) (e : RawTensorEntry) → is_registered t ≡ true → Stored t e → Accepted t e
unfolding physical_encoding resolve builtin_definitions scalar_index block_size type_size size_bytes
physical_encoding-Accepted f32 e h stored =
    plain-Accepted f32 e ScalarType.f32 refl refl refl refl refl stored
physical_encoding-Accepted f16 e h stored =
    plain-Accepted f16 e ScalarType.f16 refl refl refl refl refl stored
physical_encoding-Accepted bf16 e h stored =
    plain-Accepted bf16 e ScalarType.bf16 refl refl refl refl refl stored
physical_encoding-Accepted q4_0 e h stored = q4_0-Accepted e stored
physical_encoding-Accepted t e h stored = schema-Accepted t e h stored
