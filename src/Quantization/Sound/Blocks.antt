-- ===== src/Quantization/Sound/Blocks.antt =====
-- The definitions of block encodings accept only whole blocks of the exact size in one component.
use dyninfer.Prelude.{
  ℕ, ◌≡◌, refl, sym, ap, ◌∙◌, ◌*◌, ◌/◌, ◌%◌, ◌^◌, ◌<◌, String, true, ◌&&◌, ◌==◌, ==_iff, Option,
  none, some, List, [], ◌∷◌, Ensures, then-Ensures, ok-Ensures, imp-Ensures, ok_or-Ensures,
  guard-Ensures, checked_mul, checked_mul-some, &&_parts, arith, str_eq, str_eq_iff, codes_eq,
  codes_eq_iff,
}
use native.Mathlib.Nat.{div-add-mod'}
use dyninfer.Core.Scalar.{StorageElementType, opaque}
use dyninfer.Core.Shape.{numel}
use dyninfer.Core.Types.{
  PhysicalEncoding, plain, group_quantized, block_quantized, sparse, BlockQuantized,
  BlockLayoutField, StorageComponent,
}
use dyninfer.Checkpoint.Catalog.{LogicalParameter}
use dyninfer.Kernel.{KernelCandidateDescriptor}
use dyninfer.Quantization.{
  physical_encoding_key, fold_lengths, ranges_of, is_opaque, is_data_component,
}
use dyninfer.Quantization.GgufBlock.{
  GgufBlockDefinition, block_codec, block_key, matches_block, valid_descriptor, validate_blocks,
  validate_block_of, validate_block, block_definition, layout_end, ends_at, matches_q4_0,
  q4_0_descriptor, q4_0_layout, validate_q4_0_of, validate_q4_0,
}
use dyninfer.Quantization.Registry.{q4_0_definition}
use dyninfer.Quantization.Stored.{total, Tiles, BlockStored, StoredAs}
use dyninfer.Quantization.Stored.Sums.{fold_lengths-total, ranges_of-single, layout_end-Tiles}
use dyninfer.Quantization.Sound.{Sound}

-- what the checks of the stored bytes establish
record Interleaved (codec : String) (block_size bytes_per_block : ℕ) (p : LogicalParameter)
    : Type 0 where
  component : StorageComponent
  blocks : ℕ
  single : p.components ≡ component ∷ []
  named : component.name ≡ "data"
  interleaved : component.storage_type ≡ opaque codec
  counted : numel p.logical_type.shape ≡ some (blocks * block_size)
  exact : total component.byte_ranges ≡ blocks * bytes_per_block

div_exact : (n d : ℕ) → n % d ≡ 0 → n ≡ n / d * d
div_exact n d h = let parts = div-add-mod' n d in omega (arith, parts, h)

is_opaque-eq :
    (t : StorageElementType) (codec : String) → is_opaque t codec ≡ true → t ≡ opaque codec
is_opaque-eq (opaque c) codec h = ap opaque ((str_eq_iff c codec).0 h)
is_opaque-eq _ codec h = absurd (cc)

module _ (codec : String) (block_size bytes_per_block : ℕ) (p : LogicalParameter) where
  blocks-Interleaved :
      (cs : List StorageComponent) (n expected actual : ℕ)
      → p.components ≡ cs
      → numel p.logical_type.shape ≡ some n
      → (n % block_size == 0) ≡ true
      → checked_mul (n / block_size) bytes_per_block ≡ some expected
      → fold_lengths 0 (ranges_of cs) ≡ some actual
      → (is_data_component cs codec && actual == expected) ≡ true
      → Interleaved codec block_size bytes_per_block p
  blocks-Interleaved (c ∷ []) n expected actual same counted whole sized summed exact =
      let (stored, equal) = &&_parts _ _ exact in
      let (named, coded) = &&_parts _ _ stored in
      let sum =
        fold_lengths-total 0 c.byte_ranges
          (ap (fold_lengths 0) (sym (ranges_of-single c)) ∙ summed) in
      let product = checked_mul-some (n / block_size) bytes_per_block sized in
      record {
        component = c;
        blocks = n / block_size;
        single = same;
        named = (str_eq_iff _ _).0 named;
        interleaved = is_opaque-eq c.storage_type codec coded;
        counted = counted ∙ ap some (div_exact n block_size ((==_iff _ 0).0 whole));
        exact = ground (arith, sum, product.0, equal);
      }
  blocks-Interleaved [] n expected actual same counted whole sized summed exact =
      absurd (ground arith)
  blocks-Interleaved (c ∷ d ∷ cs) n expected actual same counted whole sized summed exact =
      absurd (ground arith)

  validate_blocks-Interleaved :
      Ensures
        (validate_blocks codec block_size bytes_per_block p)
        (λ u. Interleaved codec block_size bytes_per_block p)
  unfolding validate_blocks
  validate_blocks-Interleaved =
      then-Ensures (ok_or-Ensures (numel p.logical_type.shape) _) (λ n counted.
        then-Ensures (guard-Ensures (n % block_size == 0) _) (λ u whole.
          then-Ensures (ok_or-Ensures (checked_mul (n / block_size) bytes_per_block) _)
            (λ expected sized.
              then-Ensures (ok_or-Ensures (fold_lengths 0 (ranges_of p.components)) _)
                (λ actual summed.
                  then-Ensures
                    (guard-Ensures (is_data_component p.components codec && actual == expected) _)
                    (λ v exact. ok-Ensures (
                      blocks-Interleaved p.components n expected actual refl counted whole sized
                        summed exact))))))

-- with a descriptor that names the codec and the block, the parameter is stored as it says
Interleaved-Stored :
    (codec : String) (block_size bytes_per_block : ℕ) (p : LogicalParameter) (b : BlockQuantized)
    → b.codec ≡ codec
    → b.block_shape ≡ block_size ∷ []
    → b.bytes_per_block ≡ bytes_per_block
    → Tiles 0 b.layout bytes_per_block
    → Interleaved codec block_size bytes_per_block p
    → BlockStored b p
Interleaved-Stored codec block_size bytes_per_block p b coded shaped sized tiles i = record {
  component = i.component;
  block_size = block_size;
  blocks = i.blocks;
  single = i.single;
  named = i.named;
  interleaved = i.interleaved ∙ ap opaque (sym coded);
  one_axis = shaped;
  counted = i.counted;
  exact = i.exact ∙ ap (λ n. i.blocks * n) (sym sized);
  layout_tiles = rw sized tiles;
}

ends_at-some : (o : Option ℕ) (n : ℕ) → ends_at o n ≡ true → o ≡ some n
ends_at-some none n h = absurd (cc)
ends_at-some (some m) n h = ap some ((==_iff m n).0 h)

module _ (d : GgufBlockDefinition) (small : d.block_size < 2 ^ 32)
    (short : d.bytes_per_block < 2 ^ 32) where
  valid-Stored :
      (p : LogicalParameter) (b : BlockQuantized)
      → valid_descriptor d b ≡ true
      → Interleaved (block_codec d) d.block_size d.bytes_per_block p
      → BlockStored b p
  unfolding valid_descriptor
  valid-Stored p b h i =
      let coded : str_eq b.codec (block_codec d) ≡ true = ground arith in
      let shaped : codes_eq b.block_shape (d.block_size % 2 ^ 32 ∷ []) ≡ true = ground arith in
      let sized : (b.bytes_per_block == d.bytes_per_block % 2 ^ 32) ≡ true = ground arith in
      let tiled : ends_at (layout_end 0 b.layout) (d.bytes_per_block % 2 ^ 32) ≡ true =
        ground arith in
      let same_size : d.block_size % 2 ^ 32 ≡ d.block_size = omega (arith, small) in
      let same_bytes : d.bytes_per_block % 2 ^ 32 ≡ d.bytes_per_block = omega (arith, short) in
      Interleaved-Stored (block_codec d) d.block_size d.bytes_per_block p b
        ((str_eq_iff _ _).0 coded) ((codes_eq_iff _ _).0 shaped ∙ ap (λ n. n ∷ []) same_size)
        ((==_iff _ _).0 sized ∙ same_bytes)
        (layout_end-Tiles 0 b.layout (ends_at-some _ _ tiled ∙ ap some same_bytes)) i

  validate_block_of-Stored :
      (p : LogicalParameter) (e : PhysicalEncoding)
      → Ensures (validate_block_of d p e) (λ u. StoredAs e p)
  validate_block_of-Stored p (block_quantized b) =
      then-Ensures (guard-Ensures (valid_descriptor d b) _) (λ u valid.
        imp-Ensures (validate_blocks-Interleaved (block_codec d) d.block_size d.bytes_per_block p)
          (λ v i. valid-Stored p b valid i))
  validate_block_of-Stored p _ = record { run = λ u h. absurd (cc) }

  matches_block-key :
      (e : PhysicalEncoding) → matches_block d e ≡ true → physical_encoding_key e ≡ block_key d
  unfolding physical_encoding_key
  matches_block-key (block_quantized b) h =
      let coded : str_eq b.codec (block_codec d) ≡ true = ground arith in
      let same = (str_eq_iff b.codec (block_codec d)).0 coded in
      let first : b.codec_version ≡ 1 = ground arith in cc
  matches_block-key _ h = absurd (cc)

  pub block_definition-Sound : (cs : List KernelCandidateDescriptor) → Sound (block_definition d cs)
  unfolding block_definition validate_block
  block_definition-Sound cs = record {
    key_agrees = matches_block-key;
    accepts = λ p. validate_block_of-Stored p p.encoding;
  }

-- the layout that Q4_0 asks for
q4_0_layout-Tiles : (fields : List BlockLayoutField) → q4_0_layout fields ≡ true → Tiles 0 fields 18
unfolding Tiles
q4_0_layout-Tiles (scale ∷ quants ∷ []) h = (ground arith, (ground arith, ground arith))
q4_0_layout-Tiles [] h = absurd (cc)
q4_0_layout-Tiles (scale ∷ []) h = absurd (cc)
q4_0_layout-Tiles (scale ∷ quants ∷ extra ∷ fields) h = absurd (cc)

q4_0-Stored :
    (p : LogicalParameter) (b : BlockQuantized)
    → matches_q4_0 (block_quantized b) ≡ true
    → q4_0_descriptor b ≡ true
    → Interleaved "gguf.q4_0" 32 18 p
    → BlockStored b p
unfolding q4_0_descriptor
q4_0-Stored p b matched h i =
    let coded : str_eq b.codec "gguf.q4_0" ≡ true = ground arith in
    let shaped : codes_eq b.block_shape (32 ∷ []) ≡ true = ground arith in
    let sized : (b.bytes_per_block == 18) ≡ true = ground arith in
    let tiled : q4_0_layout b.layout ≡ true = ground arith in
    Interleaved-Stored "gguf.q4_0" 32 18 p b ((str_eq_iff _ _).0 coded)
      ((codes_eq_iff _ _).0 shaped) ((==_iff _ _).0 sized) (q4_0_layout-Tiles b.layout tiled) i

validate_q4_0_of-Stored :
    (p : LogicalParameter) (e : PhysicalEncoding)
    → Ensures (validate_q4_0_of p e) (λ u. StoredAs e p)
validate_q4_0_of-Stored p (block_quantized b) =
    then-Ensures (guard-Ensures (matches_q4_0 (block_quantized b)) _) (λ u matched.
      then-Ensures (guard-Ensures (q4_0_descriptor b) _) (λ v valid.
        imp-Ensures (validate_blocks-Interleaved "gguf.q4_0" 32 18 p)
          (λ w i. q4_0-Stored p b matched valid i)))
validate_q4_0_of-Stored p (plain t order) = record { run = λ u h. absurd (cc) }
validate_q4_0_of-Stored p (group_quantized g) = record { run = λ u h. absurd (cc) }
validate_q4_0_of-Stored p (sparse t format shape) = record { run = λ u h. absurd (cc) }
validate_q4_0_of-Stored p (PhysicalEncoding.opaque codec version parameters) = record {
  run = λ u h. absurd (cc);
}

matches_q4_0-key :
    (e : PhysicalEncoding)
    → matches_q4_0 e ≡ true
    → physical_encoding_key e ≡ q4_0_definition.descriptor.key
unfolding physical_encoding_key
matches_q4_0-key (block_quantized b) h =
    let coded : str_eq b.codec "gguf.q4_0" ≡ true = ground arith in
    let same = (str_eq_iff b.codec "gguf.q4_0").0 coded in
    let first : b.codec_version ≡ 1 = ground arith in cc
matches_q4_0-key _ h = absurd (cc)

pub q4_0_definition-Sound : Sound q4_0_definition
unfolding validate_q4_0
q4_0_definition-Sound = record {
  key_agrees = matches_q4_0-key;
  accepts = λ p. validate_q4_0_of-Stored p p.encoding;
}
