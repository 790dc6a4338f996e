-- ===== src/Gguf/Tests.antt =====
-- The theorems on the GGUF types at concrete inputs.
use dyninfer.Prelude.{◌≡◌, ◌↔◌, refl, [], ◌∷◌, ok, err, ltb, u64_mod, if◌then◌else◌, arith}
use dyninfer.Core.Shape.Numel.{product}
use dyninfer.Checkpoint.Errors.{numel_overflow}
use dyninfer.Gguf.Types.{GgufType, block_size, type_size, code, from_u32, nbytes_for_shape}
use dyninfer.Core.Scalar.{opaque, little}
use dyninfer.Checkpoint.Catalog.{RawTensorEntry}
use dyninfer.Prelude.{some}
use dyninfer.Prelude.Json.{number, string}
use dyninfer.Prelude.Assoc.{get}
use dyninfer.Gguf.Types.{storage_element_type}
use dyninfer.Gguf.Convention.{normalized_metadata}
use dyninfer.Gguf.Convention.Validated.{Stored, Accepted, physical_encoding-Accepted}
use dyninfer.Gguf.Types.Codes.{from_u32_iff}
use dyninfer.Gguf.Types.Sizes.{by_blocks, nbytes_for_shape_exact}

sized_q4_0 : nbytes_for_shape GgufType.q4_0 (64 ∷ 2 ∷ []) ≡ ok 72
unfolding nbytes_for_shape block_size type_size
sized_q4_0 = refl

nbytes_for_shape_exact_example : nbytes_for_shape GgufType.q4_0 (33 ∷ []) ≡ (
    if ltb (product (33 ∷ [])) u64_mod
    then by_blocks GgufType.q4_0 (product (33 ∷ []))
    else err numel_overflow)
nbytes_for_shape_exact_example = nbytes_for_shape_exact GgufType.q4_0 (33 ∷ []) (omega arith, tt)

from_u32_iff_example : (from_u32 39 ≡ ok GgufType.mxfp4) ↔ (code GgufType.mxfp4 ≡ 39)
from_u32_iff_example = from_u32_iff 39 GgufType.mxfp4

abbrev entry : RawTensorEntry
entry = record {
  key = "w";
  source_file_index = 0;
  shape = 2 ∷ 256 ∷ [];
  storage_type = opaque "gguf.q6_k";
  byte_ranges = record { offset = 64; length = 420 } ∷ [];
  alignment = 32;
  endianness = little;
  metadata = [];
}

sized_q6_k : nbytes_for_shape GgufType.q6_k (2 ∷ 256 ∷ []) ≡ ok 420
unfolding nbytes_for_shape block_size type_size
sized_q6_k = refl

entry-Stored : Stored GgufType.q6_k entry
unfolding storage_element_type
entry-Stored = record {
  range = record { offset = 64; length = 420 };
  one_range = refl;
  typed = refl;
  exact = sized_q6_k;
}

physical_encoding-Accepted_example : Accepted GgufType.q6_k entry
physical_encoding-Accepted_example =
    physical_encoding-Accepted GgufType.q6_k entry refl entry-Stored

-- the name of the architecture is copied, and so are its entries
normalized :
    get
      (normalized_metadata
        (("general.architecture", string "llama") ∷ ("llama.block_count", number "2") ∷ []))
      "num_layers"
    ≡ some (number "2")
unfolding normalized_metadata
normalized = refl
