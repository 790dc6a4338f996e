-- ===== src/Quantization/Sound.antt =====
-- The definitions of encodings accept only parameters that are stored as their encoding says.
pub mod Plain
pub mod Blocks
pub mod Groups
use dyninfer.Prelude.{◌≡◌, true, Ensures}
use dyninfer.Core.Types.{PhysicalEncoding}
use dyninfer.Checkpoint.Catalog.{LogicalParameter}
use dyninfer.Quantization.{QuantizationDefinition, physical_encoding_key}
use dyninfer.Quantization.Stored.{StoredAs}

-- A definition is found only for encodings with its key, and accepts only what is stored as the
-- encoding says.
pub record Sound (d : QuantizationDefinition) : Type 0 where
  pub key_agrees :
      (e : PhysicalEncoding) → d.matches e ≡ true → physical_encoding_key e ≡ d.descriptor.key
  pub accepts : (p : LogicalParameter) → Ensures (d.validate p) (λ u. StoredAs p.encoding p)
