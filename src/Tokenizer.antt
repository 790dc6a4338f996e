-- ===== src/Tokenizer.antt =====
-- crates/dyninfer-runtime/src/tokenizer_bpe.rs. A text is the list of its code points.
pub mod Bpe
pub mod Bytes
pub mod Decode
pub mod Encode
pub mod Merge
mod Picks
pub mod RoundTrip
mod Special
pub mod Table
pub mod Segments
mod Tests
