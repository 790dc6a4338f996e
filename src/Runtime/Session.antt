-- ===== src/Runtime/Session.antt =====
-- `IreeSession` of crates/dyninfer-runtime/src/session.rs: the state of a session, and the actions on
-- it, each of which may fail and leaves the state it got to.
pub mod Actions
pub mod Frames
pub mod Setup
pub mod PrefillOutcome
pub mod DecodeOutcome
pub mod Invariant
pub mod Cells
pub mod Fed
pub mod Prompted
pub mod Refinement
pub mod Stepped
pub mod Windows
pub mod Recorder
pub mod Recorded
pub mod Prefill
pub mod Decode
-- mod Windows

-- mod Invariant
use dyninfer.Prelude.{
  ℕ, String, ◌-◌, ◌+◌, ◌%◌, ◌^◌, Option, none, some, List, [], ◌∷◌, ◌++◌, min, max, length, take,
  replicate, is_empty, if◌then◌else◌, str_eq,
}
use dyninfer.Prelude.Assoc.{get}
use dyninfer.Prelude.Json.{Json}
use dyninfer.Core.KvCache.{KvCacheDescriptor, static_globals, paged}

pub record ModelMetadata : Type 0 where
  pub architecture_id : String
  pub architecture_revision : String
  pub vocabulary_size : ℕ
  pub context_length : ℕ
  pub num_layers : ℕ
  pub num_heads : ℕ
  pub num_kv_heads : ℕ
  pub head_dim : ℕ
  pub hidden_size : ℕ
  pub extra : List (String × Json)

pub record SessionConfig : Type 0 where
  pub max_sequence_length : ℕ
  pub batch_size : ℕ
  pub seed : Option ℕ

-- `S` is the native state behind `context`, `F` the type `f32`.
pub record IreeSession (S F : Type 0) : Type 0 where
  pub metadata : ModelMetadata
  pub config : SessionConfig
  pub kv : KvCacheDescriptor
  pub prefill_window : ℕ
  pub pad_token_id : ℕ
  pub position : ℕ
  pub history : List ℕ
  pub context : S
  pub attn_bias : List F

-- `as_u64` is serde_json's.
unfoldable pub pad_token : (Json → Option ℕ) → List (String × Json) → ℕ
unfolding get
pad_token as_u64 extra =
    let found : Option Json = elim (get extra "pad_token_id") [
      | none ↦ get extra "bos_token_id"
      | some v ↦ some v
    ] in
    let number : Option ℕ = elim found [ none ↦ none | some v ↦ as_u64 v ] in
    elim number [ none ↦ 0 | some n ↦ n % 2 ^ 32 ]

unfoldable pub new :
    {S F : Type 0}
    → (Json → Option ℕ)
    → ModelMetadata
    → SessionConfig
    → KvCacheDescriptor
    → ℕ
    → S
    → IreeSession S F
unfolding pad_token
new as_u64 metadata config kv prefill_window context = record {
  metadata = metadata;
  config = config;
  kv = kv;
  prefill_window = max prefill_window 1;
  pad_token_id = pad_token as_u64 metadata.extra;
  position = 0;
  history = [];
  context = context;
  attn_bias = [];
}

-- The first `w` tokens, and the pad token up to the length `w`; the index of the last real token.
unfoldable pub window_of : ℕ → ℕ → List ℕ → List ℕ × ℕ
window_of w pad tokens =
    let n = min (length tokens) w in (take n tokens ++ replicate (w - n) pad, n - 1)

module _ {S F : Type 0} where
  unfoldable pub max_seq : IreeSession S F → ℕ
  max_seq s = min (max s.config.max_sequence_length 1) (max s.kv.max_sequence_length 1)

  unfoldable pub window_from_tokens : IreeSession S F → List ℕ → List ℕ × ℕ
  unfolding window_of
  window_from_tokens s tokens = window_of s.prefill_window s.pad_token_id tokens

  -- the page size and the chunk size
  unfoldable pub paged_geometry : IreeSession S F → Option (ℕ × ℕ)
  paged_geometry s = elim s.kv.storage [
    | static_globals ↦ none
    | paged page chunk ↦ some (page, chunk)
  ]
