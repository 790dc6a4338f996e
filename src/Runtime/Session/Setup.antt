-- ===== src/Runtime/Session/Setup.antt =====
-- The parts of a session that no operation of crates/dyninfer-runtime/src/session.rs changes.
use dyninfer.Prelude.{ℕ, ◌≡◌, ap, Option, none, some, min, max}
use dyninfer.Core.KvCache.{KvCacheDescriptor, static_globals, paged}
use dyninfer.Runtime.Session.{IreeSession, ModelMetadata, SessionConfig, max_seq, paged_geometry}

-- what no operation changes
abbrev pub Setup : Type 0
Setup = ModelMetadata × SessionConfig × KvCacheDescriptor × ℕ × ℕ

abbrev limit_of : Setup → ℕ
limit_of (m, c, kv, w, p) = min (max c.max_sequence_length 1) (max kv.max_sequence_length 1)

abbrev geometry_of : Setup → Option (ℕ × ℕ)
geometry_of (m, c, kv, w, p) = elim kv.storage [
  | static_globals ↦ none
  | paged page size ↦ some (page, size)
]

module _ {S F : Type 0} where
  abbrev pub setup : IreeSession S F → Setup
  setup s = (s.metadata, s.config, s.kv, s.prefill_window, s.pad_token_id)

  pub max_seq-setup : (s t : IreeSession S F) → setup s ≡ setup t → max_seq s ≡ max_seq t
  unfolding max_seq
  max_seq-setup s t e = ap limit_of e

  pub geometry-setup :
      (s t : IreeSession S F) → setup s ≡ setup t → paged_geometry s ≡ paged_geometry t
  unfolding paged_geometry
  geometry-setup s t e = ap geometry_of e

  -- the session as `start` was, but for the context and the bias
  abbrev pub Unchanged : IreeSession S F → IreeSession S F → Type 0
  Unchanged start s =
      (setup s ≡ setup start) × (s.position ≡ start.position) × (s.history ≡ start.history)
