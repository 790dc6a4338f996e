-- ===== src/Runtime/Context.antt =====
-- `Context` of crates/iree-runtime/src/lib.rs: what the session calls of the IREE runtime, which is
-- a C library. Each call may change the native state, also where it fails. An `i64` that the session
-- passes is never negative.
use dyninfer.Prelude.{ℕ, String, Bool, Option, List, Result}
use dyninfer.Prelude.Int.{ℤ}

-- one constructor for each message, and `panicked` for a panic
pub data RuntimeError : Type 0 where
  unsupported_batch : ℕ → RuntimeError
  empty_prompt : RuntimeError
  window_exceeded : ℕ → ℕ → RuntimeError
  limit_exceeded : ℕ → ℕ → RuntimeError
  position_exceeded : ℕ → ℕ → RuntimeError
  logits_mismatch : ℕ → ℕ → RuntimeError
  invalid_token : ℤ → RuntimeError
  native_error : ℤ → RuntimeError
  panicked : String → RuntimeError

pub record Context (S F : Type 0) : Type 0 where
  pub reset_paged_kv : S → S × Result RuntimeError (Unit {0})
  pub ensure_kv_pages : ℕ → S → S × Result RuntimeError (Unit {0})
  -- the window, the index of its last real token, the start position, and `want_logits`
  pub invoke_paged_chunk_ex :
      List ℕ → ℕ → ℕ → Bool → S → S × Result RuntimeError (Option (List F) × ℤ)
  pub invoke_prefill : List ℕ → ℕ → S → S × Result RuntimeError (List F)
  pub invoke_decode : ℕ → ℕ → List F → S → S × Result RuntimeError (List F)
