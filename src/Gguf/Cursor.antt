-- ===== src/Gguf/Cursor.antt =====
-- `Cursor` of crates/dyninfer-checkpoint-gguf/src/container.rs: a position in a source of bytes. Its steps
-- are functions of the position with a failure. The readings of floats are serde_json's and byteorder's.
use Prim.Native.String.{◌++◌ as ◌<>◌}
use dyninfer.Prelude.{
  ℕ, zero, suc, ◌*◌, ◌-◌, ◌^◌, String, Bool, not, List, [], ◌∷◌, err, ok_or, leb, ltb, ◌==◌,
  checked_add, from_le_bytes, if◌then◌else◌, first,
}
use dyninfer.Prelude.Effects.{Effect, ◌>>=◌, ◌>>◌, pure, get_state, modify, lift, check}
use dyninfer.Prelude.Json.{Json, boolean, number, string, array, Items, nil, cons}
use dyninfer.Prelude.Decimal.{decimal}
use dyninfer.Prelude.Options.{some_or}
use dyninfer.Prelude.Utf8.{from_utf8}
use dyninfer.Checkpoint.Errors.{
  CheckpointError, cursor_overflow, string_too_long, string_not_utf8, array_too_long,
  unsupported_value_type, nested_too_deep,
}
use dyninfer.Checkpoint.Limits.{InspectionLimits, BytesSource, read_range}

abbrev pub Read : Type 0 → Type 0
Read A = Effect ℕ CheckpointError A

abbrev pub as_items : List Json → Items
as_items [] = nil
as_items (v ∷ vs) = cons v (as_items vs)

-- the number of `bits` bits as a signed one
abbrev pub signed_number : ℕ → ℕ → Json
signed_number bits n =
    if ltb n (2 ^ (bits - 1)) then number (decimal n) else number ("-" <> decimal (2 ^ bits - n))

-- what the bytes of a float are as JSON, with null for one that is not finite
pub record FloatReader : Type 0 where
  pub single : List ℕ → Json
  pub double : List ℕ → Json

module _ (source : BytesSource) where
  unfoldable pub read_exact : ℕ → Read (List ℕ)
  unfolding read_range
  read_exact len = do
    pos ← get_state
    buf ← lift (read_range source pos len)
    next ← lift (ok_or (checked_add pos len) cursor_overflow)
    modify (λ p. next)
    pure buf

  -- an unsigned number of so many bytes
  unfoldable pub read_uint : ℕ → Read ℕ
  unfolding read_exact from_le_bytes
  read_uint len = do b ← read_exact len; pure (from_le_bytes b)

  abbrev pub read_u32 : Read ℕ
  read_u32 = read_uint 4

  abbrev pub read_u64 : Read ℕ
  read_u64 = read_uint 8

  unfoldable pub read_bool : Read Bool
  unfolding read_exact
  read_bool = do b ← read_exact 1; pure (not (some_or (first b) 0 == 0))

  unfoldable pub read_string : InspectionLimits → Read String
  unfolding read_uint read_exact from_utf8
  read_string limits = do
    len ← read_u64
    check (leb len limits.max_key_len) (string_too_long len)
    bytes ← read_exact len
    lift (ok_or (from_utf8 bytes) string_not_utf8)

-- `for _ in 0..count { arr.push(read) }`
unfoldable pub repeat : {A : Type 0} → ℕ → Read A → Read (List A)
repeat zero m = pure []
repeat (suc n) m = do v ← m; vs ← repeat n m; pure (v ∷ vs)

module _ (source : BytesSource) (limits : InspectionLimits) (floats : FloatReader) where
  abbrev pub read_number : ℕ → Read Json
  read_number len = read_uint source len >>= λ n. pure (number (decimal n))

  abbrev pub read_signed : ℕ → Read Json
  read_signed len = read_uint source len >>= λ n. pure (signed_number (8 * len) n)

  -- the arms of the match but that of an array
  abbrev pub read_scalar : ℕ → Read Json
  read_scalar value_type =
      if value_type == 0
      then read_number 1
      else (if value_type == 1
          then read_signed 1
          else (if value_type == 2
              then read_number 2
              else (if value_type == 3
                  then read_signed 2
                  else (if value_type == 4
                      then read_number 4
                      else (if value_type == 5
                          then read_signed 4
                          else (if value_type == 6
                              then (read_exact source 4 >>= λ b. pure (floats.single b))
                              else (if value_type == 7
                                  then (read_bool source >>= λ b. pure (boolean b))
                                  else (if value_type == 8
                                      then (read_string source limits >>= λ s. pure (string s))
                                      else (if value_type == 10
                                          then read_number 8
                                          else (if value_type == 11
                                              then read_signed 8
                                              else (if value_type == 12
                                                  then (read_exact source 8 >>= λ b.
                                                      pure (floats.double b))
                                                  else lift (
                                                      err (
                                                        unsupported_value_type
                                                          value_type)))))))))))))

  -- The depth of nested arrays is bounded by the fuel, whose end is an outcome of its own.
  unfoldable pub read_value : ℕ → ℕ → Read Json
  unfolding read_uint read_exact read_bool read_string repeat
  read_value zero value_type = lift (err nested_too_deep)
  read_value (suc depth) value_type =
      if value_type == 9
      then (read_u32 source >>= λ elem_type. read_u64 source >>= λ count.
          check (leb count limits.max_metadata_entries) (array_too_long count)
          >> (repeat count (read_value depth elem_type) >>= λ arr. pure (array (as_items arr))))
      else read_scalar value_type
