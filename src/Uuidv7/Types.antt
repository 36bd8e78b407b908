-- ===== src/Uuidv7/Types.antt =====
-- chronoid/uuidv7.h: the type, its constants and the error codes.
use libchronoid.Prelude.{ℕ, ◌-◌, ◌^◌, List, IsArray}

-- `chronoid_uuidv7_t`.
pub record Uuidv7 : Type 0 where
  pub b : List ℕ

abbrev pub IsUuidv7 : Uuidv7 → Type 0
IsUuidv7 id = IsArray 16 id.b

-- `chronoid_uuidv7_err_t`.
pub data Uuidv7Err : Type 0 where
  ok err_size err_str_size err_str_value err_rng err_time_range : Uuidv7Err

-- UUIDV7_MAX_UNIX_MS.
abbrev pub max_unix_ms : ℕ
max_unix_ms = 2 ^ 48 - 1
