-- ===== src/Ksuid/Types.antt =====
-- chronoid/ksuid.h: the type, its constants and the error codes.
use libchronoid.Prelude.{ℕ, List, replicate, IsArray}

-- `chronoid_ksuid_t`.
pub record Ksuid : Type 0 where
  pub b : List ℕ

abbrev pub IsKsuid : Ksuid → Type 0
IsKsuid id = IsArray 20 id.b

-- `chronoid_ksuid_err_t`.
pub data KsuidErr : Type 0 where
  ok err_size err_str_size err_str_value err_payload_size err_rng err_exhausted err_time_range :
      KsuidErr

abbrev pub ksuid_epoch_seconds : ℕ
ksuid_epoch_seconds = 1400000000

abbrev pub ksuid_nil : Ksuid
ksuid_nil = record { b = replicate 20 0 }

abbrev pub ksuid_max : Ksuid
ksuid_max = record { b = replicate 20 0xff }
