-- ===== src/Ksuid/Sequence.antt =====
-- chronoid/ksuid/sequence.c: 65536 ordered identifiers from one seed.
pub mod Bounds
pub mod Order
use libchronoid.Prelude.{ℕ, ◌+◌, ◌-◌, ltb, if◌then◌else◌, set, u8, u16, u32, ◌>>◌}
use libchronoid.Ksuid.Types.{Ksuid, KsuidErr, ok, err_exhausted}

-- `chronoid_ksuid_sequence_t`; `count` is a `uint32_t`.
pub record Sequence : Type 0 where
  pub seed : Ksuid
  pub count : ℕ

abbrev pub uint16_max : ℕ
uint16_max = 65535

unfoldable pub apply_count : Ksuid → ℕ → Ksuid
apply_count id n = let b = set id.b 18 (u8 (n >> 8)) in record { b = set b 19 (u8 n) }

unfoldable pub ksuid_sequence_init : Ksuid → Sequence
ksuid_sequence_init seed = record { seed = seed; count = 0 }

unfoldable pub ksuid_sequence_next : Sequence → Ksuid → KsuidErr × Sequence × Ksuid
ksuid_sequence_next s out =
    if ltb uint16_max s.count
    then (err_exhausted, s, out)
    else (ok, record s { count = u32 (s.count + 1) }, apply_count s.seed (u16 s.count))

-- The least and the greatest identifier still to come.
unfoldable pub ksuid_sequence_bounds : Sequence → Ksuid × Ksuid
ksuid_sequence_bounds s =
    let lo = if ltb uint16_max s.count then uint16_max else s.count in
    (apply_count s.seed (u16 lo), apply_count s.seed uint16_max)
