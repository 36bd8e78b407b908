-- ===== src/Ksuid/Id.antt =====
-- chronoid/ksuid/ksuid.c: construction, accessors, comparison and text, and the generators.
-- `none` is a run that C leaves undefined. A function that writes `*out` takes what it held.
pub mod Parts
pub mod Text
pub mod Ordered
pub mod Generate
use libchronoid.Prelude.{
  ℕ, zero, suc, ◌+◌, ◌-◌, ◌^◌, List, [], ◌∷◌, Bool, true, false, Option, none, some, not, ◌||◌,
  ◌==◌, ◌>>=◌, if◌then◌else◌, take, drop, replicate, Ordering,
}
use libchronoid.Prelude.Int.{ℤ, pos, negsuc, ltb_ℤ, ◌+ℤ◌, sub_i64, to_u32}
use libchronoid.Memory.{memcpy, memcmp}
use libchronoid.ByteOrder.{be32_load, be32_store}
use libchronoid.Platform.{Platform}
use libchronoid.Arch.{Arch}
use libchronoid.Ksuid.Types.{
  Ksuid, KsuidErr, ok, err_size, err_str_size, err_payload_size, err_rng, err_time_range,
  ksuid_epoch_seconds,
}
use libchronoid.Ksuid.Base62.{base62_encode, base62_decode}
use libchronoid.Ksuid.Compare.{compare20}

-- `r == 0` for the result of `memcmp`.
abbrev is_eq : Ordering → Bool
is_eq Ordering.eq = true
is_eq _ = false

unfoldable pub ksuid_is_nil : Ksuid → Bool
ksuid_is_nil id = is_eq (memcmp id.b (replicate 20 0) 20)

unfoldable pub ksuid_compare : Arch → Ksuid → Ksuid → ℤ
ksuid_compare arch a b = compare20 arch a.b b.b

unfoldable pub ksuid_from_bytes : Ksuid → List ℕ → ℕ → KsuidErr × Ksuid
ksuid_from_bytes out b n =
    if not (n == 20) then (err_size, out) else (ok, record { b = memcpy out.b 0 b 20 })

-- The timestamp and the payload, written into `out`.
abbrev write_parts : Ksuid → ℤ → List ℕ → Ksuid
write_parts out corrected payload =
    let b = be32_store out.b (to_u32 corrected) in record { b = memcpy b 4 payload 16 }

-- `corrected < 0 || corrected > (int64_t) UINT32_MAX`.
abbrev out_of_range : ℤ → Bool
out_of_range corrected = ltb_ℤ corrected (pos 0) || ltb_ℤ (pos (2 ^ 32 - 1)) corrected

unfoldable pub ksuid_from_parts : Ksuid → ℤ → List ℕ → ℕ → Option (KsuidErr × Ksuid)
ksuid_from_parts out unix_seconds payload payload_len =
    if not (payload_len == 16) then some (err_payload_size, out) else do
      corrected ← sub_i64 unix_seconds (pos ksuid_epoch_seconds)
      if out_of_range corrected
          then some (err_time_range, out)
          else some (ok, write_parts out corrected payload)

unfoldable pub ksuid_timestamp : Ksuid → ℕ
ksuid_timestamp id = be32_load id.b

unfoldable pub ksuid_time_unix : Ksuid → ℤ
ksuid_time_unix id = pos (ksuid_timestamp id) +ℤ pos ksuid_epoch_seconds

-- The bytes behind the pointer that the function returns.
unfoldable pub ksuid_payload : Ksuid → List ℕ
ksuid_payload id = drop 4 id.b

-- `if (e != CHRONOID_KSUID_OK) return e; *out = tmp; return CHRONOID_KSUID_OK;`.
abbrev pub commit : KsuidErr → List ℕ → Ksuid → KsuidErr × Ksuid
commit ok b out = (ok, record { b = b })
commit e b out = (e, out)

-- `tmp` is what the stack temporary held.
unfoldable pub ksuid_parse : Arch → Ksuid → Ksuid → List ℕ → ℕ → KsuidErr × Ksuid
ksuid_parse arch tmp out s len =
    if not (len == 27)
    then (err_str_size, out)
    else let (e, b) = base62_decode arch tmp.b s in commit e b out

unfoldable pub ksuid_format : Ksuid → List ℕ → Option (List ℕ)
ksuid_format id out = base62_encode out id.b

module _ {W : Type 0} (platform : Platform W) where
  -- `buf` is what the stack buffer for the payload held.
  unfoldable pub ksuid_new_with_time : List ℕ → Ksuid → ℤ → W → Option (KsuidErr × Ksuid × W)
  ksuid_new_with_time buf out unix_seconds w = do
    corrected ← sub_i64 unix_seconds (pos ksuid_epoch_seconds)
    if out_of_range corrected
        then some (err_time_range, out, w)
        else let (rc, payload, w') = platform.fill_random buf 16 w in
          elim rc [
            | pos zero ↦ some (ok, write_parts out corrected payload, w')
            | _ ↦ some (err_rng, out, w')
          ]

  unfoldable pub ksuid_new : List ℕ → Ksuid → W → Option (KsuidErr × Ksuid × W)
  ksuid_new buf out w =
      let (ts, w') = platform.timespec_get w in
      elim ts [
        | none ↦ some (err_time_range, out, w')
        | some ts ↦ ksuid_new_with_time buf out ts.tv_sec w'
      ]
