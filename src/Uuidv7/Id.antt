-- ===== src/Uuidv7/Id.antt =====
-- chronoid/uuidv7/uuidv7.c: construction, accessors, comparison and text, and the generators. A
-- function that writes `*out` takes what it held.
pub mod Parts
pub mod Fields
pub mod Generate
pub mod Text
pub mod Ordered
use libchronoid.Prelude.{
  ℕ, zero, suc, ◌+◌, ◌-◌, ◌^◌, List, [], ◌∷◌, ◌++◌, Bool, true, false, not, ◌||◌, ◌==◌,
  if◌then◌else◌, take, drop, replicate, get_or, set, Ordering, u8, u16, ◌<<◌, ◌>>◌, bit_and, bit_or,
}
use libchronoid.Prelude.Int.{ℤ, pos, negsuc, ltb_ℤ, to_u64}
use libchronoid.Memory.{memcpy, memcmp, sign}
use libchronoid.Platform.{Platform}
use libchronoid.Arch.{Arch}
use libchronoid.Uuidv7.Types.{
  Uuidv7, Uuidv7Err, ok, err_size, err_str_size, err_str_value, err_rng, err_time_range,
  max_unix_ms,
}
use libchronoid.Uuidv7.Hex.{hex_encode_lower, hex_decode}

-- `r == 0` for the result of `memcmp`.
abbrev is_eq : Ordering → Bool
is_eq Ordering.eq = true
is_eq _ = false

unfoldable pub uuidv7_is_nil : Uuidv7 → Bool
uuidv7_is_nil id = is_eq (memcmp id.b (replicate 16 0) 16)

-- The sign of the result.
unfoldable pub uuidv7_compare : Uuidv7 → Uuidv7 → ℤ
uuidv7_compare a b = sign (memcmp a.b b.b 16)

unfoldable pub uuidv7_from_bytes : Uuidv7 → List ℕ → ℕ → Uuidv7Err × Uuidv7
uuidv7_from_bytes out b n =
    if not (n == 16) then (err_size, out) else (ok, record { b = memcpy out.b 0 b 16 })

-- `unix_ms < 0 || unix_ms > UUIDV7_MAX_UNIX_MS`.
abbrev pub out_of_range : ℤ → Bool
out_of_range unix_ms = ltb_ℤ unix_ms (pos 0) || ltb_ℤ (pos max_unix_ms) unix_ms

-- The sixteen stores into `tmp` of `chronoid_uuidv7_from_parts`, in their order.
unfoldable pub parts_bytes : ℕ → ℕ → List ℕ → List ℕ
parts_bytes ms rand_a_12bit rand_b =
    let rand_a = bit_and rand_a_12bit 0x0fff in
    u8 (ms >> 40)
    ∷ u8 (ms >> 32)
    ∷ u8 (ms >> 24)
    ∷ u8 (ms >> 16)
    ∷ u8 (ms >> 8)
    ∷ u8 ms
    ∷ u8 (bit_or 0x70 (bit_and (rand_a >> 8) 0x0f))
    ∷ u8 (bit_and rand_a 0xff)
    ∷ u8 (bit_or 0x80 (bit_and (get_or rand_b 0 0) 0x3f))
    ∷ take 7 (drop 1 rand_b)

unfoldable pub uuidv7_from_parts : Uuidv7 → ℤ → ℕ → List ℕ → Uuidv7Err × Uuidv7
uuidv7_from_parts out unix_ms rand_a_12bit rand_b =
    if out_of_range unix_ms
    then (err_time_range, out)
    else (ok, record { b = memcpy out.b 0 (parts_bytes (to_u64 unix_ms) rand_a_12bit rand_b) 16 })

unfoldable pub uuidv7_unix_ms : Uuidv7 → ℤ
uuidv7_unix_ms id =
    let b = get_or id.b in
    pos (
      bit_or
        (bit_or (bit_or (bit_or (bit_or (b 0 0 << 40) (b 1 0 << 32)) (b 2 0 << 24)) (b 3 0 << 16))
          (b 4 0 << 8))
        (b 5 0))

unfoldable pub uuidv7_version : Uuidv7 → ℕ
uuidv7_version id = u8 (bit_and (get_or id.b 6 0 >> 4) 0x0f)

unfoldable pub uuidv7_variant : Uuidv7 → ℕ
uuidv7_variant id = u8 (bit_and (get_or id.b 8 0 >> 6) 0x03)

unfoldable pub uuidv7_format : Arch → Uuidv7 → List ℕ → List ℕ
uuidv7_format arch id out = hex_encode_lower arch out id.b

-- `tmp` is what the stack temporary held.
unfoldable pub uuidv7_parse : Uuidv7 → List ℕ → List ℕ → ℕ → Uuidv7Err × Uuidv7
uuidv7_parse out tmp s len =
    if not (len == 36)
    then (err_str_size, out)
    else let (rc, tmp) = hex_decode tmp s len in
      elim rc [ pos zero ↦ (ok, record { b = memcpy out.b 0 tmp 16 }) | _ ↦ (err_str_value, out) ]

module _ {W : Type 0} (platform : Platform W) where
  -- `buf` is what the stack buffer for the ten random bytes held.
  unfoldable pub uuidv7_new_with_time : List ℕ → Uuidv7 → ℤ → W → Uuidv7Err × Uuidv7 × W
  uuidv7_new_with_time buf out unix_ms w =
      if out_of_range unix_ms
      then (err_time_range, out, w)
      else let (rc, rnd, w') = platform.fill_random buf 10 w in
        elim rc [
          | pos zero ↦
              let rand_a_12bit = u16 (bit_or (get_or rnd 0 0 << 8) (get_or rnd 1 0)) in
              let (e, id) = uuidv7_from_parts out unix_ms rand_a_12bit (drop 2 rnd) in (e, id, w')
          | _ ↦ (err_rng, out, w')
        ]

  unfoldable pub uuidv7_new : List ℕ → Uuidv7 → W → Uuidv7Err × Uuidv7 × W
  uuidv7_new buf out w =
      let (now, w') = platform.now_ms w in
      if out_of_range now then (err_time_range, out, w') else uuidv7_new_with_time buf out now w'
