-- ===== src/Uuidv7/Batch.antt =====
-- chronoid/uuidv7/hex_batch.c and hex_avx2.c: the texts of an array of UUIDs. `out` is what the output
-- held from the pointer on.
pub mod Kernels
pub mod Texts
use libchronoid.Prelude.{
  ℕ, zero, suc, ◌*◌, ◌/◌, List, [], ◌∷◌, ◌++◌, Option, some, length, set, take, drop, get_or, ltb,
  if◌then◌else◌,
}
use libchronoid.Prelude.Tables.{codes}
use libchronoid.Memory.{memcpy}
use libchronoid.Arch.{Arch}
use libchronoid.Simd.{srli_epi16}
use libchronoid.Simd.Wide.{
  and_si256, set1_epi8_256, broadcastsi128_si256, castsi256_si128, extracti128_si256,
  shuffle_epi8_256, unpacklo_epi8_256, unpackhi_epi8_256,
}
use libchronoid.Dispatch.{Host, Kernel, string_batch}
use libchronoid.Uuidv7.Types.{Uuidv7}
use libchronoid.Uuidv7.Id.{uuidv7_format}

-- The loop of `chronoid_uuidv7_string_batch_scalar`.
unfoldable pub uuidv7_string_batch_scalar : Arch → List Uuidv7 → List ℕ → List ℕ
uuidv7_string_batch_scalar arch [] out = out
uuidv7_string_batch_scalar arch (id ∷ ids) out =
    uuidv7_format arch id (take 36 out) ++ uuidv7_string_batch_scalar arch ids (drop 36 out)

-- The 64 characters of two identifiers.
unfoldable pub hex32_avx2 : List ℕ → List ℕ → List ℕ
hex32_avx2 out64 v =
    let lut128 = codes "0123456789abcdef" in
    let lut = broadcastsi128_si256 lut128 in
    let mask_low = set1_epi8_256 0x0f in
    let hi_nibbles = and_si256 (srli_epi16 v 4) mask_low in
    let lo_nibbles = and_si256 v mask_low in
    let ascii_hi = shuffle_epi8_256 lut hi_nibbles in
    let ascii_lo = shuffle_epi8_256 lut lo_nibbles in
    let lo_half = unpacklo_epi8_256 ascii_hi ascii_lo in
    let hi_half = unpackhi_epi8_256 ascii_hi ascii_lo in
    let out64 = memcpy out64 0 (castsi256_si128 lo_half) 16 in
    let out64 = memcpy out64 16 (castsi256_si128 hi_half) 16 in
    let out64 = memcpy out64 32 (extracti128_si256 lo_half) 16 in
    memcpy out64 48 (extracti128_si256 hi_half) 16

unfoldable pub dash_splice : List ℕ → List ℕ → List ℕ
dash_splice out36 hex32 =
    let out36 = memcpy out36 0 hex32 8 in
    let out36 = set out36 8 b'-' in
    let out36 = memcpy out36 9 (drop 8 hex32) 4 in
    let out36 = set out36 13 b'-' in
    let out36 = memcpy out36 14 (drop 12 hex32) 4 in
    let out36 = set out36 18 b'-' in
    let out36 = memcpy out36 19 (drop 16 hex32) 4 in
    let out36 = set out36 23 b'-' in memcpy out36 24 (drop 20 hex32) 12

-- The bytes of two adjacent identifiers.
abbrev pub pair_bytes : List Uuidv7 → List ℕ
pair_bytes (a ∷ b ∷ ids) = a.b ++ b.b
pair_bytes ids = []

-- The bulk loop, with `groups` rounds of four identifiers left. `hex` is what the stack buffer held.
unfoldable pub bulk_loop : ℕ → List ℕ → List Uuidv7 → List ℕ → List ℕ
bulk_loop zero hex ids out = out
bulk_loop (suc groups) hex ids out =
    let filled =
      hex32_avx2 (take 64 hex) (pair_bytes ids)
      ++ hex32_avx2 (drop 64 hex) (pair_bytes (drop 2 ids)) in
    dash_splice (take 36 out) filled
    ++ (dash_splice (take 36 (drop 36 out)) (drop 32 filled)
        ++ (dash_splice (take 36 (drop 72 out)) (drop 64 filled)
            ++ (dash_splice (take 36 (drop 108 out)) (drop 96 filled)
                ++ bulk_loop groups hex (drop 4 ids) (drop 144 out))))

-- `n & ~3` is four times `n / 4`.
unfoldable pub uuidv7_string_batch_avx2 : Arch → List ℕ → List Uuidv7 → List ℕ → List ℕ
uuidv7_string_batch_avx2 arch hex ids out =
    let n = length ids in
    let bulk = n / 4 * 4 in
    let out = bulk_loop (n / 4) hex ids out in
    if ltb bulk n
    then take (bulk * 36) out
      ++ uuidv7_string_batch_scalar arch (drop bulk ids) (drop (bulk * 36) out)
    else out

-- `chronoid_uuidv7_string_batch`, with the pointer before and after the call.
unfoldable pub uuidv7_string_batch :
    Arch → List ℕ → Host → Kernel → List Uuidv7 → List ℕ → Option (List ℕ) × Kernel
uuidv7_string_batch arch hex =
    string_batch (λ ids out. some (uuidv7_string_batch_scalar arch ids out))
      (λ ids out. some (uuidv7_string_batch_avx2 arch hex ids out))
