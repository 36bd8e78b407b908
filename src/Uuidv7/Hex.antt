-- ===== src/Uuidv7/Hex.antt =====
-- chronoid/uuidv7/hex.c and hex_ssse3.c: the hexadecimal text of a UUID. The buffers are lists of
-- bytes, and `out` is what the destination held.
pub mod Encode
pub mod Decode
pub mod RoundTrip
pub mod Canonical
use libchronoid.Prelude.{
  ℕ, zero, suc, ◌+◌, List, [], ◌∷◌, ◌++◌, Bool, not, ◌||◌, ◌==◌, if◌then◌else◌, get_or, set,
  replicate, take, drop, u8, ◌<<◌, ◌>>◌, bit_and, bit_or,
}
use libchronoid.Prelude.Tables.{codes, count_from}
use libchronoid.Prelude.Int.{ℤ, pos, negsuc}
use libchronoid.Memory.{memcpy}
use libchronoid.Simd.{set1_epi8, and_si128, srli_epi16, shuffle_epi8, unpacklo_epi8, unpackhi_epi8}
use libchronoid.Arch.{Arch, sse2, neon, scalar}

-- With the terminating NUL.
unfoldable pub hex_lower : List ℕ
hex_lower = codes "0123456789abcdef" ++ (0 ∷ [])

-- 256 entries, 0xff for what is no digit.
unfoldable pub hex_value : List ℕ
hex_value =
    replicate 0x30 0xff
    ++ (count_from 0 10
        ++ (replicate 7 0xff
            ++ (count_from 10 6 ++ (replicate 26 0xff ++ (count_from 10 6 ++ replicate 153 0xff)))))

-- For each byte, the offset of its first character.
abbrev pub char_off : List ℕ
char_off = 0 ∷ 2 ∷ 4 ∷ 6 ∷ 9 ∷ 11 ∷ 14 ∷ 16 ∷ 19 ∷ 21 ∷ 24 ∷ 26 ∷ 28 ∷ 30 ∷ 32 ∷ 34 ∷ []

-- The loop of `chronoid_hex_encode_lower_scalar`.
unfoldable pub encode_bytes : List ℕ → List ℕ → List ℕ → List ℕ
encode_bytes [] input out = out
encode_bytes (off ∷ offs) [] out = out
encode_bytes (off ∷ offs) (b ∷ input) out =
    let out = set out off (get_or hex_lower (bit_and (b >> 4) 0x0f) 0) in
    let out = set out (off + 1) (get_or hex_lower (bit_and b 0x0f) 0) in encode_bytes offs input out

unfoldable pub hex_encode_lower_scalar : List ℕ → List ℕ → List ℕ
hex_encode_lower_scalar out input =
    let out = encode_bytes char_off input out in
    let out = set out 8 b'-' in
    let out = set out 13 b'-' in let out = set out 18 b'-' in set out 23 b'-'

-- The end of `chronoid_hex_encode_lower_ssse3`, which splices the hyphens in.
unfoldable pub splice : List ℕ → List ℕ → List ℕ
splice out tmp =
    let out = memcpy out 0 tmp 8 in
    let out = set out 8 b'-' in
    let out = memcpy out 9 (drop 8 tmp) 4 in
    let out = set out 13 b'-' in
    let out = memcpy out 14 (drop 12 tmp) 4 in
    let out = set out 18 b'-' in
    let out = memcpy out 19 (drop 16 tmp) 4 in
    let out = set out 23 b'-' in memcpy out 24 (drop 20 tmp) 12

unfoldable pub hex_encode_lower_ssse3 : List ℕ → List ℕ → List ℕ
hex_encode_lower_ssse3 out v =
    let lut = codes "0123456789abcdef" in
    let mask_low = set1_epi8 0x0f in
    let hi_nibbles = and_si128 (srli_epi16 v 4) mask_low in
    let lo_nibbles = and_si128 v mask_low in
    let ascii_hi = shuffle_epi8 lut hi_nibbles in
    let ascii_lo = shuffle_epi8 lut lo_nibbles in
    let lo_half = unpacklo_epi8 ascii_hi ascii_lo in
    let hi_half = unpackhi_epi8 ascii_hi ascii_lo in splice out (lo_half ++ hi_half)

-- CHRONOID_HEX_ENCODE16_LOWER of chronoid/uuidv7/hex_simd.h: SSSE3 on x86-64.
unfoldable pub hex_encode_lower : Arch → List ℕ → List ℕ → List ℕ
hex_encode_lower sse2 out input = hex_encode_lower_ssse3 out input
hex_encode_lower neon out input = hex_encode_lower_scalar out input
hex_encode_lower scalar out input = hex_encode_lower_scalar out input

-- The loop of `chronoid_hex_decode`: the bytes stored in `tmp`, and `bad` at the end.
unfoldable pub decode_bytes : List ℕ → List ℕ → ℕ → List ℕ × ℕ
decode_bytes [] s bad = ([], bad)
decode_bytes (off ∷ offs) s bad =
    let hi = get_or hex_value (get_or s off 0) 0 in
    let lo = get_or hex_value (get_or s (off + 1) 0) 0 in
    let (tmp, bad') = decode_bytes offs s (bit_or (bit_or bad hi) lo) in
    (u8 (bit_or (hi << 4) lo) ∷ tmp, bad')

abbrev pub is_hyphen : List ℕ → ℕ → Bool
is_hyphen s i = get_or s i 0 == b'-'

-- `chronoid_hex_decode`: the result, and what `out` holds after it.
unfoldable pub hex_decode : List ℕ → List ℕ → ℕ → ℤ × List ℕ
hex_decode out s len =
    if not (len == 36)
    then (negsuc 0, out)
    else if not (is_hyphen s 8)
        || (not (is_hyphen s 13) || (not (is_hyphen s 18) || not (is_hyphen s 23)))
    then (negsuc 0, out)
    else let (tmp, bad) = decode_bytes char_off s 0 in
      if not (bit_and bad 0xf0 == 0) then (negsuc 0, out) else (pos 0, memcpy out 0 tmp 16)
