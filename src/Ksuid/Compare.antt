-- ===== src/Ksuid/Compare.antt =====
-- The 20-byte comparison: chronoid/ksuid/compare_scalar.c, compare_sse2.c and compare_neon.c, and
-- the choice that compare_simd.h makes.
pub mod Kernels
use libchronoid.Prelude.{
  ℕ, zero, suc, ◌-◌, ◌/◌, ◌%◌, ◌^◌, List, bit_and, ◌==◌, ltb, not, if◌then◌else◌, get_or, take, ◌+◌,
}
use libchronoid.Prelude.Int.{ℤ, pos, negsuc}
use libchronoid.Memory.{memcmp, sign}
use libchronoid.Simd.{cmpeq_epi8, movemask_epi8, minv_u8}
use libchronoid.Arch.{Arch, sse2, neon, scalar}

-- `chronoid_ksuid_compare20_scalar`.
unfoldable pub compare20_scalar : List ℕ → List ℕ → ℤ
compare20_scalar a b = sign (memcmp a b 20)

-- `__builtin_ctz`: the index of the lowest bit set among `n` bits.
unfoldable pub ctz : ℕ → ℕ → ℕ
ctz zero x = 0
ctz (suc n) x = if x % 2 == 1 then 0 else suc (ctz n (x / 2))

-- `chronoid_ksuid_ctz32`.
unfoldable pub ctz32 : ℕ → ℕ
ctz32 x = ctz 32 x

-- `chronoid_ksuid_first_diff_sse2`.
unfoldable pub first_diff_sse2 : ℕ → ℕ
first_diff_sse2 eq_mask =
    let diff = bit_and (2 ^ 32 - 1 - eq_mask) 0xffff in if diff == 0 then 16 else ctz32 diff

-- The scalar loop from index `i` on, with `n` rounds left.
unfoldable pub byte_loop : ℕ → ℕ → List ℕ → List ℕ → ℤ
byte_loop zero i a b = pos 0
byte_loop (suc n) i a b =
    let rest = byte_loop n (i + 1) a b in
    if not (get_or a i 0 == get_or b i 0)
    then (if ltb (get_or a i 0) (get_or b i 0) then negsuc 0 else pos 1)
    else rest

-- `chronoid_ksuid_compare20_sse2`.
unfoldable pub compare20_sse2 : List ℕ → List ℕ → ℤ
compare20_sse2 a b =
    let veq = cmpeq_epi8 (take 16 a) (take 16 b) in
    let idx = first_diff_sse2 (movemask_epi8 veq) in
    if ltb idx 16
    then (if ltb (get_or a idx 0) (get_or b idx 0) then negsuc 0 else pos 1)
    else byte_loop 4 16 a b

-- The first loop of the NEON kernel, which falls through to the tail when it ends.
unfoldable pub head_loop : ℕ → ℕ → List ℕ → List ℕ → ℤ
head_loop zero i a b = byte_loop 4 16 a b
head_loop (suc n) i a b =
    let rest = head_loop n (i + 1) a b in
    if not (get_or a i 0 == get_or b i 0)
    then (if ltb (get_or a i 0) (get_or b i 0) then negsuc 0 else pos 1)
    else rest

-- `chronoid_ksuid_compare20_neon`, with the reduction of aarch64.
unfoldable pub compare20_neon : List ℕ → List ℕ → ℤ
compare20_neon a b =
    let veq = cmpeq_epi8 (take 16 a) (take 16 b) in
    if not (minv_u8 veq == 0xff) then head_loop 16 0 a b else byte_loop 4 16 a b

-- CHRONOID_KSUID_COMPARE20 of chronoid/ksuid/compare_simd.h.
unfoldable pub compare20 : Arch → List ℕ → List ℕ → ℤ
compare20 sse2 a b = compare20_sse2 a b
compare20 neon a b = compare20_neon a b
compare20 scalar a b = compare20_scalar a b
