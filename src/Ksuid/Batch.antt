-- ===== src/Ksuid/Batch.antt =====
-- chronoid/ksuid/encode_batch.c, encode_avx2.c and divisor_magic.h: the texts of an array of KSUIDs.
-- `out` is what the output held from the pointer on.
pub mod Divide
pub mod Lanes
pub mod Columns
pub mod Agree
pub mod Kernels
pub mod Race
use libchronoid.Prelude.{
  ℕ, zero, suc, ◌+◌, ◌-◌, ◌*◌, ◌/◌, List, [], ◌∷◌, ◌++◌, Option, some, ◌>>=◌, length, get_or, set,
  take, drop, map, u8, ltb, if◌then◌else◌,
}
use libchronoid.Prelude.Tables.{codes}
use libchronoid.ByteOrder.{be32_load}
use libchronoid.Simd.Wide.{
  set1_epi64x, srli_epi64, slli_epi64, mul_epu32, add_epi64, sub_epi64, and_si256, or_si256,
  cmpgt_epi64,
}
use libchronoid.Dispatch.{Host, Kernel, string_batch}
use libchronoid.Ksuid.Types.{Ksuid}
use libchronoid.Ksuid.Id.{ksuid_format}

-- The loop of `chronoid_ksuid_string_batch_scalar`.
unfoldable pub ksuid_string_batch_scalar : List Ksuid → List ℕ → Option (List ℕ)
ksuid_string_batch_scalar [] out = some out
ksuid_string_batch_scalar (id ∷ ids) out =
    ksuid_format id (take 27 out)
    >>= (λ s. ksuid_string_batch_scalar ids (drop 27 out) >>= (λ rest. some (s ++ rest)))

-- CHRONOID_KSUID_DIV62_M.
abbrev pub div62_m : ℕ
div62_m = 0x421084210842108

unfoldable pub mulhi64_avx2 : List ℕ → List ℕ → List ℕ
mulhi64_avx2 a b =
    let mask32 = set1_epi64x 0xffffffff in
    let a_hi = srli_epi64 a 32 in
    let b_hi = srli_epi64 b 32 in
    let ll = mul_epu32 a b in
    let lh = mul_epu32 a b_hi in
    let hl = mul_epu32 a_hi b in
    let hh = mul_epu32 a_hi b_hi in
    let ll_hi = srli_epi64 ll 32 in
    let lh_lo = and_si256 lh mask32 in
    let hl_lo = and_si256 hl mask32 in
    let lh_hi = srli_epi64 lh 32 in
    let hl_hi = srli_epi64 hl 32 in
    let mid_low = add_epi64 (add_epi64 lh_lo hl_lo) ll_hi in
    let mid_carry = srli_epi64 mid_low 32 in
    add_epi64 (add_epi64 hh lh_hi) (add_epi64 hl_hi mid_carry)

-- `*q_out` and `*r_out`.
unfoldable pub divmod62_avx2 : List ℕ → List ℕ → List ℕ × List ℕ
divmod62_avx2 value mag =
    let q = mulhi64_avx2 value mag in
    let q62 = sub_epi64 (slli_epi64 q 6) (slli_epi64 q 1) in
    let r = sub_epi64 value q62 in
    let ge62 = cmpgt_epi64 r (set1_epi64x 61) in
    let k62 = set1_epi64x 62 in
    let one = set1_epi64x 1 in (add_epi64 q (and_si256 ge62 one), sub_epi64 r (and_si256 ge62 k62))

-- The loop over the limbs, for one of the two packs: they do not touch each other. The registers
-- that it leaves, and the remainders.
unfoldable pub divide_limbs : List ℕ → List (List ℕ) → List ℕ → List (List ℕ) × List ℕ
divide_limbs mag [] rem = ([], rem)
divide_limbs mag (limb ∷ limbs) rem =
    let v = or_si256 limb (slli_epi64 rem 32) in
    let (q, r) = divmod62_avx2 v mag in let (qs, rem') = divide_limbs mag limbs r in (q ∷ qs, rem')

-- With the terminating NUL.
unfoldable pub avx2_b62_alphabet : List ℕ
avx2_b62_alphabet =
    codes "0123456789ABCDEFGHIJKLMNOPQRSTUVWXYZabcdefghijklmnopqrstuvwxyz" ++ (0 ∷ [])

-- The loop over the lanes that stores the characters of one column, from `lane` on.
unfoldable pub scatter : ℕ → ℕ → List ℕ → List ℕ → List ℕ
scatter col lane [] out = out
scatter col lane (r ∷ rems) out =
    scatter col (lane + 1) rems (set out (lane * 27 + col) (u8 (get_or avx2_b62_alphabet r 0)))

-- The loop over the columns, of which `n` are left.
unfoldable pub columns : ℕ → List ℕ → List (List ℕ) → List (List ℕ) → List ℕ → List ℕ
columns zero mag lo hi out = out
columns (suc n) mag lo hi out =
    let (lo, rem_lo) = divide_limbs mag lo (set1_epi64x 0) in
    let (hi, rem_hi) = divide_limbs mag hi (set1_epi64x 0) in
    columns n mag lo hi (scatter n 0 (rem_lo ++ rem_hi) out)

-- `plo` or `phi`: the limbs at one offset of four identifiers.
unfoldable pub load_limbs : ℕ → List Ksuid → List ℕ
load_limbs j ids = map (λ (id : Ksuid). be32_load (drop (j * 4) id.b)) ids

abbrev pub load_pack : List Ksuid → List (List ℕ)
load_pack ids =
    load_limbs 0 ids
    ∷ load_limbs 1 ids
    ∷ load_limbs 2 ids
    ∷ load_limbs 3 ids
    ∷ load_limbs 4 ids
    ∷ []

-- The bulk loop, with `groups` rounds of eight identifiers left.
unfoldable pub bulk_loop : ℕ → List ℕ → List Ksuid → List ℕ → List ℕ
bulk_loop zero mag ids out = out
bulk_loop (suc groups) mag ids out =
    let lo = load_pack (take 4 ids) in
    let hi = load_pack (take 4 (drop 4 ids)) in
    let out = columns 27 mag lo hi out in
    take 216 out ++ bulk_loop groups mag (drop 8 ids) (drop 216 out)

-- `n & ~7` is eight times `n / 8`.
unfoldable pub ksuid_string_batch_avx2 : List Ksuid → List ℕ → Option (List ℕ)
ksuid_string_batch_avx2 ids out =
    let n = length ids in
    let bulk = n / 8 * 8 in
    let out = bulk_loop (n / 8) (set1_epi64x div62_m) ids out in
    if ltb bulk n
    then ksuid_string_batch_scalar (drop bulk ids) (drop (bulk * 27) out)
      >>= (λ rest. some (take (bulk * 27) out ++ rest))
    else some out

-- `chronoid_ksuid_string_batch`, with the pointer before and after the call.
unfoldable pub ksuid_string_batch : Host → Kernel → List Ksuid → List ℕ → Option (List ℕ) × Kernel
ksuid_string_batch = string_batch ksuid_string_batch_scalar ksuid_string_batch_avx2
