-- ===== src/Simd/Wide.antt =====
-- The AVX2 instructions that the batch kernels use, on registers of four 64-bit lanes,
-- and of 32 bytes further down.
use libchronoid.Prelude.{
  ℕ, ◌+◌, ◌-◌, ◌*◌, ◌%◌, ◌^◌, List, map, ltb, if◌then◌else◌, replicate, u64, ◌<<◌, ◌>>◌, bit_and,
  bit_or, take, drop, ◌++◌,
}
use libchronoid.Simd.{zip_with, shuffle_epi8, unpacklo_epi8, unpackhi_epi8}

-- `_mm256_set1_epi64x`.
abbrev pub set1_epi64x : ℕ → List ℕ
set1_epi64x k = replicate 4 k

-- `_mm256_srli_epi64` and `_mm256_slli_epi64`.
abbrev pub srli_epi64 : List ℕ → ℕ → List ℕ
srli_epi64 v k = map (λ x. x >> k) v

abbrev pub slli_epi64 : List ℕ → ℕ → List ℕ
slli_epi64 v k = map (λ x. u64 (x << k)) v

-- `_mm256_mul_epu32`: the product of the low halves.
abbrev pub mul_epu32 : List ℕ → List ℕ → List ℕ
mul_epu32 = zip_with (λ x y. x % 2 ^ 32 * (y % 2 ^ 32))

-- `_mm256_add_epi64` and `_mm256_sub_epi64`.
abbrev pub add_epi64 : List ℕ → List ℕ → List ℕ
add_epi64 = zip_with (λ x y. u64 (x + y))

abbrev pub sub_epi64 : List ℕ → List ℕ → List ℕ
sub_epi64 = zip_with (λ x y. u64 (x + 2 ^ 64 - y))

-- `_mm256_and_si256` and `_mm256_or_si256`, on lanes of any width.
abbrev pub and_si256 : List ℕ → List ℕ → List ℕ
and_si256 = zip_with bit_and

abbrev pub or_si256 : List ℕ → List ℕ → List ℕ
or_si256 = zip_with bit_or

-- `_mm256_cmpgt_epi64`: the comparison is signed, that is, it is made with the top bits flipped.
abbrev pub cmpgt_epi64 : List ℕ → List ℕ → List ℕ
cmpgt_epi64 = zip_with (λ x y. if ltb (u64 (y + 2 ^ 63)) (u64 (x + 2 ^ 63)) then 2 ^ 64 - 1 else 0)

-- The byte-wise instructions, on registers of 32 bytes: those that move bytes work on each half.
-- `_mm256_set1_epi8` and `_mm256_broadcastsi128_si256`.
abbrev pub set1_epi8_256 : ℕ → List ℕ
set1_epi8_256 k = replicate 32 k

abbrev pub broadcastsi128_si256 : List ℕ → List ℕ
broadcastsi128_si256 v = v ++ v

-- `_mm256_castsi256_si128` and `_mm256_extracti128_si256 (v, 1)`.
abbrev pub castsi256_si128 : List ℕ → List ℕ
castsi256_si128 v = take 16 v

abbrev pub extracti128_si256 : List ℕ → List ℕ
extracti128_si256 v = drop 16 v

abbrev on_halves : (List ℕ → List ℕ → List ℕ) → List ℕ → List ℕ → List ℕ
on_halves f a b = f (take 16 a) (take 16 b) ++ f (drop 16 a) (drop 16 b)

-- `_mm256_shuffle_epi8`, `_mm256_unpacklo_epi8` and `_mm256_unpackhi_epi8`.
abbrev pub shuffle_epi8_256 : List ℕ → List ℕ → List ℕ
shuffle_epi8_256 = on_halves shuffle_epi8

abbrev pub unpacklo_epi8_256 : List ℕ → List ℕ → List ℕ
unpacklo_epi8_256 = on_halves unpacklo_epi8

abbrev pub unpackhi_epi8_256 : List ℕ → List ℕ → List ℕ
unpackhi_epi8_256 = on_halves unpackhi_epi8
