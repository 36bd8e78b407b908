-- ===== src/Simd.antt =====
-- The vector instructions that the kernels use, on registers of byte lanes in memory order. The
-- SSE and the NEON spelling of one operation share a definition.
pub mod Laws
pub mod Wide
use Prim.Native.Nat.{min}
use libchronoid.Prelude.{
  ℕ, ◌+◌, ◌-◌, ◌*◌, ◌/◌, ◌%◌, List, [], ◌∷◌, ◌==◌, leb, if◌then◌else◌, replicate, u8, bit_and,
  bit_or, take, drop, get_or, ltb, ◌++◌, ◌>>◌,
}

module _ {ℓ} {A : Type ℓ} where
  unfoldable pub zip_with : (A → A → A) → List A → List A → List A
  zip_with f [] ys = []
  zip_with f (x ∷ xs) [] = []
  zip_with f (x ∷ xs) (y ∷ ys) = f x y ∷ zip_with f xs ys

-- `_mm_set1_epi8`, `vdupq_n_u8`.
unfoldable pub set1_epi8 : ℕ → List ℕ
set1_epi8 k = replicate 16 k

-- `_mm_sub_epi8`, `vsubq_u8`.
abbrev pub sub_epi8 : List ℕ → List ℕ → List ℕ
sub_epi8 = zip_with (λ x y. u8 (x + 256 - y))

-- `_mm_add_epi8`, `vaddq_u8`.
abbrev pub add_epi8 : List ℕ → List ℕ → List ℕ
add_epi8 = zip_with (λ x y. u8 (x + y))

-- `_mm_min_epu8`.
abbrev pub min_epu8 : List ℕ → List ℕ → List ℕ
min_epu8 = zip_with min

-- `_mm_cmpeq_epi8`, `vceqq_u8`.
abbrev pub cmpeq_epi8 : List ℕ → List ℕ → List ℕ
cmpeq_epi8 = zip_with (λ x y. if x == y then 0xff else 0)

-- `vcleq_u8`.
abbrev pub cmple_epu8 : List ℕ → List ℕ → List ℕ
cmple_epu8 = zip_with (λ x y. if leb x y then 0xff else 0)

-- `_mm_and_si128`, `vandq_u8`.
abbrev pub and_si128 : List ℕ → List ℕ → List ℕ
and_si128 = zip_with bit_and

-- `_mm_or_si128`, `vorrq_u8`.
abbrev pub or_si128 : List ℕ → List ℕ → List ℕ
or_si128 = zip_with bit_or

-- `_mm_andnot_si128`: `~a & b`.
abbrev pub andnot_si128 : List ℕ → List ℕ → List ℕ
andnot_si128 = zip_with (λ x y. bit_and (255 - x) y)

-- `vbicq_u8`: `a & ~b`.
abbrev pub bic_u8 : List ℕ → List ℕ → List ℕ
bic_u8 = zip_with (λ x y. bit_and x (255 - y))

-- `_mm_movemask_epi8`: the top bit of each lane, the first lane lowest.
unfoldable pub movemask_epi8 : List ℕ → ℕ
movemask_epi8 [] = 0
movemask_epi8 (x ∷ xs) = x / 128 + 2 * movemask_epi8 xs

-- `vminvq_u8`.
unfoldable pub minv_u8 : List ℕ → ℕ
minv_u8 [] = 0xff
minv_u8 (x ∷ xs) = min x (minv_u8 xs)

-- `_mm_srli_epi16`: two lanes are one little-endian word.
unfoldable pub srli_epi16 : List ℕ → ℕ → List ℕ
srli_epi16 (x ∷ y ∷ v) k = let word = (x + 256 * y) >> k in u8 word ∷ word / 256 ∷ srli_epi16 v k
srli_epi16 v k = v

-- `_mm_shuffle_epi8`.
abbrev pub shuffle_epi8 : List ℕ → List ℕ → List ℕ
shuffle_epi8 a [] = []
shuffle_epi8 a (i ∷ is) = (if ltb i 128 then get_or a (i % 16) 0 else 0) ∷ shuffle_epi8 a is

abbrev interleave : List ℕ → List ℕ → List ℕ
interleave (x ∷ xs) (y ∷ ys) = x ∷ y ∷ interleave xs ys
interleave xs ys = []

-- `_mm_unpacklo_epi8` and `_mm_unpackhi_epi8`.
abbrev pub unpacklo_epi8 : List ℕ → List ℕ → List ℕ
unpacklo_epi8 a b = interleave (take 8 a) (take 8 b)

abbrev pub unpackhi_epi8 : List ℕ → List ℕ → List ℕ
unpackhi_epi8 a b = interleave (drop 8 a) (drop 8 b)
