-- ===== src/Ksuid/Batch/Divide.antt =====
-- The arithmetic of chronoid/ksuid/encode_avx2.c, lane by lane.
use native.Mathlib.Nat.{mul-le-mul}
use libchronoid.Prelude.{
  ℕ, ◌+◌, ◌-◌, ◌*◌, ◌/◌, ◌%◌, ◌^◌, ◌≤◌, ◌<◌, ◌≡◌, sym, ap, ap₂, ◌∙◌, List, [], ◌∷◌, map, arith,
  length, AllBelow, u64, ltb, if◌then◌else◌, bit_and, ◌<<◌, ◌>>◌, Bool-cases, inl, inr,
}
use libchronoid.Prelude.Bits.{bit_and_mask}
use libchronoid.Simd.{zip_with}
use libchronoid.Simd.Wide.{set1_epi64x}
use libchronoid.Ksuid.Batch.{div62_m, mulhi64_avx2, divmod62_avx2}

-- What `mulhi64_avx2` computes in a lane.
abbrev lane_mulhi : ℕ → ℕ → ℕ
lane_mulhi a b =
    let ll = a % 2 ^ 32 * (b % 2 ^ 32) in
    let lh = a % 2 ^ 32 * ((b >> 32) % 2 ^ 32) in
    let hl = (a >> 32) % 2 ^ 32 * (b % 2 ^ 32) in
    let hh = (a >> 32) % 2 ^ 32 * ((b >> 32) % 2 ^ 32) in
    let mid_low = u64 (u64 (bit_and lh 0xffffffff + bit_and hl 0xffffffff) + (ll >> 32)) in
    u64 (u64 (hh + (lh >> 32)) + u64 ((hl >> 32) + (mid_low >> 32)))

abbrev half : ℕ
half = 0xffffffff

-- The high half of a product, from the four products of halves: no sum wraps.
high_half :
    (ll lh hl hh : ℕ)
    → ll ≤ half * half
    → lh ≤ half * half
    → hl ≤ half * half
    → hh ≤ half * half
    → u64 (
        u64 (hh + (lh >> 32))
        + u64 ((hl >> 32) + (u64 (u64 (lh % 2 ^ 32 + hl % 2 ^ 32) + (ll >> 32)) >> 32)))
      ≡ (hh * 2 ^ 64 + (lh + hl) * 2 ^ 32 + ll) / 2 ^ 64
high_half ll lh hl hh a b c d = omega arith

product :
    (a b c d : ℕ)
    → (a * 2 ^ 32 + b) * (c * 2 ^ 32 + d) ≡ a * c * 2 ^ 64 + (b * c + a * d) * 2 ^ 32 + b * d
product a b c d = grind arith

halves_le : (a b : ℕ) → a % 2 ^ 32 * (b % 2 ^ 32) ≤ half * half
halves_le a b = mul-le-mul {n₂ = half} {m₂ = half} (omega arith) (omega arith)

lane_mulhi_lem : (a b : ℕ) → a < 2 ^ 64 → b < 2 ^ 64 → lane_mulhi a b ≡ a * b / 2 ^ 64
lane_mulhi_lem a b ha hb =
    let al = a % 2 ^ 32 in
    let ah = (a >> 32) % 2 ^ 32 in
    let bl = b % 2 ^ 32 in
    let bh = (b >> 32) % 2 ^ 32 in
    rw (bit_and_mask 32 (al * bh), bit_and_mask 32 (ah * bl))
      (high_half (al * bl) (al * bh) (ah * bl) (ah * bh) (halves_le a b) (halves_le a (b >> 32))
          (halves_le (a >> 32) b) (halves_le (a >> 32) (b >> 32))
        ∙ ap (λ t. t / 2 ^ 64)
            (sym (product ah al bh bl)
              ∙ ap₂ ◌*◌ {x = ah * 2 ^ 32 + al} {y = a} (omega arith) (omega arith)))

corrected : (v : ℕ) → v < 2 ^ 64 → let q = v * div62_m / 2 ^ 64 in (62 * q ≤ v) × (v < 62 * q + 124)
corrected v h = (omega arith, omega arith)

abbrev lane_rest : ℕ → ℕ → ℕ
lane_rest v q = u64 (v + 2 ^ 64 - u64 (u64 (q << 6) + 2 ^ 64 - u64 (q << 1)))

lane_rest_lem : (v q : ℕ) → v < 2 ^ 64 → 62 * q ≤ v → lane_rest v q ≡ v - 62 * q
lane_rest_lem v q h k = omega arith

abbrev lane_mask : ℕ → ℕ
lane_mask r = if ltb (u64 (61 + 2 ^ 63)) (u64 (r + 2 ^ 63)) then 2 ^ 64 - 1 else 0

correct :
    (v q r : ℕ)
    → v < 2 ^ 64
    → 62 * q + r ≡ v
    → r < 124
    → (u64 (q + bit_and (lane_mask r) 1) ≡ v / 62)
      × (u64 (r + 2 ^ 64 - bit_and (lane_mask r) 62) ≡ v % 62)
correct v q r h e lt = elim (Bool-cases (ltb (u64 (61 + 2 ^ 63)) (u64 (r + 2 ^ 63)))) [
  | inl over ↦ rw over (ground arith, ground arith)
  | inr under ↦ rw under (ground arith, ground arith)
]

-- What `divmod62_avx2` computes in a lane.
lane_divmod :
    (v : ℕ)
    → v < 2 ^ 64
    → let q = lane_mulhi v div62_m in
      let r = lane_rest v q in
      (u64 (q + bit_and (lane_mask r) 1) ≡ v / 62)
      × (u64 (r + 2 ^ 64 - bit_and (lane_mask r) 62) ≡ v % 62)
lane_divmod v h =
    let (low, high) = corrected v h in
    let q = v * div62_m / 2 ^ 64 in
    rw (lane_mulhi_lem v div62_m h (omega arith), lane_rest_lem v q h low)
      (correct v q (v - 62 * q) h (omega (arith, low)) (omega (arith, low, high)))

-- Each of the four 64-bit lanes that `chronoid_divmod62_avx2` is given, whatever its value, is
-- divided by 62 exactly: the multiplication by the constant of divisor_magic.h, its shift and its
-- correction give the quotient and the remainder.
pub divmod62_avx2_lem :
    (v : List ℕ)
    → length v ≡ 4
    → AllBelow (2 ^ 64) v
    → divmod62_avx2 v (set1_epi64x div62_m) ≡ (map (λ x. x / 62) v, map (λ x. x % 62) v)
unfolding divmod62_avx2 mulhi64_avx2 zip_with
divmod62_avx2_lem (a ∷ b ∷ c ∷ d ∷ []) size h =
    let (qa, ra) = lane_divmod a h.0 in
    let (qb, rb) = lane_divmod b h.1.0 in
    let (qc, rc) = lane_divmod c h.1.1.0 in
    let (qd, rd) = lane_divmod d h.1.1.1.0 in
    ap₂ (λ (q r : List ℕ). (q, r)) (ap₂ ◌∷◌ qa (ap₂ ◌∷◌ qb (ap₂ ◌∷◌ qc (ap (λ t. t ∷ []) qd))))
      (ap₂ ◌∷◌ ra (ap₂ ◌∷◌ rb (ap₂ ◌∷◌ rc (ap (λ t. t ∷ []) rd))))
divmod62_avx2_lem _ size h = absurd (omega arith)
