-- ===== src/Ksuid/Batch/Lanes.antt =====
-- The registers of chronoid/ksuid/encode_avx2.c hold the long divisions of four identifiers side by
-- side.
use libchronoid.Prelude.{
  ℕ, zero, suc, ◌+◌, ◌*◌, ◌/◌, ◌%◌, ◌^◌, ◌<◌, ◌≡◌, refl, sym, ap, ap₂, ◌∙◌, List, [], ◌∷◌, map,
  map-map, arith, length, length-map, AllBelow, AllBelow-drop, All, All-map, map_agree, get_or,
  drop, u64, bit_or, ◌<<◌,
}
use libchronoid.Prelude.Bits.{bit_or_disjoint_low}
use libchronoid.Simd.Laws.{zip_with-map}
use libchronoid.Simd.Wide.{set1_epi64x, or_si256, slli_epi64}
use libchronoid.Ksuid.Batch.{div62_m, divmod62_avx2, divide_limbs}
use libchronoid.Ksuid.Batch.Divide.{divmod62_avx2_lem}

abbrev pub head : List ℕ → ℕ
head l = get_or l 0 0

-- `n` limbs of each lane, as `n` registers.
abbrev pub pack : ℕ → List (List ℕ) → List (List ℕ)
pack zero ls = []
pack (suc n) ls = map head ls ∷ pack n (map (drop 1) ls)

-- The division of `n` limbs by 62 from a remainder on.
abbrev pub divide : ℕ → List ℕ → ℕ → List ℕ × ℕ
divide zero l r = ([], r)
divide (suc n) l r =
    let v = head l + r * 2 ^ 32 in
    ((v / 62) ∷ (divide n (drop 1 l) (v % 62)).0, (divide n (drop 1 l) (v % 62)).1)

-- A lane: limbs and a remainder.
abbrev pub IsLane : List ℕ × ℕ → Type 0
IsLane (l, r) = AllBelow (2 ^ 32) l × (r < 62)

head-lt : (l : List ℕ) → AllBelow (2 ^ 32) l → head l < 2 ^ 32
head-lt [] h = omega arith
head-lt (x ∷ l) h = h.0

abbrev dividend : List ℕ × ℕ → ℕ
dividend s = head s.0 + s.1 * 2 ^ 32

abbrev next : List ℕ × ℕ → List ℕ × ℕ
next s = (drop 1 s.0, dividend s % 62)

next-IsLane : (s : List ℕ × ℕ) → IsLane s → IsLane (next s)
next-IsLane s h = (AllBelow-drop (2 ^ 32) 1 s.0 h.0, omega arith)

composed : (s : List ℕ × ℕ) → IsLane s → bit_or (head s.0) (u64 (s.1 << 32)) ≡ dividend s
composed s h =
    ap (bit_or (head s.0)) {y = s.1 * 2 ^ 32} (omega (arith, h.1))
    ∙ bit_or_disjoint_low 32 s.1 (head s.0) (head-lt s.0 h.0)
    ∙ omega arith

dividend-lt : (s : List ℕ × ℕ) → IsLane s → dividend s < 2 ^ 64
dividend-lt s h = omega (arith, head-lt s.0 h.0, h.1)

AllBelow-map :
    (b : ℕ) {S : Type 0} (f : S → ℕ) (xs : List S) → All (λ s. f s < b) xs → AllBelow b (map f xs)
AllBelow-map b f [] h = tt
AllBelow-map b f (x ∷ xs) h = (h.0, AllBelow-map b f xs h.1)

All-weaken :
    {S : Type 0} (P Q : S → Type 0) → ((s : S) → P s → Q s) → (xs : List S) → All P xs → All Q xs
All-weaken P Q e [] h = tt
All-weaken P Q e (x ∷ xs) h = (e x h.0, All-weaken P Q e xs h.1)

dividends :
    (st : List (List ℕ × ℕ))
    → All IsLane st
    → or_si256 (map head (map (λ s. s.0) st)) (slli_epi64 (map (λ s. s.1) st) 32) ≡ map dividend st
dividends st h =
    ap₂ or_si256 (map-map head (λ s. s.0) st) (map-map (λ x. u64 (x << 32)) (λ s. s.1) st)
    ∙ zip_with-map bit_or (λ s. head s.0) (λ s. u64 (s.1 << 32)) st
    ∙ map_agree IsLane (λ s. bit_or (head s.0) (u64 (s.1 << 32))) dividend composed st h

divided :
    (st : List (List ℕ × ℕ))
    → length st ≡ 4
    → All IsLane st
    → divmod62_avx2
        (or_si256 (map head (map (λ s. s.0) st)) (slli_epi64 (map (λ s. s.1) st) 32))
        (set1_epi64x div62_m)
      ≡ (map (λ s. dividend s / 62) st, map (λ s. dividend s % 62) st)
divided st size h =
    ap (λ v. divmod62_avx2 v (set1_epi64x div62_m)) (dividends st h)
    ∙ divmod62_avx2_lem (map dividend st) (length-map st dividend ∙ size) (
        AllBelow-map (2 ^ 64) dividend st
          (All-weaken IsLane (λ s. dividend s < 2 ^ 64) dividend-lt st h))
    ∙ ap₂ (λ (q r : List ℕ). (q, r)) (map-map (λ x. x / 62) dividend st)
        (map-map (λ x. x % 62) dividend st)

-- One pass of the loop over the limbs is the division of every lane.
pub divide_limbs-divide :
    (n : ℕ) (st : List (List ℕ × ℕ))
    → length st ≡ 4
    → All IsLane st
    → divide_limbs (set1_epi64x div62_m) (pack n (map (λ s. s.0) st)) (map (λ s. s.1) st)
      ≡ (pack n (map (λ s. (divide n s.0 s.1).0) st), map (λ s. (divide n s.0 s.1).1) st)
unfolding divide_limbs
divide_limbs-divide zero st size h = refl
divide_limbs-divide (suc n) st size h =
    ap
      (λ (d : List ℕ × List ℕ).
        let e = divide_limbs mag (pack n (map (drop 1) (map (λ s. s.0) st))) d.1 in
        (d.0 ∷ e.0, e.1))
      (divided st size h)
    ∙ ap (λ (e : List (List ℕ) × List ℕ). (map (λ s. dividend s / 62) st ∷ e.0, e.1))
        (ap₂ (λ ls rem. divide_limbs mag (pack n ls) rem)
            (map-map (drop 1) (λ s. s.0) st ∙ sym (map-map (λ s. s.0) next st))
            (sym (map-map (λ s. s.1) next st))
          ∙ divide_limbs-divide n (map next st) (length-map st next ∙ size)
              (All-map IsLane IsLane next next-IsLane st h))
    ∙ ap₂ (λ (e : List (List ℕ)) (r : List ℕ). (e, r))
        (ap₂ (λ q ls. q ∷ pack n ls) (sym (map-map head (λ s. (divide (suc n) s.0 s.1).0) st))
          (map-map (λ s. (divide n s.0 s.1).0) next st
            ∙ sym (map-map (drop 1) (λ s. (divide (suc n) s.0 s.1).0) st)))
        (map-map (λ s. (divide n s.0 s.1).1) next st)
  where
    mag : List ℕ
    mag = set1_epi64x div62_m
