-- ===== src/Ksuid/Compare/Kernels.antt =====
-- The SSE2 and the NEON comparison kernels agree with the scalar one on every two byte arrays.
use native.Mathlib.Nat.{pow-suc, one-le-pow}
use libchronoid.Prelude.{
  ℕ, zero, suc, ◌+◌, ◌-◌, ◌*◌, ◌/◌, ◌^◌, ◌<◌, ◌≤◌, ◌≡◌, refl, sym, ap, ◌∙◌, List, [], ◌∷◌, false,
  Bool-cases, ==_iff, lt→ltb, inl, inr, bit_and, ◌==◌, ltb, if◌then◌else◌, get_or, take, drop,
  length, arith,
}
use libchronoid.Prelude.Bits.{bit_and_mask}
use libchronoid.Prelude.Int.{pos, negsuc}
use libchronoid.Memory.{memcmp, sign}
use libchronoid.Simd.{cmpeq_epi8, zip_with, movemask_epi8, minv_u8}
use libchronoid.Arch.{Arch, sse2, neon, scalar}
use libchronoid.Ksuid.Compare.{
  compare20_scalar, ctz, ctz32, first_diff_sse2, byte_loop, compare20_sse2, head_loop,
  compare20_neon, compare20,
}

-- The loop from `i` on compares what lies behind `i`.
get_or-drop : (i : ℕ) (xs : List ℕ) → get_or (drop i xs) 0 0 ≡ get_or xs i 0
get_or-drop zero xs = refl
get_or-drop (suc i) [] = refl
get_or-drop (suc i) (x ∷ xs) = get_or-drop i xs

drop-cons : (i : ℕ) (xs : List ℕ) → i < length xs → drop i xs ≡ get_or xs i 0 ∷ drop (i + 1) xs
drop-cons i [] h = absurd (omega arith)
drop-cons zero (x ∷ xs) h = refl
drop-cons (suc i) (x ∷ xs) h =
    drop-cons i xs (omega arith)
    ∙ ap (λ k. get_or xs i 0 ∷ drop k (x ∷ xs)) {x = suc (i + 1)} (omega arith)

byte_loop-memcmp :
    (n i : ℕ) (a b : List ℕ)
    → i + n ≤ length a
    → i + n ≤ length b
    → byte_loop n i a b ≡ sign (memcmp (drop i a) (drop i b) n)
unfolding byte_loop memcmp
byte_loop-memcmp zero i a b h k = refl
byte_loop-memcmp (suc n) i a b h k =
    rw (drop-cons i a (omega arith), drop-cons i b (omega arith))
      (ground (arith, byte_loop-memcmp n (i + 1) a b))

head_loop-memcmp :
    (n i m : ℕ) (a b : List ℕ)
    → i + n ≡ 16
    → m ≡ n + 4
    → length a ≡ 20
    → length b ≡ 20
    → head_loop n i a b ≡ sign (memcmp (drop i a) (drop i b) m)
unfolding head_loop memcmp
head_loop-memcmp zero i m a b e s h k =
    let i_eq : i ≡ 16 = omega arith in
    let m_eq : m ≡ 4 = omega arith in
    rw (i_eq, m_eq) (byte_loop-memcmp 4 16 a b (omega arith) (omega arith))
head_loop-memcmp (suc n) i zero a b e s h k = absurd (omega arith)
head_loop-memcmp (suc n) i (suc m) a b e s h k =
    rw (drop-cons i a (omega arith), drop-cons i b (omega arith))
      (ground (arith, head_loop-memcmp n (i + 1) m a b))

mask-lt : (n : ℕ) (a b : List ℕ) → movemask_epi8 (cmpeq_epi8 (take n a) (take n b)) < 2 ^ n
unfolding movemask_epi8 zip_with
mask-lt zero a b = omega arith
mask-lt (suc n) [] b = omega (arith, one-le-pow (suc n) 2)
mask-lt (suc n) (x ∷ a) [] = omega (arith, one-le-pow (suc n) 2)
mask-lt (suc n) (x ∷ a) (y ∷ b) = ground (arith, mask-lt n a b, pow-suc 2 n)

-- The lanes that differ.
abbrev diff : ℕ → List ℕ → List ℕ → ℕ
diff n a b = 2 ^ n - 1 - movemask_epi8 (cmpeq_epi8 (take n a) (take n b))

diff-same : (n x : ℕ) (a b : List ℕ) → diff (suc n) (x ∷ a) (x ∷ b) ≡ 2 * diff n a b
unfolding movemask_epi8 zip_with
diff-same n x a b = ground (arith, mask-lt n a b, pow-suc 2 n)

diff-other :
    (n x y : ℕ) (a b : List ℕ)
    → (x == y) ≡ false
    → diff (suc n) (x ∷ a) (y ∷ b) ≡ 2 * diff n a b + 1
unfolding movemask_epi8 zip_with
diff-other n x y a b e = ground (arith, mask-lt n a b, pow-suc 2 n)

ctz-even : (f d : ℕ) → ctz (suc f) (2 * d) ≡ suc (ctz f d)
unfolding ctz
ctz-even f d = ground (arith, ap (ctz f) (halve d))
  where
    halve : (d : ℕ) → 2 * d / 2 ≡ d
    halve d = omega arith

ctz-odd : (f d : ℕ) → ctz (suc f) (2 * d + 1) ≡ 0
unfolding ctz
ctz-odd f d = ground arith

memcmp-same : (t x : ℕ) (a b : List ℕ) → memcmp (x ∷ a) (x ∷ b) (suc t) ≡ memcmp a b t
unfolding memcmp
memcmp-same t x a b = ground arith

memcmp-other :
    (t x y : ℕ) (a b : List ℕ)
    → (x == y) ≡ false
    → sign (memcmp (x ∷ a) (y ∷ b) (suc t)) ≡ (if ltb x y then negsuc 0 else pos 1)
unfolding memcmp
memcmp-other t x y a b e = ground arith

minv-le : (xs : List ℕ) → minv_u8 xs ≤ 0xff
unfolding minv_u8
minv-le [] = omega arith
minv-le (x ∷ xs) = omega (arith, minv-le xs)

minv-same :
    (n x : ℕ) (a b : List ℕ)
    → minv_u8 (cmpeq_epi8 (take (suc n) (x ∷ a)) (take (suc n) (x ∷ b)))
      ≡ minv_u8 (cmpeq_epi8 (take n a) (take n b))
unfolding minv_u8 zip_with
minv-same n x a b = ground (arith, minv-le (cmpeq_epi8 (take n a) (take n b)))

minv-other :
    (n x y : ℕ) (a b : List ℕ)
    → (x == y) ≡ false
    → minv_u8 (cmpeq_epi8 (take (suc n) (x ∷ a)) (take (suc n) (y ∷ b))) ≡ 0
unfolding minv_u8 zip_with
minv-other n x y a b e = ground arith

-- Equal heads leave the comparison to the tails.
minv-memcmp :
    (n m t : ℕ) (a b : List ℕ)
    → t ≡ n + m
    → n ≤ length a
    → n ≤ length b
    → minv_u8 (cmpeq_epi8 (take n a) (take n b)) ≡ 0xff
    → memcmp a b t ≡ memcmp (drop n a) (drop n b) m
minv-memcmp zero m t a b s h k e = ap (memcmp a b) (omega arith)
minv-memcmp (suc n) m zero a b s h k e = absurd (omega arith)
minv-memcmp (suc n) m (suc t) [] b s h k e = absurd (omega arith)
minv-memcmp (suc n) m (suc t) (x ∷ a) [] s h k e = absurd (omega arith)
minv-memcmp (suc n) m (suc t) (x ∷ a) (y ∷ b) s h k e = elim (Bool-cases (x == y)) [
  | inr other ↦ absurd (omega (arith, minv-other n x y a b other))
  | inl same ↦
      let xy = (==_iff x y).0 same in
      rw (xy, memcmp-same)
        (minv-memcmp n m t a b (omega arith) (omega arith) (omega arith)
          (sym (minv-same n y a b) ∙ rw xy at e))
]

module _ (m : ℕ) where
  diff-zero :
      (n t : ℕ) (a b : List ℕ)
      → t ≡ n + m
      → n ≤ length a
      → n ≤ length b
      → diff n a b ≡ 0
      → memcmp a b t ≡ memcmp (drop n a) (drop n b) m
  diff-zero zero t a b s h k e = ap (memcmp a b) (omega arith)
  diff-zero (suc n) zero a b s h k e = absurd (omega arith)
  diff-zero (suc n) (suc t) [] b s h k e = absurd (omega arith)
  diff-zero (suc n) (suc t) (x ∷ a) [] s h k e = absurd (omega arith)
  diff-zero (suc n) (suc t) (x ∷ a) (y ∷ b) s h k e = elim (Bool-cases (x == y)) [
    | inr other ↦ absurd (omega (arith, diff-other n x y a b other))
    | inl same ↦
        let xy = (==_iff x y).0 same in
        rw (xy, memcmp-same)
          (diff-zero n t a b (omega arith) (omega arith) (omega arith)
            (omega (arith, diff-same n y a b, rw xy at e)))
  ]

  -- The lowest of them decides.
  diff-first :
      (n f t : ℕ) (a b : List ℕ)
      → n ≤ f
      → t ≡ n + m
      → n ≤ length a
      → n ≤ length b
      → 0 < diff n a b
      → let i = ctz f (diff n a b) in
        (i < n)
        × ((if ltb (get_or a i 0) (get_or b i 0) then negsuc 0 else pos 1) ≡ sign (memcmp a b t))
  diff-first zero f t a b g s h k e = absurd (omega arith)
  diff-first (suc n) zero t a b g s h k e = absurd (omega arith)
  diff-first (suc n) (suc f) zero a b g s h k e = absurd (omega arith)
  diff-first (suc n) (suc f) (suc t) [] b g s h k e = absurd (omega arith)
  diff-first (suc n) (suc f) (suc t) (x ∷ a) [] g s h k e = absurd (omega arith)
  diff-first (suc n) (suc f) (suc t) (x ∷ a) (y ∷ b) g s h k e = elim (Bool-cases (x == y)) [
    | inr other ↦
        rw (diff-other n x y a b other, ctz-odd) (omega arith, sym (memcmp-other t x y a b other))
    | inl same ↦
        let xy = (==_iff x y).0 same in
        let rest =
          diff-first n f t a b (omega arith) (omega arith) (omega arith) (omega arith)
            (omega (arith, diff-same n y a b, rw xy at e)) in
        rw (xy, diff-same, ctz-even, memcmp-same) (omega (arith, rest.0), rest.1)
  ]

module _ (a b : List ℕ) (size_a : length a ≡ 20) (size_b : length b ≡ 20) where
  neon_lem : compare20_neon a b ≡ compare20_scalar a b
  unfolding compare20_neon compare20_scalar
  neon_lem = elim (Bool-cases (minv_u8 (cmpeq_epi8 (take 16 a) (take 16 b)) == 0xff)) [
    | inr other ↦ rw other (head_loop-memcmp 16 0 20 a b refl refl size_a size_b)
    | inl same ↦ rw same (
        byte_loop-memcmp 4 16 a b (omega arith) (omega arith)
        ∙ ap sign
            (sym (minv-memcmp 16 4 20 a b refl (omega arith) (omega arith) ((==_iff _ _).0 same))))
  ]

  -- `~eq_mask & 0xffff` holds the lanes that differ.
  flipped : (m : ℕ) → m < 2 ^ 16 → bit_and (2 ^ 32 - 1 - m) 0xffff ≡ 2 ^ 16 - 1 - m
  flipped m h = bit_and_mask 16 (2 ^ 32 - 1 - m) ∙ omega arith

  sse2_lem : compare20_sse2 a b ≡ compare20_scalar a b
  unfolding compare20_sse2 compare20_scalar first_diff_sse2 ctz32
  sse2_lem = elim (Bool-cases (diff 16 a b == 0)) [
    | inl none_differ ↦
        rw (flipped _ (mask-lt 16 a b), none_differ)
          (byte_loop-memcmp 4 16 a b (omega arith) (omega arith)
            ∙ ap sign (
                sym (
                  diff-zero 4 16 20 a b refl (omega arith) (omega arith)
                    ((==_iff _ _).0 none_differ))))
    | inr some_differ ↦
        let first =
          diff-first 4 16 32 20 a b (omega arith) refl (omega arith) (omega arith)
            (ground (arith, some_differ)) in
        rw (flipped _ (mask-lt 16 a b), some_differ, lt→ltb _ 16 first.0) first.1
  ]

-- Whichever kernel the build selects, the comparison of 20 bytes is the sign of `memcmp`.
pub compare20_lem :
    (arch : Arch) (a b : List ℕ)
    → length a ≡ 20
    → length b ≡ 20
    → compare20 arch a b ≡ sign (memcmp a b 20)
unfolding compare20 compare20_scalar
compare20_lem sse2 a b h k = sse2_lem a b h k
compare20_lem neon a b h k = neon_lem a b h k
compare20_lem scalar a b h k = refl
