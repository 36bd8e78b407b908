-- ===== src/Memory.antt =====
-- What the sources use of <string.h>: `memcpy` and `memset` at an offset of a destination, and
-- `memcmp`, as the sign of its result (the C standard fixes no more).
pub mod Order
use libchronoid.Prelude.{
  ℕ, zero, suc, ◌+◌, List, [], ◌∷◌, ◌++◌, take, drop, replicate, compare, Ordering, length,
  take-length, drop-length, append-nil, refl, ap, Bool-cases, inl, inr, ap₂, ◌∙◌, ◌≡◌, arith, Bool,
  true, false, ◌==◌, if◌then◌else◌,
}
use libchronoid.Prelude.Int.{ℤ, pos, negsuc}

-- `memcpy (dst + off, src, n)`.
abbrev pub memcpy : List ℕ → ℕ → List ℕ → ℕ → List ℕ
memcpy dst off src n = take off dst ++ (take n src ++ drop (off + n) dst)

-- A copy over a whole array leaves nothing of what it held.
pub memcpy-all :
    (dst src : List ℕ) (n : ℕ) → length dst ≡ n → length src ≡ n → memcpy dst 0 src n ≡ src
memcpy-all dst src n h k =
    ap₂ ◌++◌ (take-length src n k) (drop-length dst (0 + n) (omega arith)) ∙ append-nil src

-- `memset (dst + off, v, n)`.
abbrev pub memset : List ℕ → ℕ → ℕ → ℕ → List ℕ
memset dst off v n = take off dst ++ (replicate n v ++ drop (off + n) dst)

-- `memcmp (a, b, n)` over arrays that hold at least `n` bytes.
unfoldable pub memcmp : List ℕ → List ℕ → ℕ → Ordering
memcmp xs ys zero = Ordering.eq
memcmp [] ys (suc n) = Ordering.eq
memcmp (x ∷ xs) [] (suc n) = Ordering.eq
memcmp (x ∷ xs) (y ∷ ys) (suc n) = elim (compare x y) [
  | Ordering.lt ↦ Ordering.lt
  | Ordering.eq ↦ memcmp xs ys n
  | Ordering.gt ↦ Ordering.gt
]

-- -1, 0 or +1.
abbrev pub sign : Ordering → ℤ
sign Ordering.lt = negsuc 0
sign Ordering.eq = pos 0
sign Ordering.gt = pos 1

-- `strcmp (a, b) == 0`, for texts without their NUL.
unfoldable pub strcmp_is_zero : List ℕ → List ℕ → Bool
strcmp_is_zero [] [] = true
strcmp_is_zero [] (y ∷ ys) = false
strcmp_is_zero (x ∷ xs) [] = false
strcmp_is_zero (x ∷ xs) (y ∷ ys) = if x == y then strcmp_is_zero xs ys else false

pub strcmp_is_zero-same : (a : List ℕ) → strcmp_is_zero a a ≡ true
unfolding strcmp_is_zero
strcmp_is_zero-same [] = refl
strcmp_is_zero-same (x ∷ xs) = ground (arith, strcmp_is_zero-same xs)

pub same-strcmp_is_zero : (a b : List ℕ) → strcmp_is_zero a b ≡ true → a ≡ b
unfolding strcmp_is_zero
same-strcmp_is_zero [] [] e = refl
same-strcmp_is_zero [] (y ∷ ys) e = absurd (ground (arith, e))
same-strcmp_is_zero (x ∷ xs) [] e = absurd (ground (arith, e))
same-strcmp_is_zero (x ∷ xs) (y ∷ ys) e = elim (Bool-cases (x == y)) [
  | inl h ↦ ap₂ ◌∷◌ (ground (arith, h)) (same-strcmp_is_zero xs ys (ground (arith, h, e)))
  | inr h ↦ absurd (ground (arith, h, e))
]
