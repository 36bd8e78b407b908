-- ===== src/Memory/Order.antt =====
-- `memcmp` orders arrays of one length as the big-endian numbers that they stand for.
use native.Mathlib.Nat.{mul-le-mul_right, add-mul}
use libchronoid.Prelude.{
  ℕ, zero, suc, ◌+◌, ◌*◌, ◌<◌, ◌≡◌, refl, map, List, [], ◌∷◌, arith, length, AllBelow, compare,
}
use libchronoid.Digits.{value, value_from}
use libchronoid.Memory.{memcmp}

-- Digits below `b` behind `a` stand for less than the same digits behind `a + 1`.
pub value_from-bounds :
    (b a c : ℕ) (xs ys : List ℕ)
    → length xs ≡ length ys
    → AllBelow b xs
    → a < c
    → value_from b a xs < value_from b c ys
value_from-bounds b a c [] [] e h lt = lt
value_from-bounds b a c [] (y ∷ ys) e h lt = absurd (omega arith)
value_from-bounds b a c (x ∷ xs) [] e h lt = absurd (omega arith)
value_from-bounds b a c (x ∷ xs) (y ∷ ys) e h lt =
    value_from-bounds b (a * b + x) (c * b + y) xs ys (omega arith) h.1
      (omega (arith, mul-le-mul_right b lt, add-mul a 1 b))

memcmp-value_from :
    (b a : ℕ) (xs ys : List ℕ) (n : ℕ)
    → length xs ≡ n
    → length ys ≡ n
    → AllBelow b xs
    → AllBelow b ys
    → memcmp xs ys n ≡ compare (value_from b a xs) (value_from b a ys)
unfolding memcmp
memcmp-value_from b a [] [] zero e f h k = ground arith
memcmp-value_from b a [] ys (suc n) e f h k = absurd (omega arith)
memcmp-value_from b a [] (y ∷ ys) zero e f h k = absurd (omega arith)
memcmp-value_from b a (x ∷ xs) ys zero e f h k = absurd (omega arith)
memcmp-value_from b a (x ∷ xs) [] (suc n) e f h k = absurd (omega arith)
memcmp-value_from b a (x ∷ xs) (y ∷ ys) (suc n) e f h k = ground (
  arith,
  value_from-bounds b (a * b + x) (a * b + y) xs ys,
  value_from-bounds b (a * b + y) (a * b + x) ys xs,
  memcmp-value_from b (a * b + x) xs ys n,
)

-- Arrays of `n` digits compare as the numbers that they stand for.
pub memcmp-value :
    (b n : ℕ) (xs ys : List ℕ)
    → length xs ≡ n
    → length ys ≡ n
    → AllBelow b xs
    → AllBelow b ys
    → memcmp xs ys n ≡ compare (value b xs) (value b ys)
memcmp-value b n xs ys = memcmp-value_from b 0 xs ys n

-- An increasing translation of the digits does not change the order.
pub memcmp-map :
    (b : ℕ) (f : ℕ → ℕ)
    → ((x y : ℕ) → x < y → y < b → f x < f y)
    → (xs ys : List ℕ) (n : ℕ) → AllBelow b xs
    → AllBelow b ys
    → memcmp (map f xs) (map f ys) n ≡ memcmp xs ys n
unfolding memcmp
memcmp-map b f mono [] [] zero h k = refl
memcmp-map b f mono [] ys (suc n) h k = refl
memcmp-map b f mono [] (y ∷ ys) zero h k = refl
memcmp-map b f mono (x ∷ xs) ys zero h k = refl
memcmp-map b f mono (x ∷ xs) [] (suc n) h k = refl
memcmp-map b f mono (x ∷ xs) (y ∷ ys) (suc n) h k =
    ground (arith, mono x y, mono y x, memcmp-map b f mono xs ys n)
