-- ===== src/ByteOrder/Laws.antt =====
-- The loads read a big-endian number, and the stores write one.
use libchronoid.Prelude.{
  ℕ, ◌+◌, ◌*◌, ◌^◌, ◌≤◌, ◌<◌, ◌≡◌, refl, ◌∙◌, List, [], ◌∷◌, ◌++◌, arith, length, take, drop,
  AllBelow, AllBelow-append, AllBelow-take, length-take, ap,
}
use libchronoid.Prelude.Bits.{bit_or_disjoint}
use libchronoid.Digits.{value, value_from, value-lt, digits, value-digits, digits-AllBelow}
use libchronoid.ByteOrder.{be32_load, be32_store, be64_load, be64_store}

pub be32_load-value :
    (p : List ℕ) → 4 ≤ length p → AllBelow 256 p → be32_load p ≡ value 256 (take 4 p)
unfolding be32_load
be32_load-value (a ∷ b ∷ c ∷ d ∷ p) h k = ground (
  arith,
  bit_or_disjoint 24 a (b * 2 ^ 16),
  bit_or_disjoint 16 (a * 256 + b) (c * 256),
  bit_or_disjoint 8 ((a * 256 + b) * 256 + c) d,
)
be32_load-value _ h k = absurd (omega arith)

pub be32_load-lt : (p : List ℕ) → 4 ≤ length p → AllBelow 256 p → be32_load p < 2 ^ 32
be32_load-lt p h k =
    rw (be32_load-value p h k)
      (value-lt 256 4 (take 4 p) (omega (arith, length-take 4 p)) (AllBelow-take 256 4 p k))

-- A byte array read four bytes at a time stands for the same number.
pub value_from-be32_load :
    (a : ℕ) (p : List ℕ)
    → 4 ≤ length p
    → AllBelow 256 p
    → value_from 256 (a * 2 ^ 32 + be32_load p) (drop 4 p) ≡ value_from 256 a p
value_from-be32_load a (x ∷ y ∷ z ∷ w ∷ p) h k =
    rw (be32_load-value (x ∷ y ∷ z ∷ w ∷ p) h k)
      (ap (λ t. value_from 256 t p) {x = a * 2 ^ 32 + value 256 (x ∷ y ∷ z ∷ w ∷ [])} (omega arith))
value_from-be32_load a _ h k = absurd (omega arith)

pub be32_store-digits :
    (p : List ℕ) (v : ℕ) → 4 ≤ length p → be32_store p v ≡ digits 256 4 v ++ drop 4 p
unfolding be32_store digits
be32_store-digits (a ∷ b ∷ c ∷ d ∷ p) v h = ground arith
be32_store-digits _ v h = absurd (omega arith)

pub be64_load-value :
    (p : List ℕ) → 8 ≤ length p → AllBelow 256 p → be64_load p ≡ value 256 (take 8 p)
unfolding be64_load
be64_load-value (a ∷ b ∷ c ∷ d ∷ e ∷ f ∷ g ∷ i ∷ p) h k = ground (
  arith,
  bit_or_disjoint 56 a (b * 2 ^ 48),
  bit_or_disjoint 48 (value 256 (a ∷ b ∷ [])) (c * 2 ^ 40),
  bit_or_disjoint 40 (value 256 (a ∷ b ∷ c ∷ [])) (d * 2 ^ 32),
  bit_or_disjoint 32 (value 256 (a ∷ b ∷ c ∷ d ∷ [])) (e * 2 ^ 24),
  bit_or_disjoint 24 (value 256 (a ∷ b ∷ c ∷ d ∷ e ∷ [])) (f * 2 ^ 16),
  bit_or_disjoint 16 (value 256 (a ∷ b ∷ c ∷ d ∷ e ∷ f ∷ [])) (g * 2 ^ 8),
  bit_or_disjoint 8 (value 256 (a ∷ b ∷ c ∷ d ∷ e ∷ f ∷ g ∷ [])) i,
)
be64_load-value _ h k = absurd (omega arith)

pub be64_store-digits :
    (p : List ℕ) (v : ℕ) → 8 ≤ length p → be64_store p v ≡ digits 256 8 v ++ drop 8 p
unfolding be64_store digits
be64_store-digits (a ∷ b ∷ c ∷ d ∷ e ∷ f ∷ g ∷ i ∷ p) v h = ground arith
be64_store-digits _ v h = absurd (omega arith)

-- What a store wrote, a load reads back, and the bytes behind it are kept.
pub be32_load-store :
    (p : List ℕ) (v : ℕ)
    → 4 ≤ length p
    → AllBelow 256 p
    → v < 2 ^ 32
    → (be32_load (be32_store p v) ≡ v) × (drop 4 (be32_store p v) ≡ drop 4 p)
unfolding digits
be32_load-store (a ∷ b ∷ c ∷ d ∷ p) v h below k = (
  rw (be32_store-digits (a ∷ b ∷ c ∷ d ∷ p) v h) (
      be32_load-value (digits 256 4 v ++ p) (omega arith) (
        AllBelow-append 256 (digits 256 4 v) p (digits-AllBelow 256 4 v (omega arith))
          below.1.1.1.1)
      ∙ value-digits 256 4 v (omega arith) k),
  rw (be32_store-digits (a ∷ b ∷ c ∷ d ∷ p) v h) refl,
)
be32_load-store _ v h below k = absurd (omega arith)
