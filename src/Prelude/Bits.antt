-- ===== src/Prelude/Bits.antt =====
-- `&` with a low mask, `|` of fields that do not overlap, as arithmetic.
use Prim.Native.Nat.{ℕ, zero, suc, ◌+◌, ◌-◌, ◌*◌, ◌/◌, ◌%◌, ◌^◌, ◌≤◌, ◌<◌, min, max}
use Prim.Native.Nat.{bit_and, bit_or, digits, bitwise, bit_and-bitwise, bit_or-bitwise}
use mathlib.Core.Path.{◌≡◌, refl, sym, ap, ◌∙◌}
use native.Mathlib.Nat.{pow-suc, one-le-pow, mod-lt, div-add-mod'}
use native.Mathlib.Omega.{arith}

-- The native operations run over the binary digits of `a` with a count of rounds. What they do at
-- the last round is `z`, and `f` is the operation on two digits.
module _ (z : ℕ → ℕ) (f : ℕ → ℕ → ℕ) where
  at_zero : (rounds y : ℕ) → digits z f rounds 0 y ≡ z y
  at_zero zero y = refl
  at_zero (suc rounds) y = refl

  -- Rounds beyond the number itself change nothing.
  spare :
      (x rounds more y : ℕ) → x ≤ rounds → digits z f (rounds + more) x y ≡ digits z f rounds x y
  spare zero rounds more y _ = at_zero (rounds + more) y ∙ sym (at_zero rounds y)
  spare (suc x) zero more y le = absurd (omega (arith, le))
  spare (suc x) (suc rounds) more y le =
      ap (λ r. digits z f r (suc x) y) {y = suc (rounds + more)} (omega arith)
      ∙ ap (λ d. d * 2 + f (suc x % 2) (y % 2))
          (spare (suc x / 2) rounds more (y / 2) (omega (arith, le)))

  halve :
      ((y : ℕ) → z y ≡ z (y / 2) * 2 + f 0 (y % 2))
      → (x y : ℕ) → bitwise z f x y ≡ bitwise z f (x / 2) (y / 2) * 2 + f (x % 2) (y % 2)
  halve last zero y = last y
  halve last (suc x) y =
      ap (λ d. d * 2 + f (suc x % 2) (y % 2))
        (ap (λ r. digits z f r (suc x / 2) (y / 2)) {y = suc x / 2 + (x - suc x / 2)} (omega arith)
          ∙ spare (suc x / 2) (suc x / 2) (x - suc x / 2) (y / 2) (omega arith))

  -- Beside a 0 every round does the same.
  beside_zero :
      (g : ℕ → ℕ)
      → z 0 ≡ g 0
      → ((x : ℕ) → g (suc x / 2) * 2 + f (suc x % 2) 0 ≡ g (suc x))
      → (rounds x : ℕ) → x < suc rounds
      → digits z f rounds x 0 ≡ g x
  beside_zero g base round rounds zero _ = at_zero rounds 0 ∙ base
  beside_zero g base round zero (suc x) lt = absurd (omega (arith, lt))
  beside_zero g base round (suc rounds) (suc x) lt =
      ap (λ d. d * 2 + f (suc x % 2) 0)
        (beside_zero g base round rounds (suc x / 2) (omega (arith, lt)))
      ∙ round x

-- One equation for the lowest digit.
or_halve : (x y : ℕ) → bit_or x y ≡ bit_or (x / 2) (y / 2) * 2 + max (x % 2) (y % 2)
or_halve x y = omega (
  arith,
  bit_or-bitwise x y,
  bit_or-bitwise (x / 2) (y / 2),
  halve (λ y. y) max (λ y. omega arith) x y,
)

and_halve : (x y : ℕ) → bit_and x y ≡ bit_and (x / 2) (y / 2) * 2 + min (x % 2) (y % 2)
and_halve x y = omega (
  arith,
  bit_and-bitwise x y,
  bit_and-bitwise (x / 2) (y / 2),
  halve (λ _. 0) min (λ y. omega arith) x y,
)

or-zero : (x : ℕ) → bit_or x 0 ≡ x
or-zero x =
    bit_or-bitwise x 0 ∙ beside_zero (λ y. y) max (λ x. x) refl (λ x. omega arith) x x (omega arith)

and-zero : (x : ℕ) → bit_and x 0 ≡ 0
and-zero x =
    bit_and-bitwise x 0
    ∙ beside_zero (λ _. 0) min (λ _. 0) refl (λ x. omega arith) x x (omega arith)

-- `(q << k) | r` is a sum when `r` has at most `k` bits.
pub bit_or_disjoint : (k q r : ℕ) → r < 2 ^ k → bit_or (q * 2 ^ k) r ≡ q * 2 ^ k + r
bit_or_disjoint zero q r h = ground (arith, or-zero q)
bit_or_disjoint (suc k) q r h = ground (
  arith,
  or_halve (q * 2 ^ suc k) r,
  ap (λ (t : ℕ). q * t) (pow-suc 2 k),
  bit_or_disjoint k q (r / 2) (omega arith),
)

zero-or : (x : ℕ) → bit_or 0 x ≡ x
zero-or x = bit_or-bitwise 0 x

-- The same, with the low field first.
pub bit_or_disjoint_low : (k q r : ℕ) → r < 2 ^ k → bit_or r (q * 2 ^ k) ≡ q * 2 ^ k + r
bit_or_disjoint_low zero q zero h = ground (arith, zero-or (q * 1))
bit_or_disjoint_low zero q (suc r) h = absurd (omega arith)
bit_or_disjoint_low (suc k) q r h = ground (
  arith,
  or_halve r (q * 2 ^ suc k),
  ap (λ (t : ℕ). q * t) (pow-suc 2 k),
  bit_or_disjoint_low k q (r / 2) (omega arith),
)

-- A mask of `k` low bits keeps the low field.
bit_and_low_field : (k q r : ℕ) → r < 2 ^ k → bit_and (q * 2 ^ k + r) (2 ^ k - 1) ≡ r
bit_and_low_field zero q r h = omega (arith, and-zero (q * 1 + r))
bit_and_low_field (suc k) q r h = ground (
  arith,
  and_halve (q * 2 ^ suc k + r) (2 ^ suc k - 1),
  ap (λ (t : ℕ). q * t) (pow-suc 2 k),
  pow-suc 2 k,
  one-le-pow k 2,
  bit_and_low_field k q (r / 2) (omega (arith, pow-suc 2 k)),
)

-- `a & (2^k - 1)` is the remainder by `2^k`.
pub bit_and_mask : (k a : ℕ) → bit_and a (2 ^ k - 1) ≡ a % 2 ^ k
bit_and_mask k a =
    rw (div-add-mod' a (2 ^ k)) at
      (bit_and_low_field k (a / 2 ^ k) (a % 2 ^ k) (mod-lt a (one-le-pow k 2 (omega arith))))

-- Bit 5, and bits 1 and 2.
pub bit_and_0x20 : (a : ℕ) → bit_and a 0x20 ≡ a / 32 % 2 * 32
bit_and_0x20 a = omega (
  arith,
  and_halve a 32,
  and_halve (a / 2) 16,
  and_halve (a / 2 / 2) 8,
  and_halve (a / 2 / 2 / 2) 4,
  and_halve (a / 2 / 2 / 2 / 2) 2,
  and_halve (a / 2 / 2 / 2 / 2 / 2) 1,
  and-zero (a / 2 / 2 / 2 / 2 / 2 / 2),
)

pub bit_and_6 : (a : ℕ) → bit_and a 6 ≡ a / 2 % 4 * 2
bit_and_6 a =
    omega
      (arith, and_halve a 6, and_halve (a / 2) 3, and_halve (a / 2 / 2) 1, and-zero (a / 2 / 2 / 2))
