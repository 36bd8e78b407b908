-- ===== src/Digits.antt =====
-- Numbers as lists of digits, most significant first: the independent description against which
-- the codecs, the byte order helpers and the comparisons are stated. No code of the repository is
-- modelled here.
pub mod Division
use native.Mathlib.Nat.{
  mul-add-div_right, mul-add-mod_self_right, div-eq_of_lt, mod-eq_of_lt, add-zero,
}
use native.Mathlib.Nat.{
  lt_of_lt_of_le, le_trans, mul-le-mul_right, add-mul, pow-succ', mul_assoc, one-mul,
}
use native.Mathlib.Nat.{mod-lt, div-add-mod', pow-zero, pow-suc, div-lt_iff_lt-mul}
use libchronoid.Prelude.{
  ℕ, zero, suc, ◌+◌, ◌*◌, ◌/◌, ◌%◌, ◌^◌, ◌<◌, ◌≡◌, refl, sym, ap, ◌∙◌, List, [], ◌∷◌, ◌++◌,
  append-nil, append_assoc, arith, length, length-append, AllBelow, AllBelow-append,
}

-- The number that the digits `xs` stand for in base `b`, behind leading digits worth `a`.
abbrev pub value_from : ℕ → ℕ → List ℕ → ℕ
value_from b a [] = a
value_from b a (x ∷ xs) = value_from b (a * b + x) xs

abbrev pub value : ℕ → List ℕ → ℕ
value b xs = value_from b 0 xs

-- The last `n` digits of `v` in base `b`, with leading zeros.
unfoldable pub digits : ℕ → ℕ → ℕ → List ℕ
digits b zero v = []
digits b (suc n) v = digits b n (v / b) ++ (v % b ∷ [])

pub value_from-append :
    (b a : ℕ) (xs ys : List ℕ) → value_from b a (xs ++ ys) ≡ value_from b (value_from b a xs) ys
value_from-append b a [] ys = refl
value_from-append b a (x ∷ xs) ys = value_from-append b (a * b + x) xs ys

pub length-digits : (b n v : ℕ) → length (digits b n v) ≡ n
unfolding digits
length-digits b zero v = refl
length-digits b (suc n) v =
    omega (arith, length-append (digits b n (v / b)) (v % b ∷ []), length-digits b n (v / b))

pub digits-AllBelow : (b n v : ℕ) → 0 < b → AllBelow b (digits b n v)
unfolding digits
digits-AllBelow b zero v h = tt
digits-AllBelow b (suc n) v h =
    AllBelow-append b (digits b n (v / b)) (v % b ∷ []) (digits-AllBelow b n (v / b) h)
      (mod-lt v h, tt)

-- The digits of a number that fits stand for it.
pub value-digits : (b n v : ℕ) → 0 < b → v < b ^ n → value b (digits b n v) ≡ v
unfolding digits
value-digits b zero v h lt = omega (arith, pow-zero b)
value-digits b (suc n) v h lt =
    value_from-append b 0 (digits b n (v / b)) (v % b ∷ [])
    ∙ rw (value-digits b n (v / b) h ((div-lt_iff_lt-mul h).1 (rw (pow-suc b n) at lt)))
        (div-add-mod' v b)

pub quotient : (b a x : ℕ) → x < b → (a * b + x) / b ≡ a
quotient b a x h = mul-add-div_right (omega arith) a x ∙ omega (arith, div-eq_of_lt h)

pub remainder : (b a x : ℕ) → x < b → (a * b + x) % b ≡ x
remainder b a x h = mul-add-mod_self_right a b x ∙ mod-eq_of_lt h

value_from-lt :
    (b a : ℕ) (xs : List ℕ) → AllBelow b xs → value_from b a xs < (a + 1) * b ^ length xs
value_from-lt b a [] h = omega (arith, ap (λ (t : ℕ). (a + 1) * t) (pow-zero b))
value_from-lt b a (x ∷ xs) h = lt_of_lt_of_le (value_from-lt b (a * b + x) xs h.1) (
    le_trans (mul-le-mul_right {m = a * b + x + 1} {n = (a + 1) * b} (b ^ length xs) (omega arith))
      (omega (
        arith,
        ap (λ (t : ℕ). (a + 1) * t) (pow-succ' b (length xs)),
        mul_assoc (a + 1) b (b ^ length xs),
      )))

-- `n` digits stand for a number below `b ^ n`.
pub value-lt : (b n : ℕ) (xs : List ℕ) → length xs ≡ n → AllBelow b xs → value b xs < b ^ n
value-lt b n xs e h = rw e at (rw one-mul at (value_from-lt b 0 xs h))

digits-ap : (b v : ℕ) {n m : ℕ} → n ≡ m → digits b n v ≡ digits b m v
digits-ap b v e = ap (λ k. digits b k v) e

digits-value_from :
    (b n a : ℕ) (xs : List ℕ)
    → 0 < b
    → AllBelow b xs
    → digits b (n + length xs) (value_from b a xs) ≡ digits b n a ++ xs
unfolding digits
digits-value_from b n a [] h below = digits-ap b a (add-zero n) ∙ sym (append-nil _)
digits-value_from b n a (x ∷ xs) h below =
    digits-ap b (value_from b (a * b + x) xs) {n = n + suc (length xs)} {m = suc n + length xs}
      (omega arith)
    ∙ digits-value_from b (suc n) (a * b + x) xs h below.1
    ∙ rw (quotient b a x below.0, remainder b a x below.0) (append_assoc (digits b n a) (x ∷ []) xs)

-- Digits are the digits of the number that they stand for.
pub digits-value :
    (b : ℕ) (xs : List ℕ) → 0 < b → AllBelow b xs → digits b (length xs) (value b xs) ≡ xs
unfolding digits
digits-value b xs h below =
    digits-ap b (value b xs) {n = length xs} {m = 0 + length xs} (omega arith)
    ∙ digits-value_from b 0 0 xs h below
