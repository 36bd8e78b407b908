-- ===== src/Digits/Division.antt =====
-- Schoolbook long division of a digit list by a small number, with the leading zeros of the
-- quotient left out: the description that both base62 loops are compared with.
use native.Mathlib.Nat.{
  mod-lt, div-add-mod', add-mul, div-lt_iff_lt-mul, le-mul_of_pos_right, le_trans,
}
use native.Mathlib.Nat.{mul-le-mul_right}
use libchronoid.Prelude.{
  ℕ, zero, suc, ◌+◌, ◌*◌, ◌/◌, ◌%◌, ◌≤◌, ◌<◌, ◌≡◌, refl, sym, ap, ◌∙◌, List, [], ◌∷◌, ◌++◌, not,
  ◌||◌, ◌==◌, if◌then◌else◌, arith, length, AllBelow, AllBelow-append,
}
use libchronoid.Digits.{value, value_from, value_from-append, quotient, remainder}

-- No leading zero.
abbrev pub IsNormal : List ℕ → Type 0
IsNormal [] = Unit
IsNormal (x ∷ xs) = 0 < x

-- A digit joins the quotient unless it would be its leading zero.
abbrev pub push : List ℕ → ℕ → List ℕ
push bq q = if not (length bq == 0) || not (q == 0) then bq ++ (q ∷ []) else bq

unfoldable pub long_divide : ℕ → ℕ → List ℕ → List ℕ → ℕ → List ℕ × ℕ
long_divide b d [] bq r = (bq, r)
long_divide b d (x ∷ xs) bq r = long_divide b d xs (push bq ((x + r * b) / d)) ((x + r * b) % d)

push-nil : (q : ℕ) → push [] (suc q) ≡ suc q ∷ []
push-nil q = ground arith

push-cons : (y : ℕ) (ys : List ℕ) (q : ℕ) → push (y ∷ ys) q ≡ y ∷ (ys ++ (q ∷ []))
push-cons y ys q = ground arith

value-push : (b : ℕ) (bq : List ℕ) (q : ℕ) → value b (push bq q) ≡ value b bq * b + q
value-push b [] zero = omega arith
value-push b [] (suc q) = rw (push-nil q)
value-push b (y ∷ ys) q = rw (push-cons y ys q) (value_from-append b 0 (y ∷ ys) (q ∷ []))

push-AllBelow : (b : ℕ) (bq : List ℕ) (q : ℕ) → q < b → AllBelow b bq → AllBelow b (push bq q)
push-AllBelow b [] zero h k = tt
push-AllBelow b [] (suc q) h k = rw (push-nil q) (h, tt)
push-AllBelow b (y ∷ ys) q h k =
    rw (push-cons y ys q) (AllBelow-append b (y ∷ ys) (q ∷ []) k (h, tt))

push-IsNormal : (bq : List ℕ) (q : ℕ) → IsNormal bq → IsNormal (push bq q)
push-IsNormal [] zero h = tt
push-IsNormal [] (suc q) h = rw (push-nil q) (omega arith)
push-IsNormal (y ∷ ys) q h = rw (push-cons y ys q) h

pub value_from-ge : (b a : ℕ) (xs : List ℕ) → 0 < b → a ≤ value_from b a xs
value_from-ge b a [] h = omega arith
value_from-ge b a (x ∷ xs) h =
    le_trans (le-mul_of_pos_right a h) (le_trans (omega arith) (value_from-ge b (a * b + x) xs h))

pub IsNormal-value : (b : ℕ) (xs : List ℕ) → 0 < b → IsNormal xs → value b xs ≡ 0 → xs ≡ []
IsNormal-value b [] h n e = refl
IsNormal-value b (x ∷ xs) h n e = absurd (omega (arith, value_from-ge b (0 * b + x) xs h))

module _ (b d : ℕ) (pos_d : 0 < d) where
  -- The digits read so far are worth quotient times divisor plus remainder.
  long_divide-value :
      (xs bq : List ℕ) (r : ℕ)
      → let (bq', r') = long_divide b d xs bq r in
        value b bq' * d + r' ≡ value_from b (value b bq * d + r) xs
  unfolding long_divide
  long_divide-value [] bq r = refl
  long_divide-value (x ∷ xs) bq r =
      long_divide-value xs (push bq ((x + r * b) / d)) ((x + r * b) % d)
      ∙ ap (λ a. value_from b a xs) step
    where
      step :
          value b (push bq ((x + r * b) / d)) * d + (x + r * b) % d ≡ (value b bq * d + r) * b + x
      step = omega (
        arith,
        ap (λ (t : ℕ). t * d) (value-push b bq ((x + r * b) / d)),
        div-add-mod' (x + r * b) d,
      )

  long_divide-lt : (xs bq : List ℕ) (r : ℕ) → r < d → (long_divide b d xs bq r).1 < d
  unfolding long_divide
  long_divide-lt [] bq r h = h
  long_divide-lt (x ∷ xs) bq r h =
      long_divide-lt xs (push bq ((x + r * b) / d)) ((x + r * b) % d) (mod-lt (x + r * b) pos_d)

  pub step-lt : (x r : ℕ) → x < b → r < d → x + r * b < b * d
  step-lt x r hx hr = omega (arith, mul-le-mul_right b hr, add-mul r 1 b)

  long_divide-AllBelow :
      (xs bq : List ℕ) (r : ℕ)
      → r < d
      → AllBelow b xs
      → AllBelow b bq
      → AllBelow b (long_divide b d xs bq r).0
  unfolding long_divide
  long_divide-AllBelow [] bq r h hx hq = hq
  long_divide-AllBelow (x ∷ xs) bq r h hx hq =
      long_divide-AllBelow xs (push bq ((x + r * b) / d)) ((x + r * b) % d)
        (mod-lt (x + r * b) pos_d) hx.1
        (push-AllBelow b bq ((x + r * b) / d) ((div-lt_iff_lt-mul pos_d).1 (step-lt x r hx.0 h)) hq)

  long_divide-IsNormal :
      (xs bq : List ℕ) (r : ℕ) → IsNormal bq → IsNormal (long_divide b d xs bq r).0
  unfolding long_divide
  long_divide-IsNormal [] bq r h = h
  long_divide-IsNormal (x ∷ xs) bq r h =
      long_divide-IsNormal xs (push bq ((x + r * b) / d)) ((x + r * b) % d)
        (push-IsNormal bq ((x + r * b) / d) h)

  -- What one round of an encoder or decoder gets from the division of a digit list.
  pub record Divides (xs bq : List ℕ) (r : ℕ) : Type 0 where
    pub quotient_eq : value b bq ≡ value b xs / d
    pub remainder_eq : r ≡ value b xs % d
    pub below : AllBelow b bq
    pub normal : IsNormal bq

  pub long_divide-Divides :
      (xs : List ℕ) → AllBelow b xs → let (bq, r) = long_divide b d xs [] 0 in Divides xs bq r
  long_divide-Divides xs h = record {
    quotient_eq = sym (ap (λ t. t / d) (sym total) ∙ quotient d (value b bq) r lt);
    remainder_eq = sym (ap (λ t. t % d) (sym total) ∙ remainder d (value b bq) r lt);
    below = long_divide-AllBelow xs [] 0 pos_d h tt;
    normal = long_divide-IsNormal xs [] 0 tt;
  }
    where
      bq : List ℕ
      bq = (long_divide b d xs [] 0).0

      r : ℕ
      r = (long_divide b d xs [] 0).1

      lt : r < d
      lt = long_divide-lt xs [] 0 pos_d

      total : value b bq * d + r ≡ value b xs
      total = long_divide-value xs [] 0 ∙ ap (λ a. value_from b a xs) {x = 0 * d + 0} (omega arith)
