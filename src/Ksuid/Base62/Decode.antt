-- ===== src/Ksuid/Base62/Decode.antt =====
-- The decoder reads a 27-digit base62 number, and accepts exactly what fits 20 bytes.
use native.Mathlib.Nat.{pow-suc, div-lt_iff_lt-mul, le-div_iff_mul-le, zero-add, one-le-pow}
use libchronoid.Prelude.{
  ℕ, zero, suc, ◌+◌, ◌*◌, ◌/◌, ◌%◌, ◌^◌, ◌≤◌, ◌<◌, ◌≡◌, refl, ap, ap₂, ◌∙◌, ◌⊎◌, inl, inr, List, [],
  ◌∷◌, ◌++◌, arith, length, drop, append_assoc, replicate, replicate-append_self, length-set,
  drop-set_add, drop-set_at, AllBelow, u8, u64, length-drop, drop-drop,
}
use libchronoid.Digits.{value, digits}
use libchronoid.Digits.Division.{
  IsNormal, push, value_from-ge, long_divide, Divides, long_divide-Divides,
}
use libchronoid.ByteOrder.{be32_store}
use libchronoid.ByteOrder.Laws.{be32_store-digits}
use libchronoid.Ksuid.Types.{ok, err_str_value}
use libchronoid.Ksuid.Base62.{decode_divide, decode_loop, put_limb}

no_wrap : (x r : ℕ) → x < 62 → r < 2 ^ 32 → u64 (x + u64 (r * 62)) ≡ x + r * 62
no_wrap x r hx hr = omega arith

no_cut : (x r : ℕ) → x < 62 → r < 2 ^ 32 → u8 ((x + r * 62) / 2 ^ 32) ≡ (x + r * 62) / 2 ^ 32
no_cut x r hx hr = omega arith

-- No operation of the inner loop wraps: it is long division of base62 digits by 2 ^ 32.
decode_divide-long_divide :
    (xs bq : List ℕ) (r : ℕ)
    → AllBelow 62 xs
    → r < 2 ^ 32
    → decode_divide xs bq r ≡ long_divide 62 (2 ^ 32) xs bq r
unfolding decode_divide long_divide
decode_divide-long_divide [] bq r h lt = refl
decode_divide-long_divide (x ∷ xs) bq r h lt =
    rw (no_wrap x r h.0 lt, no_cut x r h.0 lt)
      (decode_divide-long_divide xs (push bq ((x + r * 62) / 2 ^ 32)) ((x + r * 62) % 2 ^ 32) h.1
        (omega arith))

length-put_limb : (out : List ℕ) (n v : ℕ) → length (put_limb out n v) ≡ length out
unfolding put_limb
length-put_limb out n v = simp length-set

drop-put_limb :
    (out : List ℕ) (n v : ℕ)
    → suc (suc (suc (suc n))) ≤ length out
    → drop n (put_limb out n v) ≡ digits 256 4 v ++ drop (suc (suc (suc (suc n)))) out
unfolding put_limb be32_store
drop-put_limb out n v h =
    rw (drop-set_add, drop-set_add, drop-set_add, drop-set_at)
      (be32_store-digits (drop n out) v (omega (arith, length-drop n out))
        ∙ ap (λ t. digits 256 4 v ++ t)
            (drop-drop 4 n out
              ∙ ap (λ k. drop k out) {x = n + 4} {y = suc (suc (suc (suc n)))} (omega arith)))

digits-zero : (n : ℕ) → digits 256 n 0 ≡ replicate n 0
unfolding digits
digits-zero zero = refl
digits-zero (suc n) = rw (digits-zero n) (replicate-append_self n 0)

-- The base-256 digits of a number, four at a time.
digits-limb :
    (n v : ℕ)
    → digits 256 (suc (suc (suc (suc n)))) v
      ≡ digits 256 n (v / 2 ^ 32) ++ digits 256 4 (v % 2 ^ 32)
unfolding digits
digits-limb n v = simp append_assoc (
    ap₂ ◌++◌ (ap (λ t. digits 256 n t) {x = v / 256 / 256 / 256 / 256} (omega arith))
      (ground arith))

pow-limb : (n : ℕ) → 256 ^ suc (suc (suc (suc n))) ≡ 256 ^ n * 2 ^ 32
pow-limb n = omega (
  arith,
  pow-suc 256 (suc (suc (suc n))),
  pow-suc 256 (suc (suc n)),
  pow-suc 256 (suc n),
  pow-suc 256 n,
)

-- A number that fits `n` bytes is written into them.
pub decode_loop-digits :
    (n : ℕ) (bp out : List ℕ)
    → n % 4 ≡ 0
    → AllBelow 62 bp
    → n ≤ length out
    → value 62 bp < 256 ^ n
    → (0 < n) ⊎ IsNormal bp
    → decode_loop n bp out ≡ (ok, digits 256 n (value 62 bp) ++ drop n out)
unfolding decode_loop
decode_loop-digits n [] out m h size lt more = rw (zero-add, digits-zero) refl
decode_loop-digits zero (x ∷ bp) out m h size lt (inl more) = absurd (omega arith)
decode_loop-digits zero (x ∷ bp) out m h size lt (inr more) =
    absurd (omega (arith, value_from-ge 62 (0 + x) bp (omega arith)))
decode_loop-digits (suc zero) (x ∷ bp) out m h size lt more = absurd (omega arith)
decode_loop-digits (suc (suc zero)) (x ∷ bp) out m h size lt more = absurd (omega arith)
decode_loop-digits (suc (suc (suc zero))) (x ∷ bp) out m h size lt more = absurd (omega arith)
decode_loop-digits (suc (suc (suc (suc n)))) (x ∷ bp) out m h size lt more =
    rw (decode_divide-long_divide (x ∷ bp) [] 0 h (omega arith), decode_loop)
      (decode_loop-digits n q (put_limb out n r) (omega arith) D.below
          (rw (length-put_limb out n r) (omega arith))
          (rw D.quotient_eq ((div-lt_iff_lt-mul (omega arith)).1 (rw (pow-limb n) at lt)))
          (inr D.normal)
        ∙ ap (λ t. (ok, t)) finish)
  where
    v : ℕ
    v = value 62 (x ∷ bp)

    q : List ℕ
    q = (long_divide 62 (2 ^ 32) (x ∷ bp) [] 0).0

    r : ℕ
    r = (long_divide 62 (2 ^ 32) (x ∷ bp) [] 0).1

    D : Divides 62 (2 ^ 32) (omega arith) (x ∷ bp) q r
    D = long_divide-Divides 62 (2 ^ 32) (omega arith) (x ∷ bp) h

    finish :
        digits 256 n (value 62 q) ++ drop n (put_limb out n r)
        ≡ digits 256 (suc (suc (suc (suc n)))) v ++ drop (suc (suc (suc (suc n)))) out
    finish =
        rw (digits-limb, append_assoc, drop-put_limb out n r size, D.quotient_eq, D.remainder_eq)
          refl

-- A number that does not fit is refused.
pub decode_loop-overflow :
    (n : ℕ) (bp out : List ℕ)
    → n % 4 ≡ 0
    → AllBelow 62 bp
    → 256 ^ n ≤ value 62 bp
    → (decode_loop n bp out).0 ≡ err_str_value
unfolding decode_loop
decode_loop-overflow n [] out m h big = absurd (omega (arith, one-le-pow n 256))
decode_loop-overflow zero (x ∷ bp) out m h big = refl
decode_loop-overflow (suc zero) (x ∷ bp) out m h big = refl
decode_loop-overflow (suc (suc zero)) (x ∷ bp) out m h big = refl
decode_loop-overflow (suc (suc (suc zero))) (x ∷ bp) out m h big = refl
decode_loop-overflow (suc (suc (suc (suc n)))) (x ∷ bp) out m h big =
    rw (decode_divide-long_divide (x ∷ bp) [] 0 h (omega arith), decode_loop)
      (decode_loop-overflow n q (put_limb out n r) (omega arith) D.below
        (rw D.quotient_eq ((le-div_iff_mul-le (omega arith)).1 (rw (pow-limb n) at big))))
  where
    q : List ℕ
    q = (long_divide 62 (2 ^ 32) (x ∷ bp) [] 0).0

    r : ℕ
    r = (long_divide 62 (2 ^ 32) (x ∷ bp) [] 0).1

    D : Divides 62 (2 ^ 32) (omega arith) (x ∷ bp) q r
    D = long_divide-Divides 62 (2 ^ 32) (omega arith) (x ∷ bp) h
