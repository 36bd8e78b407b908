-- ===== src/Ksuid/Base62/Encode.antt =====
-- The encoder writes the 27-digit base62 form of the big-endian number that it is given.
use native.Mathlib.Nat.{pow-suc, div-lt_iff_lt-mul, zero-add}
use libchronoid.Prelude.{
  ℕ, zero, suc, ◌+◌, ◌*◌, ◌/◌, ◌%◌, ◌^◌, ◌≤◌, ◌<◌, ◌≡◌, refl, sym, ap, ◌∙◌, ◌⊎◌, inl, inr, List, [],
  ◌∷◌, ◌++◌, some, arith, length, set, drop, map, map-append, append_assoc, replicate,
  replicate-append_self, length-set, drop-set, AllBelow, u32, u64, IsArray, AllBelow-drop,
  length-drop, drop-drop, drop-length, append-nil,
}
use libchronoid.Digits.{value, value_from, value-lt, digits}
use libchronoid.ByteOrder.{be32_load}
use libchronoid.ByteOrder.Laws.{be32_load-lt, value_from-be32_load}
use libchronoid.Digits.Division.{
  IsNormal, push, value_from-ge, long_divide, Divides, long_divide-Divides,
}
use libchronoid.Ksuid.Base62.Translate.{kb62_alphabet}
use libchronoid.Ksuid.Base62.Tables.{b62_char}
use libchronoid.Ksuid.Base62.{encode_divide, encode_loop, base62_encode}

no_wrap : (x r : ℕ) → x < 2 ^ 32 → r < 62 → u64 (x + u64 (r * 2 ^ 32)) ≡ x + r * 2 ^ 32
no_wrap x r hx hr = omega arith

no_cut : (x r : ℕ) → x < 2 ^ 32 → r < 62 → u32 ((x + r * 2 ^ 32) / 62) ≡ (x + r * 2 ^ 32) / 62
no_cut x r hx hr = omega arith

-- No operation of the inner loop wraps: it is long division of base-2^32 digits by 62.
encode_divide-long_divide :
    (xs bq : List ℕ) (r : ℕ)
    → AllBelow (2 ^ 32) xs
    → r < 62
    → encode_divide xs bq r ≡ long_divide (2 ^ 32) 62 xs bq r
unfolding encode_divide long_divide
encode_divide-long_divide [] bq r h lt = refl
encode_divide-long_divide (x ∷ xs) bq r h lt =
    rw (no_wrap x r h.0 lt, no_cut x r h.0 lt)
      (encode_divide-long_divide xs (push bq ((x + r * 2 ^ 32) / 62)) ((x + r * 2 ^ 32) % 62) h.1
        (omega arith))

digits-zero : (n : ℕ) → map b62_char (digits 62 n 0) ≡ replicate n b'0'
unfolding digits
digits-zero zero = refl
digits-zero (suc n) =
    rw (map-append, digits-zero n) unfold b62_char kb62_alphabet in replicate-append_self n b'0'

encode_loop-digits :
    (n : ℕ) (bp out : List ℕ)
    → AllBelow (2 ^ 32) bp
    → n ≤ length out
    → value (2 ^ 32) bp < 62 ^ n
    → (0 < n) ⊎ IsNormal bp
    → encode_loop n bp out ≡ some (map b62_char (digits 62 n (value (2 ^ 32) bp)) ++ drop n out)
unfolding encode_loop b62_char digits
encode_loop-digits n [] out h size lt more = rw (zero-add, digits-zero) refl
encode_loop-digits zero (x ∷ bp) out h size lt (inl more) = absurd (omega arith)
encode_loop-digits zero (x ∷ bp) out h size lt (inr more) =
    absurd (omega (arith, value_from-ge (2 ^ 32) (0 + x) bp (omega arith)))
encode_loop-digits (suc n) (x ∷ bp) out h size lt more =
    rw (encode_divide-long_divide (x ∷ bp) [] 0 h (omega arith), encode_loop)
      (encode_loop-digits n q (set out n (b62_char r)) D.below
          (rw (length-set out n (b62_char r)) (omega arith))
          (rw D.quotient_eq ((div-lt_iff_lt-mul (omega arith)).1 (rw (pow-suc 62 n) at lt)))
          (inr D.normal)
        ∙ ap some finish)
  where
    v : ℕ
    v = value (2 ^ 32) (x ∷ bp)

    q : List ℕ
    q = (long_divide (2 ^ 32) 62 (x ∷ bp) [] 0).0

    r : ℕ
    r = (long_divide (2 ^ 32) 62 (x ∷ bp) [] 0).1

    D : Divides (2 ^ 32) 62 (omega arith) (x ∷ bp) q r
    D = long_divide-Divides (2 ^ 32) 62 (omega arith) (x ∷ bp) h

    finish :
        map b62_char (digits 62 n (value (2 ^ 32) q)) ++ drop n (set out n (b62_char r))
        ≡ map b62_char (digits 62 n (v / 62) ++ (v % 62 ∷ [])) ++ drop (suc n) out
    finish =
        rw
          (
            map-append,
            append_assoc,
            drop-set n (b62_char r) out size,
            D.quotient_eq,
            D.remainder_eq,
          )
          refl

value_from-end : (a : ℕ) {t : List ℕ} → t ≡ [] → value_from 256 a t ≡ a
value_from-end a e = ap (λ t. value_from 256 a t) e

-- 20 bytes as five big-endian words.
abbrev pub limbs : List ℕ → List ℕ
limbs p =
    be32_load p
    ∷ be32_load (drop 4 p)
    ∷ be32_load (drop 8 p)
    ∷ be32_load (drop 12 p)
    ∷ be32_load (drop 16 p)
    ∷ []

limb-lt : (p : List ℕ) (n : ℕ) → IsArray 20 p → n + 4 ≤ 20 → be32_load (drop n p) < 2 ^ 32
limb-lt p n h fits =
    be32_load-lt (drop n p) (omega (arith, length-drop n p, h.size)) (AllBelow-drop 256 n p h.bytes)

pub limbs-AllBelow : (p : List ℕ) → IsArray 20 p → AllBelow (2 ^ 32) (limbs p)
limbs-AllBelow p h = (
  limb-lt p 0 h (omega arith),
  (
    limb-lt p 4 h (omega arith),
    (
      limb-lt p 8 h (omega arith),
      (limb-lt p 12 h (omega arith), (limb-lt p 16 h (omega arith), tt)),
    ),
  ),
)

pub limbs-value : (p : List ℕ) → IsArray 20 p → value (2 ^ 32) (limbs p) ≡ value 256 p
limbs-value p h = sym (
    step 0 0 (omega arith)
    ∙ step _ 4 (omega arith)
    ∙ step _ 8 (omega arith)
    ∙ step _ 12 (omega arith)
    ∙ step _ 16 (omega arith)
    ∙ value_from-end _ (drop-length p 20 (omega (arith, h.size))))
  where
    step :
        (a n : ℕ)
        → n + 4 ≤ 20
        → value_from 256 a (drop n p)
          ≡ value_from 256 (a * 2 ^ 32 + be32_load (drop n p)) (drop (n + 4) p)
    step a n fits =
        sym (
          value_from-be32_load a (drop n p) (omega (arith, length-drop n p, h.size))
            (AllBelow-drop 256 n p h.bytes))
        ∙ ap (λ t. value_from 256 (a * 2 ^ 32 + be32_load (drop n p)) t) (drop-drop 4 n p)

-- For 20 bytes and a buffer of 27, `chronoid_base62_encode` ends, stays inside the buffer, and
-- writes the 27 base62 digits of the number that the bytes stand for.
pub base62_encode-digits :
    (out input : List ℕ)
    → length out ≡ 27
    → IsArray 20 input
    → base62_encode out input ≡ some (map b62_char (digits 62 27 (value 256 input)))
unfolding base62_encode
base62_encode-digits out input size h =
    encode_loop-digits 27 (limbs input) out (limbs-AllBelow input h) (omega arith)
      (rw (limbs-value input h) (omega (arith, value-lt 256 20 input h.size h.bytes)))
      (inl (omega arith))
    ∙ rw (limbs-value input h, drop-length out 27 (omega arith), append-nil) refl
