-- ===== src/Ksuid/Base62/RoundTrip.antt =====
-- `chronoid_base62_decode` as a whole, and against `chronoid_base62_encode`.
use libchronoid.Prelude.{
  ℕ, ◌^◌, ◌<◌, ◌≡◌, refl, sym, ap, ap₂, ◌∙◌, inl, inr, List, [], ◌∷◌, ◌++◌, none, some, arith,
  length, take, drop, map, map-append, length-map, Bool, true, Bool-cases, lt_or_ge, ◌&&◌,
  if◌then◌else◌, AllBelow, IsArray, AllBelow-take, take-append-drop, length-take, drop-length,
  append-nil,
}
use libchronoid.Digits.{
  value, value-lt, digits, digits-value, value-digits, length-digits, digits-AllBelow,
}
use libchronoid.Simd.Laws.{all_lanes}
use libchronoid.Arch.{Arch}
use libchronoid.Ksuid.Types.{ok, err_str_value}
use libchronoid.Ksuid.Base62.Tables.{
  b62_digit, b62_char, b62_digit_cases, b62_digit-b62_char, b62_char-byte,
}
use libchronoid.Ksuid.Base62.Kernels.{accepts, translate16_lem}
use libchronoid.Ksuid.Base62.Encode.{base62_encode-digits}
use libchronoid.Ksuid.Base62.Decode.{decode_loop-digits, decode_loop-overflow}
use libchronoid.Ksuid.Base62.{base62_encode, base62_decode, decode_tail, decode_loop}

all_lanes-append :
    (p : ℕ → Bool) (xs ys : List ℕ) → all_lanes p (xs ++ ys) ≡ (all_lanes p xs && all_lanes p ys)
all_lanes-append p [] ys = refl
all_lanes-append p (x ∷ xs) ys = rw (all_lanes-append p xs ys) (ground arith)

decode_tail_lem :
    (cs : List ℕ)
    → decode_tail cs ≡ (if all_lanes accepts cs then some (map b62_digit cs) else none)
unfolding decode_tail b62_digit
decode_tail_lem [] = refl
decode_tail_lem (c ∷ cs) = rw (decode_tail_lem cs) (ground arith)

accepts-AllBelow :
    (cs : List ℕ) → AllBelow 256 cs → all_lanes accepts cs ≡ true → AllBelow 62 (map b62_digit cs)
accepts-AllBelow [] h e = tt
accepts-AllBelow (c ∷ cs) h e =
    (ground (arith, b62_digit_cases c h.0), accepts-AllBelow cs h.1 (ground arith))

AllBelow-accepts : (cs : List ℕ) → AllBelow 62 (map b62_digit cs) → all_lanes accepts cs ≡ true
AllBelow-accepts [] h = refl
AllBelow-accepts (c ∷ cs) h = ground (arith, AllBelow-accepts cs)

split :
    (s : List ℕ)
    → all_lanes accepts s ≡ (all_lanes accepts (take 16 s) && all_lanes accepts (drop 16 s))
split s =
    ap (all_lanes accepts) (sym (take-append-drop 16 s))
    ∙ all_lanes-append accepts (take 16 s) (drop 16 s)

join : (s : List ℕ) → map b62_digit (take 16 s) ++ map b62_digit (drop 16 s) ≡ map b62_digit s
join s =
    sym (map-append b62_digit (take 16 s) (drop 16 s)) ∙ ap (map b62_digit) (take-append-drop 16 s)

-- The two passes over the characters read the values of all 27, or refuse.
decode_lem :
    (arch : Arch) (out s : List ℕ)
    → IsArray 27 s
    → base62_decode arch out s
      ≡ (if all_lanes accepts s then decode_loop 20 (map b62_digit s) out else (err_str_value, out))
unfolding base62_decode
decode_lem arch out s h = elim (Bool-cases (all_lanes accepts (take 16 s))) [
  | inr bad ↦ rw (translate16_lem arch (take 16 s) head, bad, split s, bad, base62_decode) refl
  | inl good ↦ elim (Bool-cases (all_lanes accepts (drop 16 s))) [
    | inr bad ↦
        rw
          (
            translate16_lem arch (take 16 s) head,
            good,
            decode_tail_lem (drop 16 s),
            bad,
            split s,
            good,
            bad,
            base62_decode,
          )
          refl
    | inl rest ↦
        rw
          (
            translate16_lem arch (take 16 s) head,
            good,
            decode_tail_lem (drop 16 s),
            rest,
            split s,
            good,
            rest,
            base62_decode,
          )
          (rw (translate16_lem arch (take 16 s) head) (ap (λ t. decode_loop 20 t out) (join s)))
  ]
]
  where
    head : IsArray 16 (take 16 s)
    head = record {
      size = omega (arith, length-take 16 s, h.size);
      bytes = AllBelow-take 256 16 s h.bytes;
    }

module _ (arch : Arch) {s : List ℕ} (h : IsArray 27 s) where
  digits-size : length (map b62_digit s) ≡ 27
  digits-size = length-map s b62_digit ∙ h.size

  -- On every build, 27 bytes that are base62 digits of a number below 2 ^ 160 decode to the 20
  -- bytes of that number.
  pub base62_decode-ok :
      (out : List ℕ)
      → length out ≡ 20
      → AllBelow 62 (map b62_digit s)
      → value 62 (map b62_digit s) < 2 ^ 160
      → base62_decode arch out s ≡ (ok, digits 256 20 (value 62 (map b62_digit s)))
  base62_decode-ok out size below lt =
      decode_lem arch out s h
      ∙ rw (AllBelow-accepts s below) (
          decode_loop-digits 20 (map b62_digit s) out refl below (omega arith) lt
            (inl (omega arith))
          ∙ rw (drop-length out 20 (omega arith), append-nil) refl)

  -- Where `chronoid_base62_decode` accepts 27 bytes, on any build, they are base62 digits of a
  -- number below 2 ^ 160.
  pub base62_decode-accepts :
      (out : List ℕ)
      → (base62_decode arch out s).0 ≡ ok
      → AllBelow 62 (map b62_digit s) × (value 62 (map b62_digit s) < 2 ^ 160)
  base62_decode-accepts out e = elim (Bool-cases (all_lanes accepts s)) [
    | inr bad ↦ cc (rw (decode_lem arch out s h, bad) at e)
    | inl good ↦ elim (lt_or_ge (value 62 (map b62_digit s)) (2 ^ 160)) [
      | inl lt ↦ (accepts-AllBelow s h.bytes good, lt)
      | inr ge ↦ cc (
        rw (decode_lem arch out s h, good) at e,
        decode_loop-overflow 20 (map b62_digit s) out refl (accepts-AllBelow s h.bytes good) ge,
      )
    ]
  ]

map-inverse :
    (f g : ℕ → ℕ) (b : ℕ)
    → ((x : ℕ) → x < b → f (g x) ≡ x)
    → (xs : List ℕ) → AllBelow b xs
    → map f (map g xs) ≡ xs
map-inverse f g b e [] h = refl
map-inverse f g b e (x ∷ xs) h = ap₂ ◌∷◌ (e x h.0) (map-inverse f g b e xs h.1)

-- Characters of base62 digits are the characters of their values.
chars-digits :
    (s : List ℕ)
    → AllBelow 256 s
    → AllBelow 62 (map b62_digit s)
    → map b62_char (map b62_digit s) ≡ s
chars-digits [] h k = refl
chars-digits (c ∷ s) h k = ap₂ ◌∷◌ (ground (arith, b62_digit_cases c h.0)) (chars-digits s h.1 k.1)

chars-AllBelow : (xs : List ℕ) → AllBelow 256 (map b62_char xs)
chars-AllBelow [] = tt
chars-AllBelow (x ∷ xs) = (b62_char-byte x, chars-AllBelow xs)

module _ (arch : Arch) where
  -- Every 20 bytes encode to 27 characters, which decode to them.
  pub base62_decode-base62_encode :
      (input out back : List ℕ)
      → IsArray 20 input
      → length out ≡ 27
      → length back ≡ 20
      → (s : List ℕ) × (base62_encode out input ≡ some s)
        × IsArray 27 s
        × (base62_decode arch back s ≡ (ok, input))
  base62_decode-base62_encode input out back h size back_size = (
    s,
    base62_encode-digits out input size h,
    s-IsArray,
    base62_decode-ok arch s-IsArray back back_size
          (rw digits_back (digits-AllBelow 62 27 v (omega arith))) (rw (digits_back, same) lt)
        ∙ ap (λ t. (ok, t))
            (rw (digits_back, same) (rw h.size at (digits-value 256 input (omega arith) h.bytes))),
  )
    where
      v : ℕ
      v = value 256 input

      lt : v < 2 ^ 160
      lt = value-lt 256 20 input h.size h.bytes

      s : List ℕ
      s = map b62_char (digits 62 27 v)

      s-IsArray : IsArray 27 s
      s-IsArray = record {
        size = length-map (digits 62 27 v) b62_char ∙ length-digits 62 27 v;
        bytes = chars-AllBelow (digits 62 27 v);
      }

      digits_back : map b62_digit s ≡ digits 62 27 v
      digits_back =
          map-inverse b62_digit b62_char 62 b62_digit-b62_char (digits 62 27 v)
            (digits-AllBelow 62 27 v (omega arith))

      same : value 62 (digits 62 27 v) ≡ v
      same = value-digits 62 27 v (omega arith) (omega (arith, lt))

  -- Whatever decodes is what its bytes encode to: the textual form of an identifier is unique.
  pub base62_encode-base62_decode :
      {s b : List ℕ} (out back : List ℕ)
      → IsArray 27 s
      → length out ≡ 27
      → length back ≡ 20
      → base62_decode arch back s ≡ (ok, b)
      → IsArray 20 b × (base62_encode out b ≡ some s)
  base62_encode-base62_decode {s} {b} out back h size back_size e = (
    b-IsArray,
    base62_encode-digits out b size b-IsArray
        ∙ ap some (
            rw (← b_eq, same)
              (ap (map b62_char)
                  (rw (length-map s b62_digit, h.size) at (digits-value 62 ds (omega arith) good.0))
                ∙ chars-digits s h.bytes good.0)),
  )
    where
      ds : List ℕ
      ds = map b62_digit s

      good : AllBelow 62 ds × (value 62 ds < 2 ^ 160)
      good = base62_decode-accepts arch h back (ap (λ t. t.0) e)

      b_eq : digits 256 20 (value 62 ds) ≡ b
      b_eq = ap (λ t. t.1) (sym (base62_decode-ok arch h back back_size good.0 good.1) ∙ e)

      same : value 256 (digits 256 20 (value 62 ds)) ≡ value 62 ds
      same = value-digits 256 20 (value 62 ds) (omega arith) good.1

      b-IsArray : IsArray 20 b
      b-IsArray = rw (← b_eq) (record {
        size = length-digits 256 20 (value 62 ds);
        bytes = digits-AllBelow 256 20 (value 62 ds) (omega arith);
      })
