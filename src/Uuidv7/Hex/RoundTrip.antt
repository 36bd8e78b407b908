-- ===== src/Uuidv7/Hex/RoundTrip.antt =====
-- `chronoid_hex_decode` against `chronoid_hex_encode_lower`.
use libchronoid.Prelude.{
  ℕ, zero, suc, ◌<◌, ◌≡◌, inl, refl, subst, sym, ap, ◌∙◌, List, [], ◌∷◌, ◌++◌, map, arith, length,
  take, drop, get_or, AllBelow, IsArray, build, build-get_or, bit_and,
}
use libchronoid.Prelude.Int.{pos}
use libchronoid.Memory.{memcpy, memcpy-all}
use libchronoid.Uuidv7.Hex.{char_off, decode_bytes, hex_decode}
use libchronoid.Uuidv7.Hex.Encode.{hex_char, nibbles, hyphenate, hex_text}
use libchronoid.Uuidv7.Hex.Decode.{
  to_lower, lower_pairs, decode_bytes-IsBad, decode_bytes-clean, decode_bytes_complete, bad-lt,
  lt-bad,
}

-- What stands at the positions of the digits, and the text with other characters for the hyphens.
abbrev unhyphenate : List ℕ → List ℕ
unhyphenate cs =
    take 8 cs
    ++ (take 4 (drop 9 cs)
        ++ (take 4 (drop 14 cs) ++ (take 4 (drop 19 cs) ++ take 12 (drop 24 cs))))

abbrev joined_by : ℕ → ℕ → ℕ → ℕ → List ℕ → List ℕ
joined_by p q r t cs =
    take 8 cs
    ++ (p ∷ take 4 (drop 8 cs)
        ++ (q ∷ take 4 (drop 12 cs) ++ (r ∷ take 4 (drop 16 cs) ++ (t ∷ take 12 (drop 20 cs)))))

text_cells :
    (f : ℕ → ℕ)
    → map to_lower (build 36 f)
      ≡ joined_by
          (to_lower (f 8))
          (to_lower (f 13))
          (to_lower (f 18))
          (to_lower (f 23))
          (lower_pairs char_off (build 36 f))
text_cells f = refl

digit_cells :
    (f : ℕ → ℕ) → unhyphenate (map to_lower (build 36 f)) ≡ lower_pairs char_off (build 36 f)
digit_cells f = refl

byte_cells : (g : ℕ → ℕ) → unhyphenate (hex_text (build 16 g)) ≡ map hex_char (nibbles (build 16 g))
byte_cells g = refl

module _ (s : List ℕ) (h : IsArray 36 s) where
  in_cells : build 36 (λ i. get_or s i 0) ≡ s
  in_cells = build-get_or s 36 0 h.size

  lower_digits : unhyphenate (map to_lower s) ≡ lower_pairs char_off s
  lower_digits =
      ap (λ s. unhyphenate (map to_lower s)) (sym in_cells)
      ∙ digit_cells (λ i. get_or s i 0)
      ∙ ap (lower_pairs char_off) in_cells

  lower_text :
      map to_lower s
      ≡ joined_by
          (to_lower (get_or s 8 0))
          (to_lower (get_or s 13 0))
          (to_lower (get_or s 18 0))
          (to_lower (get_or s 23 0))
          (lower_pairs char_off s)
  lower_text =
      ap (map to_lower) (sym in_cells)
      ∙ text_cells (λ i. get_or s i 0)
      ∙ ap
          (λ s.
            joined_by (to_lower (get_or s 8 0)) (to_lower (get_or s 13 0))
              (to_lower (get_or s 18 0)) (to_lower (get_or s 23 0)) (lower_pairs char_off s))
          in_cells

byte_digits : (bs : List ℕ) → length bs ≡ 16 → unhyphenate (hex_text bs) ≡ map hex_char (nibbles bs)
byte_digits bs size =
    subst (λ bs. unhyphenate (hex_text bs) ≡ map hex_char (nibbles bs)) (build-get_or bs 16 0 size)
      (byte_cells (λ i. get_or bs i 0))

get_or-byte : (s : List ℕ) → AllBelow 256 s → (i : ℕ) → get_or s i 0 < 256
get_or-byte [] h i = omega arith
get_or-byte (x ∷ s) h zero = h.0
get_or-byte (x ∷ s) h (suc i) = get_or-byte s h.1 i

lower-hyphen : (c : ℕ) → to_lower c ≡ b'-' → c ≡ b'-'
lower-hyphen c e = ground arith

abbrev IsHyphenated : List ℕ → Type 0
IsHyphenated s =
    (get_or s 8 0 ≡ b'-') × (get_or s 13 0 ≡ b'-') × (get_or s 18 0 ≡ b'-') × (get_or s 23 0 ≡ b'-')

hyphen_cells :
    (f g : ℕ → ℕ) → map to_lower (build 36 f) ≡ hex_text (build 16 g) → IsHyphenated (build 36 f)
hyphen_cells f g e = (
  lower-hyphen (f 8) (ap (λ t. get_or t 8 0) e),
  lower-hyphen (f 13) (ap (λ t. get_or t 13 0) e),
  lower-hyphen (f 18) (ap (λ t. get_or t 18 0) e),
  lower-hyphen (f 23) (ap (λ t. get_or t 23 0) e),
)

text-IsHyphenated :
    (s bs : List ℕ) → IsArray 36 s → IsArray 16 bs → map to_lower s ≡ hex_text bs → IsHyphenated s
text-IsHyphenated s bs h k e = subst IsHyphenated (in_cells s h) (
    hyphen_cells (λ i. get_or s i 0) (λ i. get_or bs i 0)
      (ap (map to_lower) (in_cells s h) ∙ e ∙ sym (ap hex_text (build-get_or bs 16 0 k.size))))

hyphenated :
    (s : List ℕ)
    → IsHyphenated s
    → joined_by
        (to_lower (get_or s 8 0))
        (to_lower (get_or s 13 0))
        (to_lower (get_or s 18 0))
        (to_lower (get_or s 23 0))
        (lower_pairs char_off s)
      ≡ hyphenate (lower_pairs char_off s)
hyphenated s (p, q, r, t) = rw (p, q, r, t)

-- What the tests of the decoder say.
module _ (out s : List ℕ) where
  pass :
      IsHyphenated s
      → bit_and (decode_bytes char_off s 0).1 0xf0 ≡ 0
      → hex_decode out s 36 ≡ (pos 0, memcpy out 0 (decode_bytes char_off s 0).0 16)
  unfolding hex_decode
  pass h e = ground arith

  passed :
      (hex_decode out s 36).0 ≡ pos 0
      → IsHyphenated s × (bit_and (decode_bytes char_off s 0).1 0xf0 ≡ 0)
  unfolding hex_decode
  passed e = ground arith

-- Given 36 bytes that are, but for the case of letters, the text of 16 bytes,
-- `chronoid_hex_decode` succeeds and writes these.
pub hex_decode-hex_text :
    (out s bs : List ℕ)
    → length out ≡ 16
    → IsArray 36 s
    → IsArray 16 bs
    → map to_lower s ≡ hex_text bs
    → hex_decode out s 36 ≡ (pos 0, bs)
hex_decode-hex_text out s bs size h k e =
    let (same, clean) =
      decode_bytes_complete s (get_or-byte s h.bytes) char_off 0 bs (omega arith) k.bytes
        (sym (byte_digits bs k.size) ∙ ap unhyphenate (sym e) ∙ lower_digits s h) in
    pass out s (text-IsHyphenated s bs h k e) (lt-bad _ clean)
    ∙ ap (λ t. (pos 0, t)) (ap (λ t. memcpy out 0 t 16) same ∙ memcpy-all out bs 16 size k.size)

-- Whatever 36 bytes it accepts are, but for the case of letters, the text of the bytes that it
-- writes.
pub hex_text-hex_decode :
    (out s : List ℕ)
    → length out ≡ 16
    → IsArray 36 s
    → (hex_decode out s 36).0 ≡ pos 0
    → IsArray 16 (hex_decode out s 36).1 × (map to_lower s ≡ hex_text (hex_decode out s 36).1)
hex_text-hex_decode out s size h e =
    let (hyphens, clean) = passed out s e in
    let bytes = get_or-byte s h.bytes in
    let (_, t_bytes, t_size, text) =
      decode_bytes-clean s bytes char_off 0 (inl (omega arith))
        (bad-lt _ (decode_bytes-IsBad s bytes char_off 0 (inl (omega arith))) clean) in
    subst (λ t. IsArray 16 t × (map to_lower s ≡ hex_text t))
      (sym (ap (λ r. r.1) (pass out s hyphens clean) ∙ memcpy-all out _ 16 size t_size))
      (
        record { size = t_size; bytes = t_bytes },
        lower_text s h ∙ hyphenated s hyphens ∙ ap hyphenate (sym text),
      )
