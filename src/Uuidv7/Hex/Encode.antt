-- ===== src/Uuidv7/Hex/Encode.antt =====
-- The encoders of chronoid/uuidv7/hex.c and hex_ssse3.c against the text of RFC 9562: the 32
-- hexadecimal digits of the 128-bit number, grouped 8-4-4-4-12.
use libchronoid.Prelude.{
  ℕ, zero, suc, ◌+◌, ◌*◌, ◌/◌, ◌%◌, ◌<◌, ◌≡◌, refl, sym, ap, ap₂, ◌∙◌, List, [], ◌∷◌, ◌++◌, map,
  arith, length, take, drop, replicate, get_or, AllBelow, IsArray, build, build-get_or, ◌>>◌, u8,
  bit_and, if◌then◌else◌, ltb, ◌==◌, ==_iff, true,
}
use libchronoid.Prelude.Bits.{bit_and_mask}
use libchronoid.Prelude.Tables.{codes, every, every-at}
use libchronoid.Digits.{value, value_from, digits, digits-value}
use libchronoid.Arch.{Arch, sse2, neon, scalar}
use libchronoid.Simd.{
  unpacklo_epi8, unpackhi_epi8, zip_with, set1_epi8, srli_epi16, and_si128, shuffle_epi8,
}
use libchronoid.Simd.Laws.{set1_epi8-map, zip_with-map, map_self}
use libchronoid.Uuidv7.Hex.{
  hex_lower, encode_bytes, hex_encode_lower_scalar, hex_encode_lower_ssse3, hex_encode_lower,
  splice,
}

abbrev pub hex_char : ℕ → ℕ
hex_char d = get_or hex_lower d 0

abbrev pub nibbles : List ℕ → List ℕ
nibbles [] = []
nibbles (b ∷ bs) = b / 16 ∷ b % 16 ∷ nibbles bs

-- The text of 32 digits.
abbrev pub hyphenate : List ℕ → List ℕ
hyphenate cs =
    take 8 cs
    ++ (b'-' ∷ take 4 (drop 8 cs)
        ++ (b'-' ∷ take 4 (drop 12 cs)
            ++ (b'-' ∷ take 4 (drop 16 cs) ++ (b'-' ∷ take 12 (drop 20 cs)))))

-- The text of 16 bytes.
abbrev pub hex_text : List ℕ → List ℕ
hex_text bs = hyphenate (map hex_char (nibbles bs))

length-nibbles : (bs : List ℕ) → length (nibbles bs) ≡ 2 * length bs
length-nibbles [] = refl
length-nibbles (b ∷ bs) = omega (arith, length-nibbles bs)

nibbles-AllBelow : (bs : List ℕ) → AllBelow 256 bs → AllBelow 16 (nibbles bs)
nibbles-AllBelow [] h = tt
nibbles-AllBelow (b ∷ bs) h = (omega (arith, h.0), (omega arith, nibbles-AllBelow bs h.1))

value_from-nibbles : (a : ℕ) (bs : List ℕ) → value_from 16 a (nibbles bs) ≡ value_from 256 a bs
value_from-nibbles a [] = refl
value_from-nibbles a (b ∷ bs) =
    value_from-nibbles ((a * 16 + b / 16) * 16 + b % 16) bs
    ∙ ap (λ c. value_from 256 c bs) (omega arith)

-- The digits in that text are those of the number.
pub nibbles-digits : (bs : List ℕ) → IsArray 16 bs → nibbles bs ≡ digits 16 32 (value 256 bs)
nibbles-digits bs h =
    sym (digits-value 16 (nibbles bs) (omega arith) (nibbles-AllBelow bs h.bytes))
    ∙ ap₂ (digits 16) (omega (arith, length-nibbles bs, h.size)) (value_from-nibbles 0 bs)

abbrev pairs : (ℕ → ℕ) → (ℕ → ℕ) → List ℕ → List ℕ
pairs p q [] = []
pairs p q (b ∷ bs) = p b ∷ q b ∷ pairs p q bs

-- What the kernels store for a byte, before its nibbles are read as `/` and `%`.
abbrev hi_of : ℕ → ℕ
hi_of b = bit_and (b >> 4) 0x0f

abbrev lo_of : ℕ → ℕ
lo_of b = bit_and b 0x0f

abbrev masked : List ℕ → List ℕ
masked = pairs hi_of lo_of

masked-nibbles : (bs : List ℕ) → AllBelow 256 bs → masked bs ≡ nibbles bs
masked-nibbles [] h = refl
masked-nibbles (b ∷ bs) h =
    ap₂ ◌∷◌ (bit_and_mask 4 (b >> 4) ∙ omega (arith, h.0))
      (ap₂ ◌∷◌ (bit_and_mask 4 b) (masked-nibbles bs h.1))

scalar_cells :
    (f g : ℕ → ℕ)
    → hex_encode_lower_scalar (build 36 f) (build 16 g)
      ≡ hyphenate (map hex_char (masked (build 16 g)))
unfolding hex_encode_lower_scalar encode_bytes
scalar_cells f g = refl

-- The word shift leaves in each lane the high nibble of its byte, under the mask.
shifted :
    (bs : List ℕ) (n : ℕ)
    → length bs ≡ n
    → n % 2 ≡ 0
    → AllBelow 256 bs
    → and_si128 (srli_epi16 bs 4) (replicate n 0x0f) ≡ map hi_of bs
unfolding srli_epi16 zip_with
shifted [] n e even h = refl
shifted (x ∷ []) n e even h = absurd (omega arith)
shifted (x ∷ y ∷ bs) zero e even h = absurd (omega arith)
shifted (x ∷ y ∷ bs) (suc zero) e even h = absurd (omega arith)
shifted (x ∷ y ∷ bs) (suc (suc n)) e even h =
    ap₂ ◌∷◌ (lane (u8 ((x + 256 * y) >> 4)) (x >> 4) (omega (arith, h.0))) (
      ap₂ ◌∷◌ (lane ((x + 256 * y) >> 4 / 256) (y >> 4) (omega (arith, h.0)))
        (shifted bs n (omega arith) (omega arith) h.1.1))
  where
    lane : (a b : ℕ) → a % 16 ≡ b % 16 → bit_and a 0x0f ≡ bit_and b 0x0f
    lane a b e = bit_and_mask 4 a ∙ e ∙ sym (bit_and_mask 4 b)

-- The lookup is the table's entry for an index below 16.
hex_table :
    every 16
      (λ i. (if ltb i 128 then get_or (codes "0123456789abcdef") (i % 16) 0 else 0) == hex_char i)
    ≡ true
unfolding every hex_lower
hex_table = refl

looked :
    (i : ℕ)
    → i < 16
    → (if ltb i 128 then get_or (codes "0123456789abcdef") (i % 16) 0 else 0) ≡ hex_char i
looked i h = (==_iff _ _).0 (
    every-at 16
      (λ i. (if ltb i 128 then get_or (codes "0123456789abcdef") (i % 16) 0 else 0) == hex_char i) i
      hex_table h)

looked_up :
    (m : ℕ → ℕ) (bs : List ℕ)
    → ((b : ℕ) → m b < 16)
    → shuffle_epi8 (codes "0123456789abcdef") (map m bs) ≡ map (λ b. hex_char (m b)) bs
looked_up m [] h = refl
looked_up m (b ∷ bs) h = ap₂ ◌∷◌ (looked (m b) (h b)) (looked_up m bs h)

ssse3_cells :
    (f p q g : ℕ → ℕ)
    → let a = map (λ b. hex_char (p b)) (build 16 g) in
      let b = map (λ b. hex_char (q b)) (build 16 g) in
      splice (build 36 f) (unpacklo_epi8 a b ++ unpackhi_epi8 a b)
      ≡ hyphenate (map hex_char (pairs p q (build 16 g)))
unfolding splice
ssse3_cells f p q g = refl

masked_low : (bs : List ℕ) → length bs ≡ 16 → and_si128 bs (set1_epi8 0x0f) ≡ map lo_of bs
masked_low bs size =
    ap₂ and_si128 (sym (map_self bs)) (set1_epi8-map bs size 0x0f)
    ∙ zip_with-map bit_and (λ b. b) (λ _. 0x0f) bs

masked_high :
    (bs : List ℕ) → IsArray 16 bs → and_si128 (srli_epi16 bs 4) (set1_epi8 0x0f) ≡ map hi_of bs
unfolding set1_epi8
masked_high bs h = shifted bs 16 h.size refl h.bytes

module _ (out bs : List ℕ) (size : length out ≡ 36) (h : IsArray 16 bs) where
  cells : build 16 (λ i. get_or bs i 0) ≡ bs
  cells = build-get_or bs 16 0 h.size

  buffer : build 36 (λ i. get_or out i 0) ≡ out
  buffer = build-get_or out 36 0 size

  text : hyphenate (map hex_char (masked (build 16 (λ i. get_or bs i 0)))) ≡ hex_text bs
  text =
      ap (λ bs. hyphenate (map hex_char (masked bs))) cells
      ∙ ap (λ cs. hyphenate (map hex_char cs)) (masked-nibbles bs h.bytes)

  scalar_text : hex_encode_lower_scalar out bs ≡ hex_text bs
  scalar_text =
      ap₂ hex_encode_lower_scalar (sym buffer) (sym cells)
      ∙ scalar_cells (λ i. get_or out i 0) (λ i. get_or bs i 0)
      ∙ text

  ssse3_text : hex_encode_lower_ssse3 out bs ≡ hex_text bs
  unfolding hex_encode_lower_ssse3
  ssse3_text =
      ap₂ (λ a b. splice out (unpacklo_epi8 a b ++ unpackhi_epi8 a b)) high low
      ∙ ap₂
          (λ o bs.
            let a = map (λ b. hex_char (hi_of b)) bs in
            let b = map (λ b. hex_char (lo_of b)) bs in
            splice o (unpacklo_epi8 a b ++ unpackhi_epi8 a b))
          (sym buffer) (sym cells)
      ∙ ssse3_cells (λ i. get_or out i 0) hi_of lo_of (λ i. get_or bs i 0)
      ∙ text
    where
      lut : List ℕ
      lut = codes "0123456789abcdef"

      high :
          shuffle_epi8 lut (and_si128 (srli_epi16 bs 4) (set1_epi8 0x0f))
          ≡ map (λ b. hex_char (hi_of b)) bs
      high =
          ap (shuffle_epi8 lut) (masked_high bs h)
          ∙ looked_up hi_of bs (λ b. omega (arith, bit_and_mask 4 (b >> 4)))

      low : shuffle_epi8 lut (and_si128 bs (set1_epi8 0x0f)) ≡ map (λ b. hex_char (lo_of b)) bs
      low =
          ap (shuffle_epi8 lut) (masked_low bs h.size)
          ∙ looked_up lo_of bs (λ b. omega (arith, bit_and_mask 4 b))

  -- On every build, the encoder writes over whatever the buffer of 36 held the canonical text.
  pub hex_encode_lower-hex_text : (arch : Arch) → hex_encode_lower arch out bs ≡ hex_text bs
  unfolding hex_encode_lower
  hex_encode_lower-hex_text sse2 = ssse3_text
  hex_encode_lower-hex_text neon = scalar_text
  hex_encode_lower-hex_text scalar = scalar_text
