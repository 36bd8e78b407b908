-- ===== src/Uuidv7/Hex/Decode.antt =====
-- `chronoid_hex_decode` of chronoid/uuidv7/hex.c against the text of the encoder, of which it takes
-- the letters in either case.
use libchronoid.Prelude.{
  ℕ, suc, ◌+◌, ◌*◌, ◌/◌, ◌%◌, ◌<◌, ◌≡◌, ◌⊎◌, inl, inr, refl, sym, ap, ap₂, ◌∙◌, List, [], ◌∷◌, map,
  arith, length, drop, get_or, AllBelow, ◌<<◌, u8, bit_and, bit_or, if◌then◌else◌, ltb, leb, ◌==◌,
  ==_iff, true, ◌&&◌, ◌||◌,
}
use libchronoid.Prelude.Tables.{every, every-at}
use libchronoid.Prelude.Bits.{bit_or_disjoint}
use libchronoid.Uuidv7.Hex.{hex_lower, hex_value, decode_bytes}
use libchronoid.Uuidv7.Hex.Encode.{hex_char, nibbles}

-- The lower case of an ASCII letter.
abbrev pub to_lower : ℕ → ℕ
to_lower c = if leb b'A' c && leb c b'Z' then c + 32 else c

abbrev hex_digit : ℕ → ℕ
hex_digit c = get_or hex_value c 0

char_table :
    every 256
      (λ c. hex_digit c == 0xff || (ltb (hex_digit c) 16 && (hex_char (hex_digit c) == to_lower c)))
    ≡ true
unfolding every hex_lower hex_value
char_table = refl

digit_table :
    every 256 (λ c. every 16 (λ d. if to_lower c == hex_char d then hex_digit c == d else true))
    ≡ true
unfolding every hex_lower hex_value
digit_table = refl

or_table : every 16 (λ a. every 16 (λ b. ltb (bit_or a b) 16)) ≡ true
unfolding every
or_table = refl

full_table : every 16 (λ a. (bit_or a 0xff == 0xff) && (bit_or 0xff a == 0xff)) ≡ true
unfolding every
full_table = refl

mask_table : every 16 (λ a. bit_and a 0xf0 == 0) ≡ true
unfolding every
mask_table = refl

-- A byte that the table accepts has the value of its lower case.
hex_digit_cases :
    (c : ℕ)
    → c < 256
    → (hex_digit c ≡ 0xff) ⊎ ((hex_digit c < 16) × (hex_char (hex_digit c) ≡ to_lower c))
hex_digit_cases c h = ground (
  arith,
  every-at 256
      (λ c. hex_digit c == 0xff || (ltb (hex_digit c) 16 && (hex_char (hex_digit c) == to_lower c)))
      c char_table h,
)

hex_digit-hex_char : (c d : ℕ) → c < 256 → d < 16 → to_lower c ≡ hex_char d → hex_digit c ≡ d
hex_digit-hex_char c d h k e = ground (
  arith,
  every-at 16 (λ d. if to_lower c == hex_char d then hex_digit c == d else true) d
      (every-at 256
        (λ c. every 16 (λ d. if to_lower c == hex_char d then hex_digit c == d else true)) c
        digit_table h)
      k,
)

-- `bad` is a value of four bits, or 0xff from the first invalid character on.
abbrev pub IsBad : ℕ → Type 0
IsBad a = (a < 16) ⊎ (a ≡ 0xff)

or-lt : (a b : ℕ) → a < 16 → b < 16 → bit_or a b < 16
or-lt a b h k = ground (
  arith,
  every-at 16 (λ b. ltb (bit_or a b) 16) b
      (every-at 16 (λ a. every 16 (λ b. ltb (bit_or a b) 16)) a or_table h) k,
)

or-full : (a : ℕ) → IsBad a → (bit_or a 0xff ≡ 0xff) × (bit_or 0xff a ≡ 0xff)
or-full a (inl h) =
    ground
      (arith, every-at 16 (λ a. (bit_or a 0xff == 0xff) && (bit_or 0xff a == 0xff)) a full_table h)
or-full a (inr e) = (ap (λ a. bit_or a 0xff) e, ap (bit_or 0xff) e)

or-IsBad : (a b : ℕ) → IsBad a → IsBad b → IsBad (bit_or a b)
or-IsBad a b (inl h) (inl k) = inl (or-lt a b h k)
or-IsBad a b (inr e) k = inr (ap (λ a. bit_or a b) e ∙ (or-full b k).1)
or-IsBad a b h (inr e) = inr (ap (bit_or a) e ∙ (or-full a h).0)

or-clean : (a b : ℕ) → IsBad a → IsBad b → bit_or a b < 16 → (a < 16) × (b < 16)
or-clean a b (inl h) (inl k) lt = (h, k)
or-clean a b (inr e) k lt = absurd (omega (arith, ap (λ a. bit_or a b) e ∙ (or-full b k).1))
or-clean a b h (inr e) lt = absurd (omega (arith, ap (bit_or a) e ∙ (or-full a h).0))

digit-IsBad : (c : ℕ) → c < 256 → IsBad (hex_digit c)
digit-IsBad c h = elim (hex_digit_cases c h) [ inl e ↦ inr e | inr (lt, _) ↦ inl lt ]

digit-char : (c : ℕ) → c < 256 → hex_digit c < 16 → hex_char (hex_digit c) ≡ to_lower c
digit-char c h lt = elim (hex_digit_cases c h) [ inl e ↦ absurd (omega arith) | inr (_, e) ↦ e ]

pub bad-lt : (a : ℕ) → IsBad a → bit_and a 0xf0 ≡ 0 → a < 16
bad-lt a (inl h) e = h
bad-lt a (inr k) e = absurd (omega (arith, ap (λ a. bit_and a 0xf0) k))

pub lt-bad : (a : ℕ) → a < 16 → bit_and a 0xf0 ≡ 0
lt-bad a h = (==_iff _ _).0 (every-at 16 (λ a. bit_and a 0xf0 == 0) a mask_table h)

-- The characters at the offsets, in lower case.
abbrev pub lower_pairs : List ℕ → List ℕ → List ℕ
lower_pairs [] s = []
lower_pairs (off ∷ offs) s =
    to_lower (get_or s off 0) ∷ to_lower (get_or s (off + 1) 0) ∷ lower_pairs offs s

joined : (h l : ℕ) → h < 16 → l < 16 → u8 (bit_or (h << 4) l) ≡ h * 16 + l
joined h l p q = omega (arith, bit_or_disjoint 4 h l q)

module _ (s : List ℕ) (bytes : (i : ℕ) → get_or s i 0 < 256) where
  abbrev hi : ℕ → ℕ
  hi off = hex_digit (get_or s off 0)

  abbrev lo : ℕ → ℕ
  lo off = hex_digit (get_or s (off + 1) 0)

  next-IsBad : (off bad : ℕ) → IsBad bad → IsBad (bit_or (bit_or bad (hi off)) (lo off))
  next-IsBad off bad h =
      or-IsBad (bit_or bad (hi off)) (lo off) (or-IsBad bad (hi off) h (digit-IsBad _ (bytes off)))
        (digit-IsBad _ (bytes (off + 1)))

  pub decode_bytes-IsBad : (offs : List ℕ) (bad : ℕ) → IsBad bad → IsBad (decode_bytes offs s bad).1
  unfolding decode_bytes
  decode_bytes-IsBad [] bad h = h
  decode_bytes-IsBad (off ∷ offs) bad h = decode_bytes-IsBad offs _ (next-IsBad off bad h)

  -- With `bad` clean at the end, the bytes are those of the characters.
  pub decode_bytes-clean :
      (offs : List ℕ) (bad : ℕ)
      → IsBad bad
      → (decode_bytes offs s bad).1 < 16
      → let t = (decode_bytes offs s bad).0 in
        (bad < 16)
        × AllBelow 256 t
        × (length t ≡ length offs)
        × (map hex_char (nibbles t) ≡ lower_pairs offs s)
  unfolding decode_bytes
  decode_bytes-clean [] bad h lt = (lt, tt, refl, refl)
  decode_bytes-clean (off ∷ offs) bad h lt =
      let (below, t_bytes, size, text) = decode_bytes-clean offs _ (next-IsBad off bad h) lt in
      let (first, lo_lt) =
        or-clean (bit_or bad (hi off)) (lo off)
          (or-IsBad bad (hi off) h (digit-IsBad _ (bytes off))) (digit-IsBad _ (bytes (off + 1)))
          below in
      let (bad_lt, hi_lt) = or-clean bad (hi off) h (digit-IsBad _ (bytes off)) first in
      let e = joined (hi off) (lo off) hi_lt lo_lt in
      (
        bad_lt,
        (omega (arith, e), t_bytes),
        ap suc size,
        ap₂ ◌∷◌ (ap hex_char (omega (arith, e)) ∙ digit-char _ (bytes off) hi_lt)
            (ap₂ ◌∷◌ (ap hex_char (omega (arith, e)) ∙ digit-char _ (bytes (off + 1)) lo_lt) text),
      )

  -- Characters that are those of some bytes are read as these.
  pub decode_bytes_complete :
      (offs : List ℕ) (bad : ℕ) (bs : List ℕ)
      → bad < 16
      → AllBelow 256 bs
      → map hex_char (nibbles bs) ≡ lower_pairs offs s
      → ((decode_bytes offs s bad).0 ≡ bs) × ((decode_bytes offs s bad).1 < 16)
  unfolding decode_bytes
  decode_bytes_complete [] bad [] lt h e = (refl, lt)
  decode_bytes_complete [] bad (b ∷ bs) lt h e = absurd (omega (arith, ap length e))
  decode_bytes_complete (off ∷ offs) bad [] lt h e = absurd (omega (arith, ap length e))
  decode_bytes_complete (off ∷ offs) bad (b ∷ bs) lt h e =
      let high =
        hex_digit-hex_char (get_or s off 0) (b / 16) (bytes off) (omega (arith, h.0))
          (sym (ap (λ xs. get_or xs 0 0) e)) in
      let low =
        hex_digit-hex_char (get_or s (off + 1) 0) (b % 16) (bytes (off + 1)) (omega arith)
          (sym (ap (λ xs. get_or xs 1 0) e)) in
      let hi_lt : hi off < 16 = omega (arith, high, h.0) in
      let lo_lt : lo off < 16 = omega (arith, low) in
      let (same, clean) =
        decode_bytes_complete offs (bit_or (bit_or bad (hi off)) (lo off)) bs
          (or-lt (bit_or bad (hi off)) (lo off) (or-lt bad (hi off) lt hi_lt) lo_lt) h.1
          (ap (drop 2) e) in
      (ap₂ ◌∷◌ (omega (arith, joined (hi off) (lo off) hi_lt lo_lt, high, low)) same, clean)
