-- ===== src/Ksuid/Base62/Tables.antt =====
-- The alphabet and the value table of chronoid/ksuid/base62.c are inverse, and the alphabet is
-- ascending in ASCII.
use libchronoid.Prelude.{ℕ, ◌<◌, ◌≡◌, refl, ◌⊎◌, true, ◌&&◌, ◌||◌, ◌==◌, ltb, arith, get_or, u8}
use libchronoid.Prelude.Tables.{every, every-at}
use libchronoid.Ksuid.Base62.Translate.{kb62_alphabet, kb62_value}

-- `(uint8_t) kB62Alphabet[d]` and `kB62Value[c]`.
unfoldable pub b62_char : ℕ → ℕ
b62_char d = u8 (get_or kb62_alphabet d 0)

unfoldable pub b62_digit : ℕ → ℕ
b62_digit c = get_or kb62_value c 0

char_table : every 62 (λ d. b62_digit (b62_char d) == d) ≡ true
unfolding every b62_char b62_digit kb62_alphabet kb62_value
char_table = refl

digit_table :
    every 256 (λ c. b62_digit c == 0xff || (ltb (b62_digit c) 62 && (b62_char (b62_digit c) == c)))
    ≡ true
unfolding every b62_char b62_digit kb62_alphabet kb62_value
digit_table = refl

order_table : every 62 (λ d. every d (λ e. ltb (b62_char e) (b62_char d))) ≡ true
unfolding every b62_char kb62_alphabet
order_table = refl

pub b62_digit-b62_char : (d : ℕ) → d < 62 → b62_digit (b62_char d) ≡ d
b62_digit-b62_char d h =
    ground (arith, every-at 62 (λ d. b62_digit (b62_char d) == d) d char_table h)

-- A byte that the table accepts is the character of its value.
pub b62_digit_cases :
    (c : ℕ) → c < 256 → (b62_digit c ≡ 0xff) ⊎ ((b62_digit c < 62) × (b62_char (b62_digit c) ≡ c))
b62_digit_cases c h = ground (
  arith,
  every-at 256 (λ c. b62_digit c == 0xff || (ltb (b62_digit c) 62 && (b62_char (b62_digit c) == c)))
      c digit_table h,
)

pub b62_char-lt : (d e : ℕ) → e < d → d < 62 → b62_char e < b62_char d
b62_char-lt d e h k = ground (
  arith,
  every-at d (λ e. ltb (b62_char e) (b62_char d)) e
      (every-at 62 (λ d. every d (λ e. ltb (b62_char e) (b62_char d))) d order_table k) h,
)

pub b62_char-byte : (d : ℕ) → b62_char d < 256
unfolding b62_char
b62_char-byte d = omega arith
