-- ===== src/Gen/Stdio.antt =====
-- What examples/chronoid-gen.c uses of <stdio.h>, <stdlib.h> and <time.h>.
use libchronoid.Prelude.{
  ℕ, zero, suc, ◌+◌, ◌-◌, ◌*◌, ◌^◌, List, [], ◌∷◌, map, Bool, true, false, Option, ◌==◌, ◌&&◌, ◌||◌,
  leb, ltb, if◌then◌else◌, get_or,
}
use libchronoid.Prelude.Int.{ℤ, pos, negsuc}
use libchronoid.Prelude.Tables.{codes}
use libchronoid.Digits.{digits}

-- Leading zeros dropped, but for the last digit.
unfoldable pub strip : List ℕ → List ℕ
strip [] = []
strip (d ∷ []) = d ∷ []
strip (zero ∷ e ∷ ds) = strip (e ∷ ds)
strip (suc d ∷ e ∷ ds) = suc d ∷ e ∷ ds

-- `%u` and `%zu`, of a number of at most 20 digits, and `%d`.
unfoldable pub print_u : ℕ → List ℕ
print_u n = map (λ d. b'0' + d) (strip (digits 10 20 n))

unfoldable pub print_d : ℤ → List ℕ
print_d (pos n) = print_u n
print_d (negsuc n) = b'-' ∷ print_u (suc n)

-- `%03d` and `%03X`, of a number of at most three digits.
unfoldable pub print_03d : ℕ → List ℕ
print_03d n = map (λ d. b'0' + d) (digits 10 3 n)

unfoldable pub print_03x : ℕ → List ℕ
print_03x n = map (λ d. get_or (codes "0123456789ABCDEF") d 0) (digits 16 3 n)

-- The calendar: `localtime_r`, `gmtime_r`, and `strftime` into 64 bytes, empty where it returns 0.
pub record Calendar (Tm : Type 0) : Type 0 where
  pub localtime_r : ℤ → Option Tm
  pub gmtime_r : ℤ → Option Tm
  pub strftime : List ℕ → Tm → List ℕ

abbrev is_space : ℕ → Bool
is_space c = c == 32 || (leb 9 c && leb c 13)

abbrev is_digit : ℕ → Bool
is_digit c = leb b'0' c && leb c b'9'

unfoldable pub skip_space : List ℕ → List ℕ
skip_space [] = []
skip_space (c ∷ s) = if is_space c then skip_space s else c ∷ s

-- The number that the leading digits make behind `acc`, and the rest.
unfoldable pub read_digits : ℕ → List ℕ → ℕ × List ℕ
read_digits acc [] = (acc, [])
read_digits acc (c ∷ s) = if is_digit c then read_digits (acc * 10 + (c - b'0')) s else (acc, c ∷ s)

-- The digits behind the sign. `s` is the whole text, where the end pointer stays if there is none.
unfoldable pub unsigned : List ℕ → Bool → List ℕ → ℤ × Bool × List ℕ
unsigned s negative [] = (pos 0, false, s)
unsigned s negative (c ∷ t) =
    let (n, rest) = read_digits 0 (c ∷ t) in
    if is_digit c
    then if negative
      then if ltb (2 ^ 63) n
        then (negsuc (2 ^ 63 - 1), true, rest)
        else if n == 0
        then (pos 0, false, rest)
        else (negsuc (n - 1), false, rest)
      else if ltb n (2 ^ 63)
      then (pos n, false, rest)
      else (pos (2 ^ 63 - 1), true, rest)
    else (pos 0, false, s)

signed : List ℕ → List ℕ → ℤ × Bool × List ℕ
signed s [] = unsigned s false []
signed s (c ∷ t) =
    if c == b'-'
    then unsigned s true t
    else if c == b'+'
    then unsigned s false t
    else unsigned s false (c ∷ t)

-- `strtol (s, &end, 10)` for a `long` of 64 bits: the value, whether `errno` is set, and the text from
-- `end` on.
unfoldable pub strtol : List ℕ → ℤ × Bool × List ℕ
unfolding signed
strtol s = signed s (skip_space s)
