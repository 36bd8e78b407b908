-- ===== src/Gen/Numbers.antt =====
-- `strtol` reads back what `printf` writes.
use libchronoid.Prelude.{
  ℕ, zero, suc, ◌+◌, ◌-◌, ◌*◌, ◌^◌, ◌<◌, ◌≡◌, refl, ap, ◌∙◌, List, [], ◌∷◌, map, false, arith,
  length, AllBelow,
}
use libchronoid.Prelude.Int.{pos}
use libchronoid.Digits.{value, value_from, digits, value-digits, length-digits, digits-AllBelow}
use libchronoid.Gen.Stdio.{strip, print_u, skip_space, read_digits, unsigned, strtol}

strip-value : (ds : List ℕ) → value 10 (strip ds) ≡ value 10 ds
unfolding strip
strip-value [] = refl
strip-value (d ∷ []) = refl
strip-value (zero ∷ e ∷ ds) = strip-value (e ∷ ds)
strip-value (suc d ∷ e ∷ ds) = refl

strip-AllBelow : (ds : List ℕ) → AllBelow 10 ds → AllBelow 10 (strip ds)
unfolding strip
strip-AllBelow [] h = h
strip-AllBelow (d ∷ []) h = h
strip-AllBelow (zero ∷ e ∷ ds) h = strip-AllBelow (e ∷ ds) h.1
strip-AllBelow (suc d ∷ e ∷ ds) h = h

strip-pos : (ds : List ℕ) → 0 < length ds → 0 < length (strip ds)
unfolding strip
strip-pos [] h = h
strip-pos (d ∷ []) h = h
strip-pos (zero ∷ e ∷ ds) h = strip-pos (e ∷ ds) (omega arith)
strip-pos (suc d ∷ e ∷ ds) h = omega arith

abbrev char : ℕ → ℕ
char d = b'0' + d

read_digits-char :
    (ds : List ℕ) (acc : ℕ)
    → AllBelow 10 ds
    → read_digits acc (map char ds) ≡ (value_from 10 acc ds, [])
unfolding read_digits
read_digits-char [] acc h = refl
read_digits-char (d ∷ ds) acc h = ground (
  arith,
  read_digits-char ds (acc * 10 + (char d - b'0')) h.1,
  ap (λ a. value_from 10 a ds) {x = acc * 10 + (char d - b'0')} {y = acc * 10 + d} (omega arith),
)

strtol-char :
    (ds : List ℕ) (n : ℕ)
    → AllBelow 10 ds
    → 0 < length ds
    → value 10 ds ≡ n
    → n < 2 ^ 63
    → strtol (map char ds) ≡ (pos n, false, [])
unfolding strtol skip_space unsigned
strtol-char [] n h some_digit e lt = absurd (omega arith)
strtol-char (d ∷ ds) n h some_digit e lt = ground (arith, read_digits-char (d ∷ ds) 0 h)

pub strtol-print_u : (n : ℕ) → n < 2 ^ 63 → strtol (print_u n) ≡ (pos n, false, [])
unfolding print_u
strtol-print_u n lt =
    strtol-char (strip (digits 10 20 n)) n
      (strip-AllBelow (digits 10 20 n) (digits-AllBelow 10 20 n (omega arith)))
      (strip-pos (digits 10 20 n) (omega (arith, length-digits 10 20 n)))
      (strip-value (digits 10 20 n) ∙ value-digits 10 20 n (omega arith) (omega arith)) lt
