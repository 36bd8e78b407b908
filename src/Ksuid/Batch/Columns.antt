-- ===== src/Ksuid/Batch/Columns.antt =====
-- The loop over the columns of chronoid/ksuid/encode_avx2.c writes the base62 digits of every lane.
use libchronoid.Prelude.{
  ℕ, zero, suc, ◌+◌, ◌*◌, ◌/◌, ◌%◌, ◌^◌, ◌≤◌, ◌<◌, ◌≡◌, refl, sym, ap, ap₂, ◌∙◌, List, [], ◌∷◌,
  ◌++◌, map, map-append, append_assoc, arith, length, length-set, length-append, AllBelow, All, set,
  drop, drop-set, flatten, set-append_left, set-append_right,
}
use libchronoid.Digits.{value, value_from, digits, quotient, remainder}
use libchronoid.Ksuid.Base62.Translate.{kb62_alphabet}
use libchronoid.Ksuid.Base62.Tables.{b62_char}
use libchronoid.Ksuid.Batch.{avx2_b62_alphabet, scatter}
use libchronoid.Ksuid.Batch.Lanes.{head, divide}

abbrev pub IsLimbs : List ℕ → Type 0
IsLimbs l = (length l ≡ 5) × AllBelow (2 ^ 32) l

divide-value :
    (n : ℕ) (l : List ℕ) (r a : ℕ)
    → length l ≡ n
    → value_from (2 ^ 32) a (divide n l r).0 * 62 + (divide n l r).1
      ≡ value_from (2 ^ 32) (a * 62 + r) l
divide-value zero [] r a size = refl
divide-value zero (x ∷ l) r a size = absurd (omega arith)
divide-value (suc n) [] r a size = absurd (omega arith)
divide-value (suc n) (x ∷ l) r a size =
    divide-value n l ((x + r * 2 ^ 32) % 62) (a * 2 ^ 32 + (x + r * 2 ^ 32) / 62) (omega arith)
    ∙ ap (λ c. value_from (2 ^ 32) c l) {y = (a * 62 + r) * 2 ^ 32 + x} (omega arith)

divide-lt : (n : ℕ) (l : List ℕ) (r : ℕ) → r < 62 → (divide n l r).1 < 62
divide-lt zero l r h = h
divide-lt (suc n) l r h = divide-lt n (drop 1 l) ((head l + r * 2 ^ 32) % 62) (omega arith)

divide-limbs :
    (n : ℕ) (l : List ℕ) (r : ℕ)
    → length l ≡ n
    → AllBelow (2 ^ 32) l
    → r < 62
    → (length (divide n l r).0 ≡ n) × AllBelow (2 ^ 32) (divide n l r).0
divide-limbs zero l r size h lt = (refl, tt)
divide-limbs (suc n) [] r size h lt = absurd (omega arith)
divide-limbs (suc n) (x ∷ l) r size h lt =
    let (rest, below) = divide-limbs n l ((x + r * 2 ^ 32) % 62) (omega arith) h.1 (omega arith) in
    (ap suc rest, (omega (arith, h.0), below))

-- The division of a whole number of five limbs.
abbrev pub quot : List ℕ → List ℕ
quot l = (divide 5 l 0).0

abbrev pub rem : List ℕ → ℕ
rem l = (divide 5 l 0).1

total : (l : List ℕ) → length l ≡ 5 → value (2 ^ 32) (quot l) * 62 + rem l ≡ value (2 ^ 32) l
total l size = divide-value 5 l 0 0 size ∙ ap (λ c. value_from (2 ^ 32) c l) {y = 0} (omega arith)

quot-value : (l : List ℕ) → length l ≡ 5 → value (2 ^ 32) (quot l) ≡ value (2 ^ 32) l / 62
quot-value l size = sym (
    ap (λ t. t / 62) (sym (total l size))
    ∙ quotient 62 (value (2 ^ 32) (quot l)) (rem l) (divide-lt 5 l 0 (omega arith)))

rem-value : (l : List ℕ) → length l ≡ 5 → rem l ≡ value (2 ^ 32) l % 62
rem-value l size = sym (
    ap (λ t. t % 62) (sym (total l size))
    ∙ remainder 62 (value (2 ^ 32) (quot l)) (rem l) (divide-lt 5 l 0 (omega arith)))

quot-IsLimbs : (l : List ℕ) → IsLimbs l → IsLimbs (quot l)
quot-IsLimbs l h = divide-limbs 5 l 0 h.0 h.1 (omega arith)

-- What the loop does to one lane, with its 27 bytes of output.
abbrev pub lane : ℕ → List ℕ → List ℕ → List ℕ
lane zero l c = c
lane (suc n) l c = lane n (quot l) (set c n (b62_char (rem l)))

pub lane-digits :
    (n : ℕ) (l c : List ℕ)
    → IsLimbs l
    → n ≤ length c
    → lane n l c ≡ map b62_char (digits 62 n (value (2 ^ 32) l)) ++ drop n c
unfolding digits
lane-digits zero l c h size = refl
lane-digits (suc n) l c h size =
    lane-digits n (quot l) (set c n (b62_char (rem l))) (quot-IsLimbs l h)
      (omega (arith, length-set c n (b62_char (rem l))))
    ∙ ap₂ ◌++◌ (ap (λ v. map b62_char (digits 62 n v)) (quot-value l h.0))
        (drop-set n (b62_char (rem l)) c (omega arith))
    ∙ ap (λ d. map b62_char (digits 62 n (value (2 ^ 32) l / 62)) ++ (b62_char d ∷ drop (suc n) c))
        (rem-value l h.0)
    ∙ rw (map-append, append_assoc) refl

-- A lane with its output: limbs and characters.
abbrev pub IsColumn : List ℕ × List ℕ → Type 0
IsColumn (l, c) = IsLimbs l × (length c ≡ 27)

abbrev pub step : ℕ → List ℕ × List ℕ → List ℕ × List ℕ
step n s = (quot s.0, set s.1 n (b62_char (rem s.0)))

pub step-IsColumn : (n : ℕ) (s : List ℕ × List ℕ) → IsColumn s → IsColumn (step n s)
step-IsColumn n s h = (quot-IsLimbs s.0 h.0, length-set s.1 n _ ∙ h.1)

abbrev pub chars : List (List ℕ × List ℕ) → List ℕ
chars ss = flatten (map (λ s. s.1) ss)

pub scatter-chars :
    (n k : ℕ) (ss : List (List ℕ × List ℕ)) (pre rest : List ℕ)
    → n < 27
    → length pre ≡ k * 27
    → All IsColumn ss
    → scatter n k (map (λ s. rem s.0) ss) (pre ++ (chars ss ++ rest))
      ≡ pre ++ (chars (map (step n) ss) ++ rest)
unfolding scatter b62_char avx2_b62_alphabet kb62_alphabet
scatter-chars n k [] pre rest lt size h = refl
scatter-chars n k ((l, c) ∷ ss) pre rest lt size h =
    ap (scatter n (k + 1) (map (λ s. rem s.0) ss)) written
    ∙ scatter-chars n (k + 1) ss (pre ++ set c n ch) rest lt
        (length-append pre (set c n ch) ∙ omega (arith, size, length-set c n ch, h.0.1)) h.1
    ∙ append_assoc pre (set c n ch) (chars (map (step n) ss) ++ rest)
    ∙ ap (λ t. pre ++ t) (sym (append_assoc (set c n ch) (chars (map (step n) ss)) rest))
  where
    ch : ℕ
    ch = b62_char (rem l)

    written :
        set (pre ++ ((c ++ chars ss) ++ rest)) (k * 27 + n) ch
        ≡ (pre ++ set c n ch) ++ (chars ss ++ rest)
    written =
        set-append_right pre ((c ++ chars ss) ++ rest) (k * 27) n ch size
        ∙ ap (λ t. pre ++ set t n ch) (append_assoc c (chars ss) rest)
        ∙ ap (λ t. pre ++ t) (set-append_left c (chars ss ++ rest) n ch (omega (arith, h.0.1, lt)))
        ∙ sym (append_assoc pre (set c n ch) (chars ss ++ rest))
