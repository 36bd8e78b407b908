-- ===== src/Uuidv7/Id/Parts.antt =====
-- The layout of RFC 9562 as a number: what `chronoid_uuidv7_from_parts` builds and the accessors
-- read.
use libchronoid.Prelude.{
  ℕ, ◌+◌, ◌*◌, ◌/◌, ◌%◌, ◌^◌, ◌<◌, ◌≡◌, subst, sym, ap, ap₂, ◌∙◌, List, ◌∷◌, ◌++◌, arith, take,
  drop, get_or, AllBelow, AllBelow-append, AllBelow-take, AllBelow-drop, length-append, length-take,
  length-drop, IsArray, build, build-get_or, ◌>>◌, ◌<<◌, u8, bit_and, bit_or,
}
use libchronoid.Prelude.Bits.{bit_and_mask, bit_or_disjoint}
use libchronoid.Digits.{
  value, value_from, value_from-append, digits, length-digits, digits-AllBelow, value-digits,
}
use libchronoid.Uuidv7.Types.{Uuidv7, IsUuidv7}
use libchronoid.Uuidv7.Id.{parts_bytes}

-- The identifier with a 48-bit time, a 12-bit and a 62-bit field, as a 128-bit number.
abbrev pub layout : ℕ → ℕ → ℕ → ℕ
layout ms rand_a rand_b = ms * 2 ^ 80 + 7 * 2 ^ 76 + rand_a * 2 ^ 64 + 2 * 2 ^ 62 + rand_b

-- The three bytes that hold fixed bits, with the masks read as arithmetic.
byte6 : (a : ℕ) → u8 (bit_or 0x70 (bit_and (bit_and a 0x0fff >> 8) 0x0f)) ≡ 0x70 + a % 4096 / 256
byte6 a =
    ap (λ x. u8 (bit_or 0x70 x)) {y = a % 4096 / 256}
      (omega (arith, bit_and_mask 4 (bit_and a 0x0fff >> 8), bit_and_mask 12 a))
    ∙ omega (arith, bit_or_disjoint 4 7 (a % 4096 / 256) (omega arith))

byte7 : (a : ℕ) → u8 (bit_and (bit_and a 0x0fff) 0xff) ≡ a % 256
byte7 a = omega (arith, bit_and_mask 8 (bit_and a 0x0fff), bit_and_mask 12 a)

byte8 : (x : ℕ) → u8 (bit_or 0x80 (bit_and x 0x3f)) ≡ 0x80 + x % 64
byte8 x =
    ap (λ y. u8 (bit_or 0x80 y)) (bit_and_mask 6 x)
    ∙ omega (arith, bit_or_disjoint 6 2 (x % 64) (omega arith))

-- The stores of `chronoid_uuidv7_from_parts` so read.
abbrev pub tail_bytes : ℕ → List ℕ → List ℕ
tail_bytes a rand_b =
    (0x70 + a % 4096 / 256) ∷ a % 256 ∷ (0x80 + get_or rand_b 0 0 % 64) ∷ take 7 (drop 1 rand_b)

pub parts_bytes-digits :
    (ms a : ℕ) (rand_b : List ℕ) → parts_bytes ms a rand_b ≡ digits 256 6 ms ++ tail_bytes a rand_b
unfolding parts_bytes digits
parts_bytes-digits ms a rand_b = ap₂ ◌∷◌ (omega arith) (
    ap₂ ◌∷◌ (omega arith) (
      ap₂ ◌∷◌ (omega arith) (
        ap₂ ◌∷◌ (omega arith) (
          ap₂ ◌∷◌ (omega arith)
            (ap (λ t. u8 ms ∷ t) (rw (byte6 a, byte7 a, byte8 (get_or rand_b 0 0))))))))

tail_cells :
    (t a : ℕ) (g : ℕ → ℕ)
    → AllBelow 256 (build 8 g)
    → value_from 256 t (tail_bytes a (build 8 g))
      ≡ layout t (a % 2 ^ 12) (value 256 (build 8 g) % 2 ^ 62)
tail_cells t a g h = omega (
  arith, h.0, h.1.0, h.1.1.0, h.1.1.1.0, h.1.1.1.1.0, h.1.1.1.1.1.0, h.1.1.1.1.1.1.0,
  h.1.1.1.1.1.1.1.0,
)

-- The identifier of a time and the random fields.
abbrev pub uuid_of : ℕ → ℕ → List ℕ → Uuidv7
uuid_of ms a rand_b = record { b = digits 256 6 ms ++ tail_bytes a rand_b }

-- The 48-bit load of `chronoid_uuidv7_unix_ms`.
pub load48 :
    (b : ℕ → ℕ)
    → AllBelow 256 (build 6 b)
    → bit_or
        (bit_or
          (bit_or (bit_or (bit_or (b 0 << 40) (b 1 << 32)) (b 2 << 24)) (b 3 << 16))
          (b 4 << 8))
        (b 5)
      ≡ value 256 (build 6 b)
load48 b h =
    ap (λ x. bit_or (bit_or (bit_or (bit_or x (b 2 << 24)) (b 3 << 16)) (b 4 << 8)) (b 5))
      (bit_or_disjoint 40 (b 0) (b 1 << 32) (omega (arith, h.1.0)))
    ∙ ap (λ x. bit_or (bit_or (bit_or x (b 3 << 16)) (b 4 << 8)) (b 5))
        (ap (λ x. bit_or x (b 2 << 24)) {y = (b 0 * 256 + b 1) * 2 ^ 32} (omega arith)
          ∙ bit_or_disjoint 32 (b 0 * 256 + b 1) (b 2 << 24) (omega (arith, h.1.1.0)))
    ∙ ap (λ x. bit_or (bit_or x (b 4 << 8)) (b 5))
        (ap (λ x. bit_or x (b 3 << 16)) {y = ((b 0 * 256 + b 1) * 256 + b 2) * 2 ^ 24} (omega arith)
          ∙ bit_or_disjoint 24 ((b 0 * 256 + b 1) * 256 + b 2) (b 3 << 16)
              (omega (arith, h.1.1.1.0)))
    ∙ ap (λ x. bit_or x (b 5))
        (ap (λ x. bit_or x (b 4 << 8)) {y = value 256 (build 4 b) * 2 ^ 16} (omega arith)
          ∙ bit_or_disjoint 16 (value 256 (build 4 b)) (b 4 << 8) (omega (arith, h.1.1.1.1.0)))
    ∙ ap (λ x. bit_or x (b 5)) {y = value 256 (build 5 b) * 2 ^ 8} (omega arith)
    ∙ bit_or_disjoint 8 (value 256 (build 5 b)) (b 5) (omega (arith, h.1.1.1.1.1.0))
    ∙ omega arith

module _ (ms a : ℕ) (rand_b : List ℕ) (h : IsArray 8 rand_b) where
  pub uuid_of-IsUuidv7 : IsUuidv7 (uuid_of ms a rand_b)
  uuid_of-IsUuidv7 = record {
    size = omega (
      arith,
      length-append (digits 256 6 ms) (tail_bytes a rand_b),
      length-digits 256 6 ms,
      length-take 7 (drop 1 rand_b),
      length-drop 1 rand_b,
      h.size,
    );
    bytes =
        AllBelow-append 256 (digits 256 6 ms) (tail_bytes a rand_b)
          (digits-AllBelow 256 6 ms (omega arith))
          (
            omega arith,
            (
              omega arith,
              (
                omega arith,
                AllBelow-take 256 7 (drop 1 rand_b) (AllBelow-drop 256 1 rand_b h.bytes),
              ),
            ),
          );
  }

  pub value-uuid_of :
      ms < 2 ^ 48
      → value 256 (uuid_of ms a rand_b).b ≡ layout ms (a % 2 ^ 12) (value 256 rand_b % 2 ^ 62)
  value-uuid_of lt =
      value_from-append 256 0 (digits 256 6 ms) (tail_bytes a rand_b)
      ∙ ap (λ t. value_from 256 t (tail_bytes a rand_b)) (value-digits 256 6 ms (omega arith) lt)
      ∙ subst
          (λ r. value_from 256 ms (tail_bytes a r) ≡ layout ms (a % 2 ^ 12) (value 256 r % 2 ^ 62))
          (build-get_or rand_b 8 0 h.size)
          (tail_cells ms a (λ i. get_or rand_b i 0)
            (subst (AllBelow 256) (sym (build-get_or rand_b 8 0 h.size)) h.bytes))
