-- ===== src/Uuidv7/Hex/Canonical.antt =====
-- The canonical text is 36 bytes without capital letters.
use libchronoid.Prelude.{
  ℕ, ◌/◌, ◌%◌, ◌<◌, ◌≡◌, refl, ap, ap₂, ◌∙◌, subst, List, [], ◌∷◌, map, arith, length, take, drop,
  get_or, AllBelow, AllBelow-append, AllBelow-take, AllBelow-drop, IsArray, build, build-get_or,
  ◌==◌, ltb, ◌&&◌, true,
}
use libchronoid.Prelude.Tables.{every, every-at}
use libchronoid.Uuidv7.Hex.{hex_lower}
use libchronoid.Uuidv7.Hex.Encode.{hex_char, nibbles, hyphenate, hex_text}
use libchronoid.Uuidv7.Hex.Decode.{to_lower}

char_table : every 16 (λ d. (to_lower (hex_char d) == hex_char d) && ltb (hex_char d) 256) ≡ true
unfolding every hex_lower
char_table = refl

small : (d : ℕ) → d < 16 → (to_lower (hex_char d) ≡ hex_char d) × (hex_char d < 256)
small d h = ground (
  arith,
  every-at 16 (λ d. (to_lower (hex_char d) == hex_char d) && ltb (hex_char d) 256) d char_table h,
)

lower_digits :
    (bs : List ℕ)
    → AllBelow 256 bs
    → map to_lower (map hex_char (nibbles bs)) ≡ map hex_char (nibbles bs)
lower_digits [] h = refl
lower_digits (b ∷ bs) h =
    ap₂ ◌∷◌ (small (b / 16) (omega (arith, h.0))).0
      (ap₂ ◌∷◌ (small (b % 16) (omega arith)).0 (lower_digits bs h.1))

digits-AllBelow : (bs : List ℕ) → AllBelow 256 bs → AllBelow 256 (map hex_char (nibbles bs))
digits-AllBelow [] h = tt
digits-AllBelow (b ∷ bs) h = (
  (small (b / 16) (omega (arith, h.0))).1,
  ((small (b % 16) (omega arith)).1, digits-AllBelow bs h.1),
)

hyphenate-AllBelow : (cs : List ℕ) → AllBelow 256 cs → AllBelow 256 (hyphenate cs)
hyphenate-AllBelow cs h = AllBelow-append 256 _ _ (AllBelow-take 256 8 cs h) (
  omega arith,
  AllBelow-append 256 _ _ (group 4 8) (
    omega arith,
    AllBelow-append 256 _ _ (group 4 12)
        (omega arith, AllBelow-append 256 _ _ (group 4 16) (omega arith, group 12 20)),
  ),
)
  where
    group : (n k : ℕ) → AllBelow 256 (take n (drop k cs))
    group n k = AllBelow-take 256 n (drop k cs) (AllBelow-drop 256 k cs h)

length_cells : (g : ℕ → ℕ) → length (hex_text (build 16 g)) ≡ 36
length_cells g = refl

lower_cells :
    (g : ℕ → ℕ)
    → map to_lower (hex_text (build 16 g))
      ≡ hyphenate (map to_lower (map hex_char (nibbles (build 16 g))))
lower_cells g = refl

pub hex_text-IsArray : (bs : List ℕ) → IsArray 16 bs → IsArray 36 (hex_text bs)
hex_text-IsArray bs h = record {
  size =
      subst (λ bs. length (hex_text bs) ≡ 36) (build-get_or bs 16 0 h.size)
        (length_cells (λ i. get_or bs i 0));
  bytes = hyphenate-AllBelow _ (digits-AllBelow bs h.bytes);
}

pub lower-hex_text : (bs : List ℕ) → IsArray 16 bs → map to_lower (hex_text bs) ≡ hex_text bs
lower-hex_text bs h =
    subst (λ bs. map to_lower (hex_text bs) ≡ hyphenate (map to_lower (map hex_char (nibbles bs))))
      (build-get_or bs 16 0 h.size) (lower_cells (λ i. get_or bs i 0))
    ∙ ap hyphenate (lower_digits bs h.bytes)
