-- ===== src/Tests/Codec.antt =====
-- Byte order, base62 and the comparison kernels at concrete inputs.
use libchronoid.Prelude.{
  ℕ, ◌^◌, ◌<◌, ◌≡◌, refl, subst, sym, ap, List, [], ◌∷◌, ◌++◌, map, some, arith, replicate, IsArray,
  AllBelow,
}
use libchronoid.Prelude.Tables.{codes, AllBelow-tested}
use libchronoid.Digits.{value, digits}
use libchronoid.Memory.{memcmp, sign}
use libchronoid.Arch.{sse2, neon}
use libchronoid.Simd.Laws.{all_lanes}
use libchronoid.Ksuid.Types.{ok}
use libchronoid.Simd.{zip_with, set1_epi8, movemask_epi8}
use libchronoid.Ksuid.Base62.{
  base62_encode, base62_decode, decode_tail, decode_loop, decode_divide, put_limb,
}
use libchronoid.Ksuid.Base62.Translate.{kb62_value, translate16, translate16_sse2}
use libchronoid.Ksuid.Base62.Tables.{b62_char, b62_digit}
use libchronoid.Ksuid.Base62.Kernels.{accepts, outcome, translate16_lem}
use libchronoid.Ksuid.Base62.Encode.{base62_encode-digits}
use libchronoid.Ksuid.Base62.RoundTrip.{base62_decode-ok, base62_decode-accepts}
use libchronoid.Ksuid.Compare.{compare20}
use libchronoid.Ksuid.Compare.Kernels.{compare20_lem}
use libchronoid.Tests.Samples.{id_a, id_a-IsKsuid, id_0}

-- The text of 000...01.
abbrev one_text : List ℕ
one_text = codes "000000000000000000000000001"

one_text-IsArray : IsArray 27 one_text
one_text-IsArray = record { size = refl; bytes = AllBelow-tested 256 one_text refl }

one_digits : map b62_digit one_text ≡ replicate 26 0 ++ (1 ∷ [])
unfolding b62_digit kb62_value
one_digits = refl

one_decoded : base62_decode sse2 id_0.b one_text ≡ (ok, replicate 19 0 ++ (1 ∷ []))
unfolding base62_decode decode_tail decode_loop decode_divide put_limb translate16 translate16_sse2
    kb62_value zip_with set1_epi8 movemask_epi8
one_decoded = refl

translate16_lem_example : translate16 sse2 (codes "0Az!9Z000000000a") ≡ (
  map b62_digit (codes "0Az!9Z000000000a"),
  outcome (all_lanes accepts (codes "0Az!9Z000000000a")),
)
translate16_lem_example =
    translate16_lem sse2 (codes "0Az!9Z000000000a")
      (record { size = refl; bytes = AllBelow-tested 256 (codes "0Az!9Z000000000a") refl })

compare20_lem_example : compare20 neon id_a.b id_0.b ≡ sign (memcmp id_a.b id_0.b 20)
compare20_lem_example = compare20_lem neon id_a.b id_0.b refl refl

base62_encode-digits_example :
    base62_encode (replicate 27 1) id_a.b ≡ some (map b62_char (digits 62 27 (value 256 id_a.b)))
base62_encode-digits_example = base62_encode-digits (replicate 27 1) id_a.b refl id_a-IsKsuid

base62_decode-ok_example :
    base62_decode neon id_0.b one_text ≡ (ok, digits 256 20 (value 62 (map b62_digit one_text)))
base62_decode-ok_example =
    base62_decode-ok neon one_text-IsArray id_0.b refl
      (subst (AllBelow 62) (sym one_digits) (AllBelow-tested 62 (replicate 26 0 ++ (1 ∷ [])) refl))
      (subst (λ ds. value 62 ds < 2 ^ 160) (sym one_digits) (omega arith))

base62_decode-accepts_example :
    AllBelow 62 (map b62_digit one_text) × (value 62 (map b62_digit one_text) < 2 ^ 160)
base62_decode-accepts_example =
    base62_decode-accepts sse2 one_text-IsArray id_0.b (ap (λ r. r.0) one_decoded)
