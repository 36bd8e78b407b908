-- ===== src/Tests/Uuidv7.antt =====
-- chronoid/uuidv7 at concrete inputs.
use libchronoid.Prelude.{ℕ, ◌%◌, ◌^◌, ◌≡◌, ◌≢◌, refl, List, map, arith, replicate, IsArray}
use libchronoid.Prelude.Int.{pos}
use libchronoid.Prelude.Tables.{codes, AllBelow-tested}
use libchronoid.Digits.{value, digits}
use libchronoid.Arch.{sse2, scalar}
use libchronoid.Uuidv7.Types.{Uuidv7, IsUuidv7, ok}
use libchronoid.Uuidv7.Hex.{hex_lower, encode_bytes, hex_encode_lower_scalar, hex_encode_lower}
use libchronoid.Uuidv7.Hex.Encode.{hex_char, hyphenate}
use libchronoid.Uuidv7.Hex.Decode.{to_lower}
use libchronoid.Uuidv7.Id.{uuidv7_from_parts, uuidv7_unix_ms, uuidv7_format, uuidv7_parse}
use libchronoid.Uuidv7.Id.Fields.{HasFields, uuidv7_from_parts-layout}
use libchronoid.Uuidv7.Id.Text.{
  uuidv7_format-digits, uuidv7_parse-to_lower, uuidv7_parse-uuidv7_format,
  uuidv7_format-uuidv7_parse,
}
use libchronoid.Tests.Samples.{uuid_a, uuid_a-IsUuidv7, uuid_0, uuid_0-IsUuidv7, bytes}

uuidv7_from_parts-layout_example :
    (id : Uuidv7) × (uuidv7_from_parts uuid_0 (pos 1700000000000) 65535 (replicate 8 200)
      ≡ (ok, id))
    × HasFields id 1700000000000 (65535 % 2 ^ 12) (value 256 (replicate 8 200) % 2 ^ 62)
uuidv7_from_parts-layout_example =
    uuidv7_from_parts-layout uuid_0 1700000000000 65535 (replicate 8 200) uuid_0-IsUuidv7
      (bytes 8 200 (omega arith)) (omega arith)

uuidv7_format-digits_example :
    uuidv7_format sse2 uuid_a (replicate 36 1)
    ≡ hyphenate (map hex_char (digits 16 32 (value 256 uuid_a.b)))
uuidv7_format-digits_example =
    uuidv7_format-digits sse2 uuid_a (replicate 36 1) uuid_a-IsUuidv7 refl

-- The text of `uuid_a` in capital letters.
abbrev capitals : List ℕ
capitals = codes "090A0B0C-0D0E-0F10-1112-131415161718"

capitals-IsArray : IsArray 36 capitals
capitals-IsArray = record { size = refl; bytes = AllBelow-tested 256 capitals refl }

capitals-format : map to_lower capitals ≡ uuidv7_format scalar uuid_a (replicate 36 1)
unfolding uuidv7_format hex_encode_lower hex_encode_lower_scalar encode_bytes hex_lower
capitals-format = refl

uuidv7_parse-uuidv7_format_example :
    IsArray 36 (uuidv7_format sse2 uuid_a (replicate 36 1))
    × (uuidv7_parse uuid_0 (replicate 16 1) (uuidv7_format sse2 uuid_a (replicate 36 1)) 36
        ≡ (ok, uuid_a))
uuidv7_parse-uuidv7_format_example =
    uuidv7_parse-uuidv7_format sse2 uuid_0 uuid_a (replicate 16 1) (replicate 36 1) uuid_0-IsUuidv7
      uuid_a-IsUuidv7 refl refl

uuidv7_format-uuidv7_parse_example :
    IsUuidv7 uuid_a × (map to_lower capitals ≡ uuidv7_format scalar uuid_a (replicate 36 1))
uuidv7_format-uuidv7_parse_example =
    uuidv7_format-uuidv7_parse scalar uuid_0 uuid_a (replicate 16 1) (replicate 36 1) capitals
      uuid_0-IsUuidv7 refl refl capitals-IsArray
      (uuidv7_parse-to_lower scalar uuid_0 uuid_a (replicate 16 1) (replicate 36 1) capitals
        uuid_0-IsUuidv7 refl refl uuid_a-IsUuidv7 capitals-IsArray capitals-format)

short_fails : (uuidv7_parse uuid_a (replicate 16 1) (codes "abc") 3).0 ≢ ok
unfolding uuidv7_parse
short_fails e = ground (arith, e)

time_0 : uuidv7_unix_ms uuid_0 ≡ pos 0
unfolding uuidv7_unix_ms
time_0 = refl

time_a : uuidv7_unix_ms uuid_a ≡ pos 0x090a0b0c0d0e
unfolding uuidv7_unix_ms
time_a = refl
