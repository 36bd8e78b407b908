-- ===== src/Uuidv7/Id/Text.antt =====
-- `chronoid_uuidv7_format` and `chronoid_uuidv7_parse`.
use libchronoid.Prelude.{ℕ, ◌≡◌, ◌≢◌, refl, subst, sym, ap, ◌∙◌, List, map, arith, length, IsArray}
use libchronoid.Prelude.Int.{pos}
use libchronoid.Digits.{value, digits}
use libchronoid.Memory.{memcpy, memcpy-all}
use libchronoid.Arch.{Arch}
use libchronoid.Uuidv7.Types.{Uuidv7, IsUuidv7, ok}
use libchronoid.Uuidv7.Hex.{hex_decode}
use libchronoid.Uuidv7.Hex.Encode.{
  hex_char, hyphenate, hex_text, nibbles-digits, hex_encode_lower-hex_text,
}
use libchronoid.Uuidv7.Hex.Decode.{to_lower}
use libchronoid.Uuidv7.Hex.RoundTrip.{hex_decode-hex_text, hex_text-hex_decode}
use libchronoid.Uuidv7.Hex.Canonical.{hex_text-IsArray, lower-hex_text}
use libchronoid.Uuidv7.Id.{uuidv7_format, uuidv7_parse}

-- On every build, `chronoid_uuidv7_format` writes the 32 lower-case hexadecimal digits of the
-- 128-bit number, with hyphens behind the digits 8, 12, 16 and 20, whatever the buffer of 36 held.
pub uuidv7_format-digits :
    (arch : Arch) (id : Uuidv7) (out : List ℕ)
    → IsUuidv7 id
    → length out ≡ 36
    → uuidv7_format arch id out ≡ hyphenate (map hex_char (digits 16 32 (value 256 id.b)))
unfolding uuidv7_format
uuidv7_format-digits arch id out h size =
    hex_encode_lower-hex_text out id.b size h arch
    ∙ ap (λ ns. hyphenate (map hex_char ns)) (nibbles-digits id.b h)

pub format-hex_text :
    (arch : Arch) (id : Uuidv7) (out : List ℕ)
    → IsUuidv7 id
    → length out ≡ 36
    → uuidv7_format arch id out ≡ hex_text id.b
unfolding uuidv7_format
format-hex_text arch id out h size = hex_encode_lower-hex_text out id.b size h arch

module _ (out : Uuidv7) (tmp s : List ℕ) where
  parsed :
      (hex_decode tmp s 36).0 ≡ pos 0
      → uuidv7_parse out tmp s 36 ≡ (ok, record { b = memcpy out.b 0 (hex_decode tmp s 36).1 16 })
  unfolding uuidv7_parse
  parsed e = rw (e) refl

  decoded : {id : Uuidv7} → uuidv7_parse out tmp s 36 ≡ (ok, id) → (hex_decode tmp s 36).0 ≡ pos 0
  unfolding uuidv7_parse
  decoded e = ground arith

module _ (arch : Arch) (out id : Uuidv7) (tmp buf s : List ℕ) (k : IsUuidv7 out)
    (size : length tmp ≡ 16) (buf_size : length buf ≡ 36) where
  -- 36 bytes that are, with their capital letters made small, the text that
  -- `chronoid_uuidv7_format` writes on some build for an identifier parse to it.
  pub uuidv7_parse-to_lower :
      IsUuidv7 id
      → IsArray 36 s
      → map to_lower s ≡ uuidv7_format arch id buf
      → uuidv7_parse out tmp s 36 ≡ (ok, id)
  uuidv7_parse-to_lower h array e =
      let read =
        hex_decode-hex_text tmp s id.b size array h (e ∙ format-hex_text arch id buf h buf_size) in
      parsed out tmp s (ap (λ r. r.0) read)
      ∙ ap (λ b. (ok, record { b = b }))
          (ap (λ r. memcpy out.b 0 r.1 16) read ∙ memcpy-all out.b id.b 16 k.size h.size)

  -- 36 bytes that parse as a UUID are, with their capital letters made small, the text that
  -- `chronoid_uuidv7_format` writes on any build for the identifier that they parse to.
  pub uuidv7_format-uuidv7_parse :
      IsArray 36 s
      → uuidv7_parse out tmp s 36 ≡ (ok, id)
      → IsUuidv7 id × (map to_lower s ≡ uuidv7_format arch id buf)
  uuidv7_format-uuidv7_parse array e =
      let read = decoded out tmp s e in
      let (bytes, text) = hex_text-hex_decode tmp s size array read in
      let same : (hex_decode tmp s 36).1 ≡ id.b =
        sym (memcpy-all out.b (hex_decode tmp s 36).1 16 k.size bytes.size)
        ∙ ap (λ r. r.1.b) (sym (parsed out tmp s read) ∙ e) in
      let valid : IsUuidv7 id = subst (IsArray 16) same bytes in
      (valid, text ∙ ap hex_text same ∙ sym (format-hex_text arch id buf valid buf_size))

-- The text that `chronoid_uuidv7_format` writes on any build is 36 bytes, and these parse to the
-- identifier, whatever the buffers, of their sizes, held.
pub uuidv7_parse-uuidv7_format :
    (arch : Arch) (out id : Uuidv7) (tmp buf : List ℕ)
    → IsUuidv7 out
    → IsUuidv7 id
    → length tmp ≡ 16
    → length buf ≡ 36
    → IsArray 36 (uuidv7_format arch id buf)
      × (uuidv7_parse out tmp (uuidv7_format arch id buf) 36 ≡ (ok, id))
uuidv7_parse-uuidv7_format arch out id tmp buf k h size buf_size = (
  array,
  uuidv7_parse-to_lower arch out id tmp buf (uuidv7_format arch id buf) k size buf_size h array
      (ap (map to_lower) same ∙ lower-hex_text id.b h ∙ sym same),
)
  where
    same : uuidv7_format arch id buf ≡ hex_text id.b
    same = format-hex_text arch id buf h buf_size

    array : IsArray 36 (uuidv7_format arch id buf)
    array = subst (IsArray 36) (sym same) (hex_text-IsArray id.b h)

-- A call of `chronoid_uuidv7_parse` that fails leaves `*out` untouched.
pub uuidv7_parse-untouched :
    (out : Uuidv7) (tmp s : List ℕ) (n : ℕ)
    → (uuidv7_parse out tmp s n).0 ≢ ok
    → (uuidv7_parse out tmp s n).1 ≡ out
unfolding uuidv7_parse
uuidv7_parse-untouched out tmp s n e = ground arith
