-- ===== src/Uuidv7/Id/Fields.antt =====
-- `chronoid_uuidv7_from_parts` and the generators against the accessors.
use libchronoid.Prelude.{
  ℕ, ◌+◌, ◌/◌, ◌%◌, ◌^◌, ◌<◌, ◌≡◌, refl, ap, ◌∙◌, List, arith, get_or, IsArray, ◌>>◌, true, false,
}
use libchronoid.Prelude.Int.{ℤ, pos, ◌≤ℤ◌, to_u64}
use libchronoid.Prelude.Bits.{bit_and_mask}
use libchronoid.Digits.{value, digits, digits-AllBelow, value-digits}
use libchronoid.Memory.{memcpy, memcpy-all}
use libchronoid.Platform.{Platform}
use libchronoid.Uuidv7.Types.{Uuidv7, IsUuidv7, ok, err_time_range, max_unix_ms}
use libchronoid.Uuidv7.Id.{
  parts_bytes, uuidv7_from_parts, uuidv7_unix_ms, uuidv7_version, uuidv7_variant,
  uuidv7_new_with_time, out_of_range,
}
use libchronoid.Uuidv7.Id.Parts.{
  layout, uuid_of, uuid_of-IsUuidv7, value-uuid_of, parts_bytes-digits, load48,
}

-- What `uuid_of` stands for.
abbrev pub HasFields : Uuidv7 → ℕ → ℕ → ℕ → Type 0
HasFields id ms rand_a rand_b =
    IsUuidv7 id
    × (value 256 id.b ≡ layout ms rand_a rand_b)
    × (uuidv7_unix_ms id ≡ pos ms)
    × (uuidv7_version id ≡ 7)
    × (uuidv7_variant id ≡ 2)

pub uuid_of-HasFields :
    (ms a : ℕ) (rand_b : List ℕ)
    → IsArray 8 rand_b
    → ms < 2 ^ 48
    → HasFields (uuid_of ms a rand_b) ms (a % 2 ^ 12) (value 256 rand_b % 2 ^ 62)
unfolding uuidv7_unix_ms uuidv7_version uuidv7_variant digits
uuid_of-HasFields ms a rand_b h lt = (
  uuid_of-IsUuidv7 ms a rand_b h,
  value-uuid_of ms a rand_b h lt,
  ap pos (
      load48 (λ i. get_or (digits 256 6 ms) i 0) (digits-AllBelow 256 6 ms (omega arith))
      ∙ value-digits 256 6 ms (omega arith) lt),
  omega (arith, bit_and_mask 4 ((0x70 + a % 4096 / 256) >> 4)),
  omega (arith, bit_and_mask 2 ((0x80 + get_or rand_b 0 0 % 64) >> 6)),
)

-- `unix_ms` is a 48-bit time.
abbrev pub In48 : ℤ → Type 0
In48 t = (pos 0 ≤ℤ t) × (t ≤ℤ pos max_unix_ms)

pub in_range : (ms : ℕ) → ms < 2 ^ 48 → out_of_range (pos ms) ≡ false
in_range ms h = ground arith

pub not_in_range : (t : ℤ) → ¬ In48 t → out_of_range t ≡ true
not_in_range t h = ground arith

pub from_parts-uuid_of :
    (out : Uuidv7) (ms a : ℕ) (rand_b : List ℕ)
    → IsUuidv7 out
    → IsArray 8 rand_b
    → ms < 2 ^ 48
    → uuidv7_from_parts out (pos ms) a rand_b ≡ (ok, uuid_of ms a rand_b)
unfolding uuidv7_from_parts
from_parts-uuid_of out ms a rand_b k h lt = rw (in_range ms lt) (
    ap (λ b. (ok, record { b = b }))
      (ap (λ t. memcpy out.b 0 t 16) same
        ∙ memcpy-all out.b (uuid_of ms a rand_b).b 16 k.size (uuid_of-IsUuidv7 ms a rand_b h).size))
  where
    same : parts_bytes (to_u64 (pos ms)) a rand_b ≡ (uuid_of ms a rand_b).b
    same = ap (λ t. parts_bytes t a rand_b) {y = ms} (omega arith) ∙ parts_bytes-digits ms a rand_b

-- For a 48-bit time and 8 bytes `rand_b`, `chronoid_uuidv7_from_parts` succeeds with the identifier
-- that RFC 9562 lays out: as a number the 48 bits of the time, version 7, the low 12 bits of
-- `rand_a`, variant 2, and the low 62 bits of `rand_b`; and the accessors read the time, the
-- version and the variant back.
pub uuidv7_from_parts-layout :
    (out : Uuidv7) (ms a : ℕ) (rand_b : List ℕ)
    → IsUuidv7 out
    → IsArray 8 rand_b
    → ms < 2 ^ 48
    → (id : Uuidv7) × (uuidv7_from_parts out (pos ms) a rand_b ≡ (ok, id))
      × HasFields id ms (a % 2 ^ 12) (value 256 rand_b % 2 ^ 62)
uuidv7_from_parts-layout out ms a rand_b k h lt = (
  uuid_of ms a rand_b,
  from_parts-uuid_of out ms a rand_b k h lt,
  uuid_of-HasFields ms a rand_b h lt,
)

-- A time outside the 48 bits is refused as ERR_TIME_RANGE with `*out` untouched by
-- `chronoid_uuidv7_from_parts`, and by `chronoid_uuidv7_new_with_time` before anything is drawn.
pub uuidv7_from_parts-refuses :
    {W : Type 0} (platform : Platform W) (out : Uuidv7) (t : ℤ) (a : ℕ) (rand_b buf : List ℕ)
    (w : W)
    → ¬ In48 t
    → (uuidv7_from_parts out t a rand_b ≡ (err_time_range, out))
      × (uuidv7_new_with_time platform buf out t w ≡ (err_time_range, out, w))
unfolding uuidv7_from_parts uuidv7_new_with_time
uuidv7_from_parts-refuses platform out t a rand_b buf w h =
    (rw (not_in_range t h) refl, rw (not_in_range t h) refl)
