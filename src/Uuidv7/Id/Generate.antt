-- ===== src/Uuidv7/Id/Generate.antt =====
-- `chronoid_uuidv7_new_with_time` and `chronoid_uuidv7_new`.
use libchronoid.Prelude.{
  ℕ, ◌%◌, ◌^◌, ◌≤◌, ◌<◌, ◌≡◌, ◌≢◌, ap, List, [], ◌∷◌, arith, length, take, drop, get_or, AllBelow,
  AllBelow-drop, length-drop, IsArray, subst, ◌<<◌, u16, bit_or,
}
use libchronoid.Prelude.Int.{pos}
use libchronoid.Prelude.Bits.{bit_or_disjoint}
use libchronoid.Digits.{value}
use libchronoid.Platform.{Platform}
use libchronoid.Uuidv7.Types.{Uuidv7, IsUuidv7, Uuidv7Err, ok, err_rng}
use libchronoid.Uuidv7.Id.{uuidv7_new_with_time}
use libchronoid.Uuidv7.Id.Parts.{uuid_of}
use libchronoid.Uuidv7.Id.Fields.{HasFields, uuid_of-HasFields, in_range, from_parts-uuid_of}

-- The two bytes of `rand_a`, as the number that they stand for.
pub two_bytes :
    (b : List ℕ)
    → AllBelow 256 b
    → 2 ≤ length b
    → bit_or (get_or b 0 0 << 8) (get_or b 1 0) ≡ value 256 (take 2 b)
two_bytes [] h k = absurd (omega arith)
two_bytes (x ∷ []) h k = absurd (omega arith)
two_bytes (x ∷ y ∷ b) h k = omega (arith, bit_or_disjoint 8 x y h.1.0)

module _ {W : Type 0} (platform : Platform W) (buf : List ℕ) (out : Uuidv7) (w : W)
    (size : length buf ≡ 10) where
  -- For a 48-bit time and a random source that returns 0, `chronoid_uuidv7_new_with_time` succeeds
  -- with the layout of RFC 9562 for this time, the low 12 bits of the first two of the ten bytes
  -- drawn and the low 62 bits of the others.
  pub uuidv7_new_with_time-layout :
      (ms : ℕ)
      → ms < 2 ^ 48
      → IsUuidv7 out
      → (platform.fill_random buf 10 w).0 ≡ pos 0
      → let (_, rnd, w') = platform.fill_random buf 10 w in
        (id : Uuidv7) × (uuidv7_new_with_time platform buf out (pos ms) w ≡ (ok, id, w'))
        × HasFields id ms (value 256 (take 2 rnd) % 2 ^ 12) (value 256 (drop 2 rnd) % 2 ^ 62)
  unfolding uuidv7_new_with_time
  uuidv7_new_with_time-layout ms lt k rc = (
    uuid_of ms (u16 (bit_or (get_or rnd 0 0 << 8) (get_or rnd 1 0))) (drop 2 rnd),
    rw (in_range ms lt, rc)
        (ap (λ (r : Uuidv7Err × Uuidv7). (r.0, r.1, (platform.fill_random buf 10 w).2))
          (from_parts-uuid_of out ms _ (drop 2 rnd) k rest lt)),
    subst
        (λ a.
          HasFields (uuid_of ms (u16 (bit_or (get_or rnd 0 0 << 8) (get_or rnd 1 0))) (drop 2 rnd))
            ms a (value 256 (drop 2 rnd) % 2 ^ 62))
        (omega (arith, two_bytes rnd drawn.bytes (omega (arith, drawn.size))))
        (uuid_of-HasFields ms (u16 (bit_or (get_or rnd 0 0 << 8) (get_or rnd 1 0))) (drop 2 rnd)
          rest lt),
  )
    where
      rnd : List ℕ
      rnd = (platform.fill_random buf 10 w).1

      drawn : IsArray 10 rnd
      drawn = platform.fills buf 10 w size rc

      rest : IsArray 8 (drop 2 rnd)
      rest = record {
        size = omega (arith, length-drop 2 rnd, drawn.size);
        bytes = AllBelow-drop 256 2 rnd drawn.bytes;
      }

  -- A random source that fails makes it fail as ERR_RNG with `*out` untouched.
  pub uuidv7_new_with_time-err_rng :
      (ms : ℕ)
      → ms < 2 ^ 48
      → (platform.fill_random buf 10 w).0 ≢ pos 0
      → uuidv7_new_with_time platform buf out (pos ms) w
        ≡ (err_rng, out, (platform.fill_random buf 10 w).2)
  unfolding uuidv7_new_with_time
  uuidv7_new_with_time-err_rng ms lt rc = rw (in_range ms lt) (ground arith)
