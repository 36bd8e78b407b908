-- ===== src/Tests/Ksuid.antt =====
-- chronoid/ksuid at concrete inputs.
use libchronoid.Prelude.{
  ℕ, ◌-◌, ◌^◌, ◌<◌, ◌≡◌, ◌≢◌, refl, List, none, some, arith, take, drop, replicate, IsArray,
}
use libchronoid.Prelude.Int.{pos, negsuc}
use libchronoid.Prelude.Tables.{codes}
use libchronoid.Digits.{value}
use libchronoid.Memory.{memcmp, sign}
use libchronoid.ByteOrder.{be32_load}
use libchronoid.Arch.{sse2, neon, scalar}
use libchronoid.Ksuid.Types.{IsKsuid, ok, err_exhausted}
use libchronoid.Ksuid.Id.{
  ksuid_compare, ksuid_from_parts, ksuid_timestamp, ksuid_time_unix, ksuid_payload, ksuid_parse,
  ksuid_format,
}
use libchronoid.Ksuid.Id.Parts.{ksuid_of, ksuid_from_parts-accessors, ksuid_from_parts-overflow}
use libchronoid.Ksuid.Id.Text.{ksuid_parse-ksuid_format, ksuid_format-ksuid_parse}
use libchronoid.Ksuid.Id.Ordered.{ksuid_format-memcmp}
use libchronoid.Ksuid.Sequence.{ksuid_sequence_init, ksuid_sequence_next, ksuid_sequence_bounds}
use libchronoid.Ksuid.Sequence.Bounds.{
  numbered, after, ksuid_sequence_next-after, ksuid_sequence_next-exhausted,
  ksuid_sequence_bounds-tight,
}
use libchronoid.Ksuid.Sequence.Order.{ksuid_sequence_next-increasing}
use libchronoid.Tests.Samples.{id_a, id_a-IsKsuid, id_0, id_0-IsKsuid, bytes}

ksuid_from_parts-accessors_example :
    let id = ksuid_of 300000000 (replicate 16 5) in
    (ksuid_from_parts id_0 (pos 1700000000) (replicate 16 5) 16 ≡ some (ok, id))
    × (ksuid_timestamp id ≡ 300000000)
    × IsKsuid id
    × (ksuid_time_unix id ≡ pos 1700000000)
    × (ksuid_payload id ≡ replicate 16 5)
ksuid_from_parts-accessors_example =
    ksuid_from_parts-accessors id_0 (replicate 16 5) id_0-IsKsuid (bytes 16 5 (omega arith))
      1700000000 (omega arith, omega arith)

ksuid_from_parts-overflow_example :
    ksuid_from_parts id_0 (negsuc (2 ^ 63 - 1)) (replicate 16 5) 16 ≡ none
ksuid_from_parts-overflow_example =
    ksuid_from_parts-overflow id_0 (negsuc (2 ^ 63 - 1)) (replicate 16 5) (omega arith, omega arith)
      (omega arith)

ksuid_parse-ksuid_format_example :
    (s : List ℕ) × (ksuid_format id_a (replicate 27 1) ≡ some s)
    × IsArray 27 s
    × (ksuid_parse neon id_0 id_0 s 27 ≡ (ok, id_a))
ksuid_parse-ksuid_format_example =
    ksuid_parse-ksuid_format neon id_a id_0 id_0 (replicate 27 1) id_a-IsKsuid refl refl

ksuid_format-ksuid_parse_example :
    let s =
      (ksuid_parse-ksuid_format sse2 id_a id_0 id_0 (replicate 27 1) id_a-IsKsuid refl refl).0 in
    IsKsuid id_a × (ksuid_format id_a (replicate 27 9) ≡ some s)
ksuid_format-ksuid_parse_example =
    ksuid_format-ksuid_parse sse2 id_0 id_0 id_a
      (ksuid_parse-ksuid_format sse2 id_a id_0 id_0 (replicate 27 1) id_a-IsKsuid refl refl).0
      (replicate 27 9)
      (ksuid_parse-ksuid_format sse2 id_a id_0 id_0 (replicate 27 1) id_a-IsKsuid refl refl).2 refl
      refl (ksuid_parse-ksuid_format sse2 id_a id_0 id_0 (replicate 27 1) id_a-IsKsuid refl refl).3

short_fails : (ksuid_parse scalar id_0 id_a (codes "abc") 3).0 ≢ ok
unfolding ksuid_parse
short_fails e = ground (arith, e)

earlier : ksuid_timestamp id_0 < ksuid_timestamp id_a
unfolding ksuid_timestamp be32_load
earlier = omega arith

ksuid_format-memcmp_example :
    let s =
      (ksuid_parse-ksuid_format sse2 id_a id_0 id_0 (replicate 27 1) id_a-IsKsuid refl refl).0 in
    let t =
      (ksuid_parse-ksuid_format sse2 id_0 id_0 id_0 (replicate 27 1) id_0-IsKsuid refl refl).0 in
    sign (memcmp s t 27) ≡ ksuid_compare sse2 id_a id_0
ksuid_format-memcmp_example =
    ksuid_format-memcmp id_a-IsKsuid id_0-IsKsuid sse2 (replicate 27 1) (replicate 27 1) refl refl
      (ksuid_parse-ksuid_format sse2 id_a id_0 id_0 (replicate 27 1) id_a-IsKsuid refl refl).1
      (ksuid_parse-ksuid_format sse2 id_0 id_0 id_0 (replicate 27 1) id_0-IsKsuid refl refl).1

ksuid_sequence_next-after_example :
    let s = after 3 id_0 (ksuid_sequence_init id_a) in
    let id = numbered id_a 3 in
    (ksuid_sequence_next s id_0 ≡ (ok, after 4 id_0 (ksuid_sequence_init id_a), id))
    × IsKsuid id
    × (take 18 id.b ≡ take 18 id_a.b)
    × (value 256 (drop 18 id.b) ≡ 3)
ksuid_sequence_next-after_example = ksuid_sequence_next-after id_a id_0 3 id_a-IsKsuid (omega arith)

ksuid_sequence_next-exhausted_example :
    let s = after 65536 id_0 (ksuid_sequence_init id_a) in
    ksuid_sequence_next s id_0 ≡ (err_exhausted, s, id_0)
ksuid_sequence_next-exhausted_example = ksuid_sequence_next-exhausted id_a id_0 65536 (omega arith)

ksuid_sequence_bounds-tight_example :
    ksuid_sequence_bounds (after 3 id_0 (ksuid_sequence_init id_a)) ≡ (
      (ksuid_sequence_next (after 3 id_0 (ksuid_sequence_init id_a)) id_0).2,
      (ksuid_sequence_next (after 65535 id_0 (ksuid_sequence_init id_a)) id_0).2,
    )
ksuid_sequence_bounds-tight_example =
    ksuid_sequence_bounds-tight id_a id_0 3 id_a-IsKsuid (omega arith)

ksuid_sequence_next-increasing_example :
    ksuid_compare sse2 (numbered id_a 3) (numbered id_a 5) ≡ negsuc 0
ksuid_sequence_next-increasing_example =
    ksuid_sequence_next-increasing sse2 id_a id_a-IsKsuid id_0 (numbered id_a 3) (numbered id_a 5) 3
      5 (after 4 id_0 (ksuid_sequence_init id_a)) (after 6 id_0 (ksuid_sequence_init id_a))
      (omega arith) (ksuid_sequence_next-after id_a id_0 3 id_a-IsKsuid (omega arith)).0
      (ksuid_sequence_next-after id_a id_0 5 id_a-IsKsuid (omega arith)).0
