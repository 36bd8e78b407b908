-- ===== src/Uuidv7/Id/Ordered.antt =====
-- The order of identifiers and of their times.
use libchronoid.Prelude.{
  ℕ, ◌<◌, ◌≡◌, sym, ap, ◌∙◌, subst, List, arith, take, drop, compare, length-drop, AllBelow,
  AllBelow-take, AllBelow-drop, take-append-drop, build, build-take, get_or,
}
use libchronoid.Prelude.Int.{pos, negsuc, pos_eq}
use libchronoid.Digits.{value, value_from, value_from-append}
use libchronoid.Memory.{sign}
use libchronoid.Memory.Order.{memcmp-value, value_from-bounds}
use libchronoid.Uuidv7.Types.{Uuidv7, IsUuidv7}
use libchronoid.Uuidv7.Id.{uuidv7_compare, uuidv7_unix_ms}
use libchronoid.Uuidv7.Id.Parts.{load48}

module _ {a b : Uuidv7} (ha : IsUuidv7 a) (hb : IsUuidv7 b) where
  -- Identifiers compare as the 128-bit big-endian numbers that they are.
  pub uuidv7_compare-value : uuidv7_compare a b ≡ sign (compare (value 256 a.b) (value 256 b.b))
  unfolding uuidv7_compare
  uuidv7_compare-value = ap sign (memcmp-value 256 16 a.b b.b ha.size hb.size ha.bytes hb.bytes)

-- The time is the number of the first six bytes.
pub uuidv7_unix_ms-value :
    (id : Uuidv7) → IsUuidv7 id → uuidv7_unix_ms id ≡ pos (value 256 (take 6 id.b))
unfolding uuidv7_unix_ms
uuidv7_unix_ms-value id h = ap pos (
    load48 (λ i. get_or id.b i 0)
      (subst (AllBelow 256) (sym first) (AllBelow-take 256 6 id.b h.bytes))
    ∙ ap (value 256) first)
  where
    first : build 6 (λ i. get_or id.b i 0) ≡ take 6 id.b
    first = build-take id.b 6 0 (omega (arith, h.size))

-- Of two valid UUIDs, the one with the earlier time comes first, whatever their other fields.
pub uuidv7_compare-uuidv7_unix_ms :
    {a b : Uuidv7} (m n : ℕ)
    → IsUuidv7 a
    → IsUuidv7 b
    → uuidv7_unix_ms a ≡ pos m
    → uuidv7_unix_ms b ≡ pos n
    → m < n
    → uuidv7_compare a b ≡ negsuc 0
uuidv7_compare-uuidv7_unix_ms {a} {b} m n ha hb ea eb lt =
    uuidv7_compare-value ha hb ∙ ground (arith, less)
  where
    first :
        {id : Uuidv7} (k : ℕ)
        → IsUuidv7 id
        → uuidv7_unix_ms id ≡ pos k
        → value 256 (take 6 id.b) ≡ k
    first {id} k h e = pos_eq (sym (uuidv7_unix_ms-value id h) ∙ e)

    split : (xs : List ℕ) → value 256 xs ≡ value_from 256 (value 256 (take 6 xs)) (drop 6 xs)
    split xs =
        ap (value 256) (sym (take-append-drop 6 xs))
        ∙ value_from-append 256 0 (take 6 xs) (drop 6 xs)

    less : value 256 a.b < value 256 b.b
    less =
        rw (split a.b, split b.b)
          (value_from-bounds 256 _ _ (drop 6 a.b) (drop 6 b.b)
            (omega (arith, length-drop 6 a.b, length-drop 6 b.b, ha.size, hb.size))
            (AllBelow-drop 256 6 a.b ha.bytes) (omega (arith, first m ha ea, first n hb eb)))
