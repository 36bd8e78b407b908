-- ===== src/Ksuid/Id/Ordered.antt =====
-- The order of identifiers, of their timestamps, and of their texts.
use libchronoid.Prelude.{
  ℕ, ◌<◌, ◌≡◌, sym, ap, ap₂, ◌∙◌, List, some, arith, length, map, compare, drop, length-drop,
  AllBelow-drop, some_eq,
}
use libchronoid.Prelude.Int.{negsuc}
use libchronoid.Memory.{memcmp, sign}
use libchronoid.Memory.Order.{memcmp-value, value_from-bounds, memcmp-map}
use libchronoid.Digits.{value, value-lt, digits, length-digits, digits-AllBelow, value-digits}
use libchronoid.ByteOrder.Laws.{value_from-be32_load}
use libchronoid.Arch.{Arch}
use libchronoid.Ksuid.Types.{Ksuid, IsKsuid}
use libchronoid.Ksuid.Base62.Tables.{b62_char, b62_char-lt}
use libchronoid.Ksuid.Base62.Encode.{base62_encode-digits}
use libchronoid.Ksuid.Compare.Kernels.{compare20_lem}
use libchronoid.Ksuid.Id.{ksuid_compare, ksuid_timestamp, ksuid_format}

module _ {a b : Ksuid} (ha : IsKsuid a) (hb : IsKsuid b) where
  -- On every build, valid identifiers compare as the 160-bit big-endian numbers that they are.
  pub ksuid_compare-value :
      (arch : Arch) → ksuid_compare arch a b ≡ sign (compare (value 256 a.b) (value 256 b.b))
  unfolding ksuid_compare
  ksuid_compare-value arch =
      compare20_lem arch a.b b.b ha.size hb.size
      ∙ ap sign (memcmp-value 256 20 a.b b.b ha.size hb.size ha.bytes hb.bytes)

  -- Of two valid KSUIDs, the one with the earlier timestamp comes first, whatever the payloads, on
  -- every build.
  pub ksuid_compare-ksuid_timestamp :
      (arch : Arch) → ksuid_timestamp a < ksuid_timestamp b → ksuid_compare arch a b ≡ negsuc 0
  unfolding ksuid_timestamp
  ksuid_compare-ksuid_timestamp arch lt = ksuid_compare-value arch ∙ ground (arith, less)
    where
      less : value 256 a.b < value 256 b.b
      less =
          rw
            (
              ← value_from-be32_load 0 a.b (omega (arith, ha.size)) ha.bytes,
              ← value_from-be32_load 0 b.b (omega (arith, hb.size)) hb.bytes,
            )
            (value_from-bounds 256 _ _ (drop 4 a.b) (drop 4 b.b)
              (omega (arith, length-drop 4 a.b, length-drop 4 b.b, ha.size, hb.size))
              (AllBelow-drop 256 4 a.b ha.bytes) (omega arith))

  -- The 27-character texts of two valid identifiers sort, by `memcmp`, exactly as the identifiers
  -- do, on every build.
  pub ksuid_format-memcmp :
      (arch : Arch) {s t : List ℕ} (s_buf t_buf : List ℕ)
      → length s_buf ≡ 27
      → length t_buf ≡ 27
      → ksuid_format a s_buf ≡ some s
      → ksuid_format b t_buf ≡ some t
      → sign (memcmp s t 27) ≡ ksuid_compare arch a b
  unfolding ksuid_format
  ksuid_format-memcmp arch {s} {t} s_buf t_buf hs ht es et =
      ap sign (
        ap₂ (λ x y. memcmp x y 27) (text s_buf hs ha es) (text t_buf ht hb et)
        ∙ memcmp-map 62 b62_char (λ x y p q. b62_char-lt y x p q) (digits 62 27 (value 256 a.b))
            (digits 62 27 (value 256 b.b)) 27 (digits-AllBelow 62 27 _ (omega arith))
            (digits-AllBelow 62 27 _ (omega arith))
        ∙ memcmp-value 62 27 (digits 62 27 (value 256 a.b)) (digits 62 27 (value 256 b.b))
            (length-digits 62 27 _) (length-digits 62 27 _) (digits-AllBelow 62 27 _ (omega arith))
            (digits-AllBelow 62 27 _ (omega arith))
        ∙ ap₂ compare (same ha) (same hb))
      ∙ sym (ksuid_compare-value arch)
    where
      text :
          (buf : List ℕ) {id : Ksuid} {s : List ℕ}
          → length buf ≡ 27
          → IsKsuid id
          → ksuid_format id buf ≡ some s
          → s ≡ map b62_char (digits 62 27 (value 256 id.b))
      text buf {id} size h e = some_eq (sym e ∙ base62_encode-digits buf id.b size h)

      same : {id : Ksuid} → IsKsuid id → value 62 (digits 62 27 (value 256 id.b)) ≡ value 256 id.b
      same {id} h =
          value-digits 62 27 (value 256 id.b) (omega arith)
            (omega (arith, value-lt 256 20 id.b h.size h.bytes))
