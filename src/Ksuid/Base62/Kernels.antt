-- ===== src/Ksuid/Base62/Kernels.antt =====
-- The SSE2 and the NEON translation kernels agree with the scalar loop on every 16 bytes.
use Prim.Native.Nat.{min}
use libchronoid.Prelude.{
  ℕ, ◌+◌, ◌-◌, ◌<◌, ◌^◌, ◌≡◌, refl, sym, ap, ap₂, ◌∙◌, List, [], ◌∷◌, Bool, true, ◌&&◌, not, ◌==◌,
  leb, if◌then◌else◌, map, u8, bit_and, bit_or, arith, IsArray, ==_iff,
}
use libchronoid.Prelude.Tables.{every, every-at}
use libchronoid.Prelude.Int.{ℤ, pos, negsuc}
use libchronoid.Simd.{movemask_epi8, minv_u8}
use libchronoid.Simd.Laws.{
  zip_with-map, set1_epi8-map, map_self, map_bytes, all_lanes, mask_of, movemask-all_lanes,
  minv-all_lanes,
}
use libchronoid.Arch.{Arch, sse2, neon, scalar}
use libchronoid.Ksuid.Base62.Translate.{
  kb62_value, translate_loop, translate16_scalar, translate16_sse2, translate16_neon, translate16,
}
use libchronoid.Ksuid.Base62.Tables.{b62_digit}

-- One lane of the kernels: the range masks `d`, `u` and `l` select.
abbrev in_range : ℕ → ℕ → ℕ → ℕ
in_range base top c = if min (u8 (c + 256 - base)) top == u8 (c + 256 - base) then 0xff else 0

-- The same by `vcleq_u8`.
abbrev up_to : ℕ → ℕ → ℕ → ℕ
up_to base top c = if leb (u8 (c + 256 - base)) top then 0xff else 0

abbrev any_lane_neon : ℕ → ℕ
any_lane_neon c = bit_or (bit_or (up_to b'0' 9 c) (up_to b'A' 25 c)) (up_to b'a' 25 c)

abbrev value_lane_neon : ℕ → ℕ
value_lane_neon c =
    bit_or
      (bit_or
        (bit_or (bit_and (up_to b'0' 9 c) (u8 (c + 256 - b'0')))
          (bit_and (up_to b'A' 25 c) (u8 (u8 (c + 256 - b'A') + 10))))
        (bit_and (up_to b'a' 25 c) (u8 (u8 (c + 256 - b'a') + 36))))
      (bit_and 0xff (255 - any_lane_neon c))

abbrev any_lane : ℕ → ℕ
any_lane c = bit_or (bit_or (in_range b'0' 9 c) (in_range b'A' 25 c)) (in_range b'a' 25 c)

abbrev value_lane : ℕ → ℕ
value_lane c =
    bit_or
      (bit_or
        (bit_or (bit_and (in_range b'0' 9 c) (u8 (c + 256 - b'0')))
          (bit_and (in_range b'A' 25 c) (u8 (u8 (c + 256 - b'A') + 10))))
        (bit_and (in_range b'a' 25 c) (u8 (u8 (c + 256 - b'a') + 36))))
      (bit_and (255 - any_lane c) 0xff)

-- The table accepts the byte.
abbrev pub accepts : ℕ → Bool
accepts c = not (b62_digit c == 0xff)

value_table : every 256 (λ c. value_lane c == b62_digit c) ≡ true
unfolding every b62_digit kb62_value
value_table = refl

any_table : every 256 (λ c. any_lane c == mask_of (accepts c)) ≡ true
unfolding every b62_digit kb62_value
any_table = refl

value_lane_lem : (c : ℕ) → c < 256 → value_lane c ≡ b62_digit c
value_lane_lem c h =
    (==_iff _ _).0 (every-at 256 (λ c. value_lane c == b62_digit c) c value_table h)

any_lane_lem : (c : ℕ) → c < 256 → any_lane c ≡ mask_of (accepts c)
any_lane_lem c h =
    (==_iff _ _).0 (every-at 256 (λ c. any_lane c == mask_of (accepts c)) c any_table h)

neon_table :
    every 256 (λ c. value_lane_neon c == b62_digit c && (any_lane_neon c == mask_of (accepts c)))
    ≡ true
unfolding every b62_digit kb62_value
neon_table = refl

neon_lane_lem :
    (c : ℕ) → c < 256 → (value_lane_neon c ≡ b62_digit c) × (any_lane_neon c ≡ mask_of (accepts c))
neon_lane_lem c h = both _ _ (every-at 256 _ c neon_table h)
  where
    both :
        (m n : ℕ)
        → (m == b62_digit c && (n == mask_of (accepts c))) ≡ true
        → (m ≡ b62_digit c) × (n ≡ mask_of (accepts c))
    both m n e = ground arith

-- The scalar loop looks every byte up, and accepts when the table accepts each.
pub translate_loop_lem :
    (cs : List ℕ) → translate_loop cs ≡ (map b62_digit cs, all_lanes accepts cs)
unfolding translate_loop b62_digit
translate_loop_lem [] = refl
translate_loop_lem (c ∷ cs) = rw (translate_loop_lem cs)

abbrev pub outcome : Bool → ℤ
outcome valid = if valid then pos 0 else negsuc 0

all_set : (m : ℕ) → (m == 0xffff) ≡ (m + 1 == 2 ^ 16)
all_set m = ground arith

module _ (v : List ℕ) (h : IsArray 16 v) where
  -- The kernels, with each chain of instructions read as a function of the lane.
  sse2_lanes :
      translate16_sse2 (map (λ x. x) v)
      ≡ (map value_lane v, outcome (movemask_epi8 (map any_lane v) == 0xffff))
  unfolding translate16_sse2
  sse2_lanes = simp (set1_epi8-map v h.size, zip_with-map)

  values : map value_lane v ≡ map b62_digit v
  values = map_bytes value_lane b62_digit value_lane_lem v h.bytes

  masks : map any_lane v ≡ map (λ c. mask_of (accepts c)) v
  masks = map_bytes any_lane (λ c. mask_of (accepts c)) any_lane_lem v h.bytes

  scalar_lem : translate16_scalar v ≡ (map b62_digit v, outcome (all_lanes accepts v))
  unfolding translate16_scalar
  scalar_lem = rw (translate_loop_lem v)

  sse2_lem : translate16_sse2 v ≡ (map b62_digit v, outcome (all_lanes accepts v))
  sse2_lem =
      ap translate16_sse2 (sym (map_self v))
      ∙ sse2_lanes
      ∙ ap₂ (λ a b. (a, outcome b)) values
          (rw masks (all_set _ ∙ rw h.size at (movemask-all_lanes accepts v)))

  neon_lanes :
      translate16_neon (map (λ x. x) v)
      ≡ (map value_lane_neon v, outcome (minv_u8 (map any_lane_neon v) == 0xff))
  unfolding translate16_neon
  neon_lanes = simp (set1_epi8-map v h.size, zip_with-map)

  neon_values : map value_lane_neon v ≡ map b62_digit v
  neon_values = map_bytes value_lane_neon b62_digit (λ c k. (neon_lane_lem c k).0) v h.bytes

  neon_masks : map any_lane_neon v ≡ map (λ c. mask_of (accepts c)) v
  neon_masks =
      map_bytes any_lane_neon (λ c. mask_of (accepts c)) (λ c k. (neon_lane_lem c k).1) v h.bytes

  neon_lem : translate16_neon v ≡ (map b62_digit v, outcome (all_lanes accepts v))
  neon_lem =
      ap translate16_neon (sym (map_self v))
      ∙ neon_lanes
      ∙ ap₂ (λ a b. (a, outcome b)) neon_values (rw neon_masks (minv-all_lanes accepts v))

-- Whichever kernel the build selects, 16 bytes translate to their table values, and the result is 0
-- when the table accepts each of them and -1 when it does not.
pub translate16_lem :
    (arch : Arch) (v : List ℕ)
    → IsArray 16 v
    → translate16 arch v ≡ (map b62_digit v, outcome (all_lanes accepts v))
unfolding translate16
translate16_lem sse2 v h = sse2_lem v h
translate16_lem neon v h = neon_lem v h
translate16_lem scalar v h = scalar_lem v h
