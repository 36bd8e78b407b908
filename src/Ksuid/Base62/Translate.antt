-- ===== src/Ksuid/Base62/Translate.antt =====
-- The tables of chronoid/ksuid/base62.c, and the kernels that translate and validate 16
-- characters: scalar, SSE2 (base62_sse2.c) and NEON (base62_neon.c).
use libchronoid.Prelude.{
  ℕ, List, [], ◌∷◌, ◌++◌, Bool, true, ◌&&◌, not, ◌==◌, if◌then◌else◌, get_or, replicate,
}
use libchronoid.Prelude.Tables.{codes, count_from}
use libchronoid.Prelude.Int.{ℤ, pos, negsuc}
use libchronoid.Simd.{
  set1_epi8, sub_epi8, add_epi8, min_epu8, cmpeq_epi8, cmple_epu8, and_si128, or_si128,
  andnot_si128, bic_u8, movemask_epi8, minv_u8,
}
use libchronoid.Arch.{Arch, sse2, neon, scalar}

-- With the terminating NUL.
unfoldable pub kb62_alphabet : List ℕ
kb62_alphabet = codes "0123456789ABCDEFGHIJKLMNOPQRSTUVWXYZabcdefghijklmnopqrstuvwxyz" ++ (0 ∷ [])

-- 256 entries, 0xff for what is no digit.
unfoldable pub kb62_value : List ℕ
kb62_value =
    replicate 0x30 0xff
    ++ (count_from 0 10
        ++ (replicate 7 0xff
            ++ (count_from 10 26
                ++ (replicate 6 0xff ++ (count_from 36 26 ++ replicate 133 0xff)))))

-- The loop: what it stores, and whether `valid` is still 1 at its end.
unfoldable pub translate_loop : List ℕ → List ℕ × Bool
translate_loop [] = ([], true)
translate_loop (c ∷ cs) =
    let v = get_or kb62_value c 0 in
    let (vs, valid) = translate_loop cs in (v ∷ vs, not (v == 0xff) && valid)

unfoldable pub translate16_scalar : List ℕ → List ℕ × ℤ
translate16_scalar input =
    let (out, valid) = translate_loop input in (out, if valid then pos 0 else negsuc 0)

-- `chronoid_base62_translate16_sse2`: three range tests on all lanes at once.
unfoldable pub translate16_sse2 : List ℕ → List ℕ × ℤ
translate16_sse2 v =
    let d = sub_epi8 v (set1_epi8 b'0') in
    let d_mask = cmpeq_epi8 (min_epu8 d (set1_epi8 9)) d in
    let d_val = and_si128 d_mask d in
    let u = sub_epi8 v (set1_epi8 b'A') in
    let u_mask = cmpeq_epi8 (min_epu8 u (set1_epi8 25)) u in
    let u_val = and_si128 u_mask (add_epi8 u (set1_epi8 10)) in
    let l = sub_epi8 v (set1_epi8 b'a') in
    let l_mask = cmpeq_epi8 (min_epu8 l (set1_epi8 25)) l in
    let l_val = and_si128 l_mask (add_epi8 l (set1_epi8 36)) in
    let any_mask = or_si128 (or_si128 d_mask u_mask) l_mask in
    let values = or_si128 (or_si128 d_val u_val) l_val in
    let invalid_fill = andnot_si128 any_mask (set1_epi8 0xff) in
    let result = or_si128 values invalid_fill in
    (result, if movemask_epi8 any_mask == 0xffff then pos 0 else negsuc 0)

-- `chronoid_base62_translate16_neon`, with the reduction of aarch64.
unfoldable pub translate16_neon : List ℕ → List ℕ × ℤ
translate16_neon v =
    let d = sub_epi8 v (set1_epi8 b'0') in
    let d_mask = cmple_epu8 d (set1_epi8 9) in
    let d_val = and_si128 d_mask d in
    let u = sub_epi8 v (set1_epi8 b'A') in
    let u_mask = cmple_epu8 u (set1_epi8 25) in
    let u_val = and_si128 u_mask (add_epi8 u (set1_epi8 10)) in
    let l = sub_epi8 v (set1_epi8 b'a') in
    let l_mask = cmple_epu8 l (set1_epi8 25) in
    let l_val = and_si128 l_mask (add_epi8 l (set1_epi8 36)) in
    let any_mask = or_si128 (or_si128 d_mask u_mask) l_mask in
    let values = or_si128 (or_si128 d_val u_val) l_val in
    let invalid_fill = bic_u8 (set1_epi8 0xff) any_mask in
    let result = or_si128 values invalid_fill in
    (result, if minv_u8 any_mask == 0xff then pos 0 else negsuc 0)

-- CHRONOID_BASE62_TRANSLATE16 of chronoid/ksuid/base62_simd.h.
unfoldable pub translate16 : Arch → List ℕ → List ℕ × ℤ
translate16 sse2 input = translate16_sse2 input
translate16 neon input = translate16_neon input
translate16 scalar input = translate16_scalar input
