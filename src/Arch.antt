-- ===== src/Arch.antt =====
-- The build-time choice of a kernel: CHRONOID_HAVE_SSE2, CHRONOID_HAVE_NEON, or neither, as
-- chronoid/ksuid/base62_simd.h, chronoid/ksuid/compare_simd.h and chronoid/uuidv7/hex_simd.h make it.
pub data Arch : Type 0 where
  sse2 neon scalar : Arch
