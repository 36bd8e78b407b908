-- ===== src/Platform.antt =====
-- What the identifier code draws from its surroundings: random bytes, through
-- `chronoid_internal_fill_random` (chronoid/ksuid/ksuid.c), the wall clock in milliseconds, through
-- `chronoid_now_ms` (chronoid/rand_tls.c), and `timespec_get` of the C library.
-- `W` is the state of the surroundings.
use libchronoid.Prelude.{ℕ, ◌≡◌, List, length, Option, IsArray}
use libchronoid.Prelude.Int.{ℤ, pos}

-- `struct timespec`.
pub record Timespec : Type 0 where
  pub tv_sec : ℤ
  pub tv_nsec : ℕ

pub record Platform (W : Type 0) : Type 0 where
  -- The result code, and what the buffer of `n` bytes holds afterwards.
  pub fill_random : List ℕ → ℕ → W → ℤ × List ℕ × W
  pub now_ms : W → ℤ × W
  -- `none` when the call does not return TIME_UTC.
  pub timespec_get : W → Option Timespec × W
  -- A call that returns 0 has filled a buffer of its size with bytes.
  pub fills :
      (buf : List ℕ) (n : ℕ) (w : W)
      → length buf ≡ n
      → (fill_random buf n w).0 ≡ pos 0
      → IsArray n (fill_random buf n w).1
