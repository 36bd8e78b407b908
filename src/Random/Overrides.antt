-- ===== src/Random/Overrides.antt =====
-- The two sources that a caller can replace, the random one of chronoid/ksuid/ksuid.c and the clock of
-- chronoid/rand_tls.c, and the wipe of a thread's generator.
use libchronoid.Prelude.{
  ℕ, ◌+◌, ◌*◌, ◌/◌, List, Bool, true, false, Option, none, some, replicate, u32,
}
use libchronoid.Prelude.Int.{ℤ, pos, negsuc, ◌+ℤ◌}
use libchronoid.Platform.{Timespec}
use libchronoid.Random.{Os, Rng, ExitHook, random_bytes}

-- The static slots. A function that a caller installs gets the context, the buffer and its size.
pub record Slots (W : Type 0) : Type 0 where
  pub rng_fn : Option (ℕ → List ℕ → ℕ → W → ℤ × List ℕ × W)
  pub rng_ctx : ℕ
  pub time_source : Option (W → ℤ × W)

-- `tv_sec * 1000 + tv_nsec / 1000000`, which is taken as exact.
abbrev pub to_ms : Timespec → ℤ
to_ms ts =
    elim ts.tv_sec [ pos s ↦ pos (s * 1000) | negsuc s ↦ negsuc (s * 1000 + 999) ]
    +ℤ pos (ts.tv_nsec / 1000000)

-- `chronoid_random_thread_state_wipe`, with the counter of the wipes, a 32-bit number.
unfoldable pub random_thread_state_wipe : Rng → ℕ → Rng × ℕ
random_thread_state_wipe r wipes = (
  record {
    state = replicate 16 0;
    buf = replicate 64 0;
    buf_pos = 0;
    bytes_emitted = 0;
    seed_time = pos 0;
    seed_pid = pos 0;
    seeded = false;
    destructor_registered = false;
  },
  u32 (wipes + 1),
)

-- `chronoid_random_thread_state_set_sentinel_for_testing`: all bytes are 0xa5 but those of the flags.
unfoldable pub random_thread_state_set_sentinel_for_testing : Rng → Rng
random_thread_state_set_sentinel_for_testing r = record {
  state = replicate 16 0xa5a5a5a5;
  buf = replicate 64 0xa5;
  buf_pos = 0xa5a5a5a5a5a5a5a5;
  bytes_emitted = 0xa5a5a5a5a5a5a5a5;
  seed_time = negsuc 0x5a5a5a5a5a5a5a5a;
  seed_pid = negsuc 0x5a5a5a5a5a5a5a5a;
  seeded = true;
  destructor_registered = r.destructor_registered;
}

module _ {W : Type 0} where
  unfoldable pub set_rand : Slots W → Option (ℕ → List ℕ → ℕ → W → ℤ × List ℕ × W) → ℕ → Slots W
  set_rand slots fn ctx = record slots { rng_fn = fn; rng_ctx = ctx }

  unfoldable pub set_time_source_for_testing : Slots W → Option (W → ℤ × W) → Slots W
  set_time_source_for_testing slots fn = record slots { time_source = fn }

  -- `hook`, `wiping` and `kn` are those of `random_bytes`.
  unfoldable pub internal_fill_random :
      Os W
      → Slots W
      → ExitHook W
      → Bool
      → List ℕ
      → List ℕ
      → ℕ
      → Rng
      → W
      → Option (ℤ × List ℕ × Rng × W)
  internal_fill_random os slots hook wiping kn buf n r w = elim slots.rng_fn [
    | none ↦ random_bytes os hook wiping kn buf n r w
    | some fn ↦ let (rc, buf, w') = fn slots.rng_ctx buf n w in some (rc, buf, r, w')
  ]

  unfoldable pub now_ms : Os W → Slots W → W → ℤ × W
  now_ms os slots w = elim slots.time_source [
    | some fn ↦ fn w
    | none ↦
        let (ts, w') = os.timespec_get w in
        elim ts [ none ↦ (negsuc 0, w') | some ts ↦ (to_ms ts, w') ]
  ]
