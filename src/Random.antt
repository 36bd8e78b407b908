-- ===== src/Random.antt =====
-- chronoid/rand_tls.c: the random generator of a thread and its reseed policy; the block function
-- stands in Random/ChaCha20.antt. What the operating system gives is the interface `Os`.
pub mod Entropy
pub mod Buffer
pub mod Filled
pub mod Ended
pub mod ChaCha20
pub mod Loop
pub mod Draw
pub mod Overrides
pub mod Reseed
pub mod Reach
pub mod Thread
pub mod Fresh
use libchronoid.Prelude.{
  ℕ, zero, suc, ◌+◌, ◌-◌, ◌*◌, ◌/◌, ◌^◌, List, [], ◌∷◌, ◌++◌, Bool, true, false, Option, none, some,
  ◌>>=◌, ◌==◌, not, leb, ltb, if◌then◌else◌, take, drop, replicate, get_or, u64, ◌<<◌, bit_or,
}
use libchronoid.Prelude.Int.{ℤ, pos, negsuc, ◌-ℤ◌, ◌+ℤ◌, ltb_ℤ}
use libchronoid.Memory.{memset}
use libchronoid.Platform.{Timespec}
use ChaCha20.{chacha20_block, chacha20_c}

-- `chronoid_os_random_bytes` of chronoid/rand_os.c, `CHRONOID_GETPID` and `timespec_get`.
pub record Os (W : Type 0) : Type 0 where
  pub random_bytes : List ℕ → ℕ → W → ℤ × List ℕ × W
  pub getpid : W → ℤ
  pub timespec_get : W → Option Timespec × W

-- `chronoid_tls_rng_t`.
pub record Rng : Type 0 where
  pub state : List ℕ
  pub buf : List ℕ
  pub buf_pos : ℕ
  pub bytes_emitted : ℕ
  pub seed_time : ℤ
  pub seed_pid : ℤ
  pub seeded : Bool
  pub destructor_registered : Bool

-- What calls back at the end of a thread, as calls of the system: `__cxa_thread_atexit_impl` with the
-- trampoline; or `InitOnceExecuteOnce` on `FlsAlloc` with the index that it leaves, if there is one, and
-- `FlsSetValue` with whether it succeeds.
pub data ExitHook (W : Type 0) : Type 0 where
  cxa_thread_atexit_impl : (W → ℤ × W) → ExitHook W
  fls : (W → Option ℕ × W) → (ℕ → W → Bool × W) → ExitHook W
  no_hook : ExitHook W

-- `chronoid_tls_register_thread_exit`. The result of `__cxa_thread_atexit_impl` is not looked at.
unfoldable pub register_thread_exit : {W : Type 0} → ExitHook W → Rng → W → Rng × W
register_thread_exit no_hook r w = (r, w)
register_thread_exit (cxa_thread_atexit_impl call) r w =
    let (_, w') = call w in
    if r.destructor_registered then (r, w) else (record r { destructor_registered = true }, w')
register_thread_exit (fls init_once set_value) r w =
    let (index, w') = init_once w in
    if r.destructor_registered then (r, w) else elim index [
      | none ↦ (r, w')
      | some index ↦
          let (set, w'') = set_value index w' in
          if set then (record r { destructor_registered = true }, w'') else (r, w'')
    ]

-- Four bytes from the `i`-th word on, little-endian.
unfoldable pub le32 : List ℕ → ℕ → ℕ
le32 kn i =
    bit_or
      (bit_or (bit_or (get_or kn (i * 4) 0) (get_or kn (i * 4 + 1) 0 << 8))
        (get_or kn (i * 4 + 2) 0 << 16))
      (get_or kn (i * 4 + 3) 0 << 24)

-- `state` after the stores of `chronoid_tls_rng_seed`.
unfoldable pub seeded_state : List ℕ → List ℕ
seeded_state kn =
    chacha20_c
    ++ (le32 kn 0
        ∷ le32 kn 1
        ∷ le32 kn 2
        ∷ le32 kn 3
        ∷ le32 kn 4
        ∷ le32 kn 5
        ∷ le32 kn 6
        ∷ le32 kn 7
        ∷ 0
        ∷ le32 kn 8
        ∷ le32 kn 9
        ∷ le32 kn 10
        ∷ [])

-- The head of a round of the loop of `chronoid_random_bytes`: an empty window is filled.
unfoldable pub refill : Rng → Rng
refill r =
    if r.buf_pos == 64
    then (let (out, state) = chacha20_block r.state in
        record r { state = state; buf = out; buf_pos = 0 })
    else r

-- Its end: the bytes taken are wiped and counted.
unfoldable pub consume : Rng → ℕ → Rng
consume r chunk = record r {
  buf = memset r.buf r.buf_pos 0 chunk;
  buf_pos = r.buf_pos + chunk;
  bytes_emitted = u64 (r.bytes_emitted + chunk);
}

-- `(n < avail) ? n : avail`.
unfoldable pub chunk_of : ℕ → ℕ → ℕ
chunk_of n avail = if ltb n avail then n else avail

-- The loop, over what stands from the pointer `buf` on, with `n` bytes to go. `none` is a run that
-- has not ended after that many rounds.
unfoldable pub random_loop : ℕ → ℕ → List ℕ → Rng → Option (List ℕ × Rng)
random_loop rounds zero buf r = some (buf, r)
random_loop zero (suc n) buf r = none
random_loop (suc rounds) (suc n) buf r =
    let r = refill r in
    let chunk = chunk_of (suc n) (64 - r.buf_pos) in
    let copied = take chunk (drop r.buf_pos r.buf) in
    random_loop rounds (suc n - chunk) (drop chunk buf) (consume r chunk)
    >>= (λ (e : List ℕ × Rng). some (copied ++ e.0, e.1))

-- `chronoid_random_force_reseed`.
unfoldable pub random_force_reseed : Rng → Rng
random_force_reseed r = record r { seeded = false }

module _ {W : Type 0} (os : Os W) where
  unfoldable pub now_seconds : W → ℤ × W
  now_seconds w =
      let (ts, w') = os.timespec_get w in
      elim ts [ none ↦ (negsuc 0, w') | some ts ↦ (ts.tv_sec, w') ]

  -- The error code, and the state. `kn` is what the stack buffer held.
  unfoldable pub rng_seed : ExitHook W → List ℕ → Rng → W → ℤ × Rng × W
  rng_seed hook kn r w =
      let (rc, kn, w') = os.random_bytes kn 44 w in
      if ltb_ℤ rc (pos 0)
      then (negsuc 0, r, w')
      else let (now, w'') = now_seconds w' in
        let seeding = record r {
          state = seeded_state kn;
          buf = replicate 64 0;
          buf_pos = 64;
          bytes_emitted = 0;
          seed_pid = os.getpid w';
          seed_time = now;
        } in
        let (r, w3) = register_thread_exit hook seeding w'' in
        (pos 0, record r { seeded = true }, w3)

  -- The difference of two readings of the clock is taken as exact.
  unfoldable pub should_reseed : Rng → W → Bool × W
  should_reseed r w =
      if not r.seeded
      then (true, w)
      else if leb (2 ^ 20) r.bytes_emitted
      then (true, w)
      else if not (elim (os.getpid w -ℤ r.seed_pid) [ pos zero ↦ true | _ ↦ false ])
      then (true, w)
      else let (now, w') = now_seconds w in
        if ltb_ℤ now r.seed_time
        then (true, w')
        else if not (ltb_ℤ (now -ℤ r.seed_time) (pos 3600))
        then (true, w')
        else (false, w')

  -- `chronoid_random_bytes`. `wiping` is `chronoid_tls_in_destructor_`.
  unfoldable pub random_bytes :
      ExitHook W → Bool → List ℕ → List ℕ → ℕ → Rng → W → Option (ℤ × List ℕ × Rng × W)
  random_bytes hook wiping kn buf n r w =
      let (stale, w') = should_reseed r w in
      let (rc, r', w'') = if stale then rng_seed hook kn r w' else (pos 0, r, w') in
      if wiping
      then some (negsuc 0, buf, r, w)
      else if ltb_ℤ rc (pos 0)
      then some (negsuc 0, buf, r', w'')
      else random_loop n n buf r' >>= (λ (e : List ℕ × Rng). some (pos 0, e.0, e.1, w''))
