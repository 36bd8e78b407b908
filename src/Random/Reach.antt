-- ===== src/Random/Reach.antt =====
-- The generators that a thread can have: its calls of chronoid/rand_tls.c as steps.
use libchronoid.Prelude.{
  ℕ, zero, suc, ◌-◌, ◌≡◌, ◌==◌, ◌⊎◌, inl, inr, refl, subst, sym, ◌∙◌, List, Bool, Bool-cases, true,
  false, Option, none, some, some_eq, ◌>>=◌, arith, length, take, drop, ◌++◌, replicate,
  if◌then◌else◌,
}
use libchronoid.Platform.{Timespec}
use libchronoid.Prelude.Int.{ℤ, pos, negsuc, ltb_ℤ}
use libchronoid.Prelude.Tables.{AllBelow-replicate}
use libchronoid.Random.{
  Os, Rng, ExitHook, cxa_thread_atexit_impl, register_thread_exit, refill, consume, chunk_of,
  random_loop, now_seconds, rng_seed, should_reseed, random_bytes, random_force_reseed,
}
use libchronoid.Random.Loop.{IsRng}
use libchronoid.Random.Draw.{random_bytes-fills}
use libchronoid.Random.Overrides.{random_thread_state_wipe}

-- What the storage of a thread holds at first.
abbrev pub zeroed : Rng
zeroed = record {
  state = replicate 16 0;
  buf = replicate 64 0;
  buf_pos = 0;
  bytes_emitted = 0;
  seed_time = pos 0;
  seed_pid = pos 0;
  seeded = false;
  destructor_registered = false;
}

-- The generators that calls in any order make of it, with the state of the system: draws, whether or
-- not the thread is being torn down, forced reseeds and wipes. Between the calls the system goes on by
-- itself, as `later` says.
pub data Reached {W : Type 0} (os : Os W) (hook : ExitHook W) (later : W → W → Type 0)
    : Rng → W → Type 0 where
  start : (w : W) → Reached os hook later zeroed w
  draw :
      (r r' : Rng) (wiping : Bool) (kn buf filled : List ℕ) (n : ℕ) (w w' : W) (rc : ℤ)
      → Reached os hook later r w
      → length buf ≡ n
      → random_bytes os hook wiping kn buf n r w ≡ some (rc, filled, r', w')
      → Reached os hook later r' w'
  force_reseed :
      (r : Rng) (w : W)
      → Reached os hook later r w
      → Reached os hook later (random_force_reseed r) w
  wipe :
      (r : Rng) (w : W) (wipes : ℕ)
      → Reached os hook later r w
      → Reached os hook later (random_thread_state_wipe r wipes).0 w
  elsewhere :
      (r : Rng) (w w' : W) → Reached os hook later r w → later w w' → Reached os hook later r w'

-- `Hooked` holds of the system while the trampoline is registered for the end of the thread: a call of
-- `__cxa_thread_atexit_impl` that returns 0 registers it, every call of it does return 0, and nothing
-- else that goes on in the thread takes it away.
pub record IsRegistry {W : Type 0} (os : Os W) (call : W → ℤ × W) (later : W → W → Type 0)
    (Hooked : W → Type 0) : Type 0 where
  pub succeeds : (w : W) → (call w).0 ≡ pos 0
  pub registers : (w : W) → (call w).0 ≡ pos 0 → Hooked (call w).1
  pub random_bytes : (buf : List ℕ) (n : ℕ) (w : W) → Hooked w → Hooked (os.random_bytes buf n w).2
  pub timespec_get : (w : W) → Hooked w → Hooked (os.timespec_get w).1
  pub goes_on : (w w' : W) → later w w' → Hooked w → Hooked w'

abbrev flags : Rng → Bool × Bool
flags r = (r.seeded, r.destructor_registered)

refill-flags : (r : Rng) → flags (refill r) ≡ flags r
unfolding refill
refill-flags r = elim (Bool-cases (r.buf_pos == 64)) [ inl e ↦ rw e refl | inr e ↦ rw e refl ]

abbrev Keeps : Rng → Option (List ℕ × Rng) → Type 0
Keeps r none = Unit
Keeps r (some e) = flags e.1 ≡ flags r

Keeps-after :
    (r r' : Rng) (copied : List ℕ) (m : Option (List ℕ × Rng))
    → flags r' ≡ flags r
    → Keeps r' m
    → Keeps r (m >>= (λ (e : List ℕ × Rng). some (copied ++ e.0, e.1)))
Keeps-after r r' copied none same h = tt
Keeps-after r r' copied (some e) same h = h ∙ same

random_loop-Keeps : (rounds n : ℕ) (buf : List ℕ) (r : Rng) → Keeps r (random_loop rounds n buf r)
unfolding random_loop consume
random_loop-Keeps rounds zero buf r = refl
random_loop-Keeps zero (suc n) buf r = tt
random_loop-Keeps (suc rounds) (suc n) buf r =
    let r1 = refill r in
    let chunk = chunk_of (suc n) (64 - r1.buf_pos) in
    Keeps-after r (consume r1 chunk) (take chunk (drop r1.buf_pos r1.buf)) _ (refill-flags r)
      (random_loop-Keeps rounds (suc n - chunk) (drop chunk buf) (consume r1 chunk))

module _ {W : Type 0} (os : Os W) (call : W → ℤ × W) (later : W → W → Type 0) (Hooked : W → Type 0)
    (laws : IsRegistry os call later Hooked) where
  abbrev hook : ExitHook W
  hook = cxa_thread_atexit_impl call

  -- A flag that is set only while the trampoline is registered.
  abbrev IsBacked : Bool → W → Type 0
  IsBacked flag w = (flag ≡ false) ⊎ Hooked w

  abbrev AreBacked : Bool × Bool → W → Type 0
  AreBacked f w = IsBacked f.0 w × IsBacked f.1 w

  moved : (flag : Bool) (w w' : W) → (Hooked w → Hooked w') → IsBacked flag w → IsBacked flag w'
  moved flag w w' f (inl e) = inl e
  moved flag w w' f (inr h) = inr (f h)

  AreBacked-moved :
      (f : Bool × Bool) (w w' : W) → (Hooked w → Hooked w') → AreBacked f w → AreBacked f w'
  AreBacked-moved f w w' g (h, k) = (moved f.0 w w' g h, moved f.1 w w' g k)

  now_seconds-Hooked : (w : W) → Hooked w → Hooked (now_seconds os w).1
  unfolding now_seconds
  now_seconds-Hooked w h = read (os.timespec_get w).0 (laws.timespec_get w h)
    where
      read :
          (ts : Option Timespec)
          → Hooked (os.timespec_get w).1
          → Hooked
              (elim ts as (λ _. ℤ × W) [
                | none ↦ (negsuc 0, (os.timespec_get w).1)
                | some ts ↦ (ts.tv_sec, (os.timespec_get w).1)
              ]).1
      read none h = h
      read (some ts) h = h

  if-Hooked :
      {A : Type 0} (b : Bool) (x y : A × W)
      → Hooked x.1
      → Hooked y.1
      → Hooked (if b then x else y).1
  if-Hooked true x y h k = h
  if-Hooked false x y h k = k

  read_or_not :
      (r : Rng) (w : W)
      → ((should_reseed os r w).1 ≡ w) ⊎ ((should_reseed os r w).1 ≡ (now_seconds os w).1)
  unfolding should_reseed
  read_or_not r w = ground arith

  should_reseed-Hooked : (r : Rng) (w : W) → Hooked w → Hooked (should_reseed os r w).1
  should_reseed-Hooked r w h = elim (read_or_not r w) [
    | inl same ↦ subst Hooked (sym same) h
    | inr read ↦ subst Hooked (sym read) (now_seconds-Hooked w h)
  ]

  register-Hooked :
      (r : Rng) (w : W)
      → IsBacked r.destructor_registered w
      → Hooked (register_thread_exit hook r w).1
  unfolding register_thread_exit
  register-Hooked r w (inl e) = rw e (laws.registers w (laws.succeeds w))
  register-Hooked r w (inr h) =
      if-Hooked r.destructor_registered _ _ h (laws.registers w (laws.succeeds w))

  -- A result with its flags backed.
  abbrev Backs : ℤ × Rng × W → Type 0
  Backs s = AreBacked (flags s.1) s.2

  Backs-if : (b : Bool) (x y : ℤ × Rng × W) → Backs x → Backs y → Backs (if b then x else y)
  Backs-if true x y h k = h
  Backs-if false x y h k = k

  rng_seed-Backs :
      (kn : List ℕ) (r : Rng) (w : W) → AreBacked (flags r) w → Backs (rng_seed os hook kn r w)
  unfolding rng_seed
  rng_seed-Backs kn r w h =
      let w' = (os.random_bytes kn 44 w).2 in
      let w'' = (now_seconds os w').1 in
      let kept : Hooked w → Hooked w' = laws.random_bytes kn 44 w in
      let hooked =
        register-Hooked _ w''
          (moved r.destructor_registered w w'' (λ k. now_seconds-Hooked w' (kept k)) h.1) in
      Backs-if (ltb_ℤ (os.random_bytes kn 44 w).0 (pos 0)) _ _
        (AreBacked-moved (flags r) w w' kept h) (inr hooked, inr hooked)

  abbrev After : Option (ℤ × List ℕ × Rng × W) → Type 0
  After none = Unit
  After (some (rc, filled, r, w)) = AreBacked (flags r) w

  After-if :
      (b : Bool) (x y : Option (ℤ × List ℕ × Rng × W))
      → After x
      → After y
      → After (if b then x else y)
  After-if true x y h k = h
  After-if false x y h k = k

  After-loop :
      (r : Rng) (w : W) (m : Option (List ℕ × Rng))
      → AreBacked (flags r) w
      → Keeps r m
      → After (m >>= (λ (e : List ℕ × Rng). some (pos 0, e.0, e.1, w)))
  After-loop r w none h k = tt
  After-loop r w (some e) h k = subst (λ f. AreBacked f w) (sym k) h

  random_bytes-After :
      (wiping : Bool) (kn buf : List ℕ) (n : ℕ) (r : Rng) (w : W)
      → AreBacked (flags r) w
      → After (random_bytes os hook wiping kn buf n r w)
  unfolding random_bytes
  random_bytes-After wiping kn buf n r w h =
      let (stale, w') = should_reseed os r w in
      let s = if stale then rng_seed os hook kn r w' else (pos 0, r, w') in
      let later = AreBacked-moved (flags r) w w' (should_reseed-Hooked r w) h in
      let ready : Backs s = Backs-if stale _ _ (rng_seed-Backs kn r w' later) later in
      After-if wiping _ _ h (
        After-if (ltb_ℤ s.0 (pos 0)) _ _ ready
          (After-loop s.1 s.2 (random_loop n n buf s.1) ready (random_loop-Keeps n n buf s.1)))

  drawn-IsRng :
      (r r' : Rng) (wiping : Bool) (kn buf filled : List ℕ) (n : ℕ) (w w' : W) (rc : ℤ)
      → length buf ≡ n
      → IsRng r
      → random_bytes os hook wiping kn buf n r w ≡ some (rc, filled, r', w')
      → IsRng r'
  drawn-IsRng r r' wiping kn buf filled n w w' rc size h ran =
      let (_, _, _, _, same, valid, _) = random_bytes-fills os hook wiping kn buf n r w size h in
      subst (λ (e : ℤ × List ℕ × Rng × W). IsRng e.2) (some_eq (sym same ∙ ran)) valid

  zeroed-IsRng : IsRng zeroed
  zeroed-IsRng = record {
    words = refl;
    window = record { size = refl; bytes = AllBelow-replicate 256 64 0 (omega arith) };
    pos = omega arith;
  }

  Reached-AreBacked :
      (r : Rng) (w : W) → Reached os hook later r w → IsRng r × AreBacked (flags r) w
  unfolding random_force_reseed random_thread_state_wipe
  Reached-AreBacked _ _ (start w) = (zeroed-IsRng, (inl refl, inl refl))
  Reached-AreBacked _ _ (draw r r' wiping kn buf filled n w w' rc h size ran) =
      let (valid, backed) = Reached-AreBacked r w h in
      (
        drawn-IsRng r r' wiping kn buf filled n w w' rc size valid ran,
        subst After ran (random_bytes-After wiping kn buf n r w backed),
      )
  Reached-AreBacked _ _ (force_reseed r w h) =
      let (valid, backed) = Reached-AreBacked r w h in
      (record { words = valid.words; window = valid.window; pos = valid.pos }, (inl refl, backed.1))
  Reached-AreBacked _ _ (wipe r w wipes h) = (zeroed-IsRng, (inl refl, inl refl))
  Reached-AreBacked _ _ (elsewhere r w w' h on) =
      let (valid, backed) = Reached-AreBacked r w h in
      (valid, AreBacked-moved (flags r) w w' (laws.goes_on w w' on) backed)

  -- On a platform with `__cxa_thread_atexit_impl`, where every call of it returns 0, a call that
  -- returns 0 registers the trampoline that wipes for the end of the thread, and nothing else that
  -- goes on in the thread takes it away: whatever calls a thread makes in any order, draws that
  -- succeed or fail, forced reseeds and wipes, its generator keeps a state of 16 words, a window of
  -- 64 bytes and a position within it, and is not seeded unless the trampoline is registered.
  pub Reached-Hooked :
      (r : Rng) (w : W)
      → Reached os (cxa_thread_atexit_impl call) later r w
      → IsRng r × ((r.seeded ≡ false) ⊎ Hooked w)
  Reached-Hooked r w h = let (valid, backed) = Reached-AreBacked r w h in (valid, backed.0)
