-- ===== src/Tests/Random.antt =====
-- The theorems on the random generator, on one that has never been seeded and on a seeded one.
use libchronoid.Prelude.{
  ℕ, suc, ap, subst, length, ◌≢◌, none, some_eq, AllBelow, length-replicate, ◌<◌, ◌≤◌, ◌≡◌, ◌⊎◌,
  ◌++◌, take, refl, List, [], ◌∷◌, some, arith, true, false, IsArray, replicate,
}
use libchronoid.Prelude.Int.{ℤ, pos, negsuc, ◌≤ℤ◌}
use libchronoid.Prelude.Tables.{AllBelow-replicate}
use libchronoid.Random.{
  Os, Rng, ExitHook, cxa_thread_atexit_impl, now_seconds, should_reseed, random_bytes, rng_seed,
  register_thread_exit, random_loop, seeded_state, refill, consume, chunk_of,
}
use libchronoid.Platform.{Platform}
use libchronoid.Ksuid.Types.{Ksuid, KsuidErr, IsKsuid}
use libchronoid.Ksuid.Id.{ksuid_new, ksuid_time_unix, ksuid_payload}
use libchronoid.Random.Overrides.{Slots, internal_fill_random}
use libchronoid.Random.Thread.{Thread, IsOverride, thread}
use libchronoid.Random.Fresh.{ksuid_new-internal_fill_random}
use libchronoid.Tests.Samples.{id_0, id_0-IsKsuid}
use libchronoid.Random.Entropy.{Reply, done, failed, Calls, os_random_bytes}
use libchronoid.Random.Buffer.{IsLawful}
use libchronoid.Random.Ended.{IsPrompt, os_random_bytes-fills}
use libchronoid.Random.ChaCha20.{
  chacha20_c, rotl32, qr_step, qr, double_rounds, serialize, chacha20_block,
}
use libchronoid.Random.Loop.{IsRng}
use libchronoid.Random.Reach.{zeroed, start, draw, elsewhere, IsRegistry, Reached-Hooked}
use libchronoid.Random.Reseed.{IsFresh, IsSeededFrom, random_bytes-IsFresh}
use libchronoid.Random.Draw.{random_bytes-fills}

-- Entropy that is a constant, process 7, and a clock that stands.
abbrev os : Os ℕ
os = record {
  random_bytes = λ buf n w. (pos 0, replicate n 17, w);
  getpid = λ w. pos 7;
  timespec_get = λ w. (some (record { tv_sec = pos 1000; tv_nsec = 0 }), w);
}

-- A system that counts the callbacks for the end of the thread.
abbrev call : ℕ → ℤ × ℕ
call w = (pos 0, suc w)

abbrev hook : ExitHook ℕ
hook = cxa_thread_atexit_impl call

abbrev seeded : Rng
seeded = record zeroed { seeded = true; seed_time = pos 900; seed_pid = pos 7 }

zeroed-IsRng : IsRng zeroed
zeroed-IsRng = record {
  words = refl;
  window = record { size = refl; bytes = AllBelow-replicate 256 64 0 (omega arith) };
  pos = omega arith;
}

random_bytes-fills_example :
    (rc : ℤ) × (filled : List ℕ) × (r' : Rng) × (w' : ℕ) × (random_bytes os hook false []
        (1 ∷ 2 ∷ 3 ∷ [])
        3
        zeroed
        0
      ≡ some (rc, filled, r', w'))
    × IsRng r'
    × (((rc ≡ pos 0) × IsArray 3 filled) ⊎ ((rc ≡ negsuc 0) × (filled ≡ 1 ∷ 2 ∷ 3 ∷ [])))
random_bytes-fills_example =
    random_bytes-fills os hook false [] (1 ∷ 2 ∷ 3 ∷ []) 3 zeroed 0 refl zeroed-IsRng

-- The same within the KSUID epoch, and no override.
abbrev dated : Os ℕ
dated = record os {
  timespec_get = λ w. (some (record { tv_sec = pos 1700000000; tv_nsec = 0 }), w);
}

abbrev slots : Slots ℕ
slots = record { rng_fn = none; rng_ctx = 0; time_source = none }

slots-IsOverride : IsOverride slots
slots-IsOverride = record { fills = λ fn buf n w e. absurd (ground (arith, e)) }

abbrev unseeded : Thread ℕ
unseeded = record { rng = zeroed; valid = zeroed-IsRng; world = 0 }

abbrev room : List ℕ
room = replicate 16 0

abbrev surroundings : Platform (Thread ℕ)
surroundings = thread dated slots hook [] slots-IsOverride

ksuid_new-internal_fill_random_example :
    (rc : ℤ) × (payload : List ℕ) × (t' : Thread ℕ) × (internal_fill_random dated slots hook false
        [] room 16 zeroed 0
      ≡ some (rc, payload, t'.rng, t'.world))
    × (((rc ≡ pos 0)
          × ((id : Ksuid) × (ksuid_new surroundings room id_0 unseeded ≡ some (KsuidErr.ok, id, t'))
              × IsKsuid id
              × (ksuid_time_unix id ≡ pos 1700000000)
              × (ksuid_payload id ≡ payload)))
        ⊎ ((rc ≢ pos 0)
            × (ksuid_new surroundings room id_0 unseeded ≡ some (KsuidErr.err_rng, id_0, t'))))
ksuid_new-internal_fill_random_example =
    ksuid_new-internal_fill_random dated slots hook [] slots-IsOverride room id_0 unseeded
      (record { tv_sec = pos 1700000000; tv_nsec = 0 }) 1700000000 refl refl
      (omega arith, omega arith) id_0-IsKsuid refl

-- The generator after the first draw, of no bytes.
abbrev first : Rng
first = record {
  state = seeded_state (replicate 44 17);
  buf = replicate 64 0;
  buf_pos = 64;
  bytes_emitted = 0;
  seed_time = pos 1000;
  seed_pid = pos 7;
  seeded = true;
  destructor_registered = true;
}

first_draw : random_bytes os hook false [] [] 0 zeroed 0 ≡ some (pos 0, [], first, 1)
unfolding random_bytes should_reseed rng_seed now_seconds register_thread_exit random_loop
first_draw = refl

call-IsRegistry : IsRegistry os call ◌≤◌ (λ w. 0 < w)
call-IsRegistry = record {
  succeeds = λ w. refl;
  registers = λ w e. omega arith;
  random_bytes = λ buf n w h. h;
  timespec_get = λ w h. h;
  goes_on = λ w w' le h. omega (arith, le, h);
}

Reached-Hooked_example : IsRng first × ((first.seeded ≡ false) ⊎ (0 < 2))
Reached-Hooked_example =
    Reached-Hooked os call ◌≤◌ (λ w. 0 < w) call-IsRegistry first 2
      (elsewhere first 1 2
        (draw zeroed first false [] [] [] 0 0 1 (pos 0) (start 0) refl first_draw) (omega arith))

-- The generator `seeded` after it has given three bytes of its window.
abbrev given : Rng
given = record seeded { buf_pos = 3; bytes_emitted = 3 }

fresh_draw :
    random_bytes os hook false [] (1 ∷ 2 ∷ 3 ∷ []) 3 seeded 0
    ≡ some (pos 0, 0 ∷ 0 ∷ 0 ∷ [], given, 0)
unfolding random_bytes should_reseed now_seconds random_loop refill consume chunk_of
fresh_draw = refl

random_bytes-IsFresh_example :
    (IsFresh os seeded 0 × (random_loop 3 3 (1 ∷ 2 ∷ 3 ∷ []) seeded ≡ some (0 ∷ 0 ∷ 0 ∷ [], given)))
    ⊎ ((¬ IsFresh os seeded 0)
        × (pos 0 ≤ℤ (os.random_bytes [] 44 (should_reseed os seeded 0).1).0)
        × (anew : Rng) × IsSeededFrom (os.random_bytes [] 44 (should_reseed os seeded 0).1).1 anew
        × (random_loop 3 3 (1 ∷ 2 ∷ 3 ∷ []) anew ≡ some (0 ∷ 0 ∷ 0 ∷ [], given)))
random_bytes-IsFresh_example =
    random_bytes-IsFresh os hook [] (1 ∷ 2 ∷ 3 ∷ []) (0 ∷ 0 ∷ 0 ∷ []) 3 seeded given 0 0 fresh_draw

-- A system without `getrandom`, with the other two sources.
abbrev calls : Calls ℕ
calls = record {
  bcrypt_gen_random = λ n w. (none, w);
  getrandom = λ n w. (failed, w);
  getentropy = λ n w. (some (replicate n 5), suc w);
  open_urandom = λ w. (done 3, w);
  read = λ fd n w. (done (replicate n 6), w);
  close = λ fd w. w;
}

abbrev read_of : Reply (List ℕ) → List ℕ
read_of (done bytes) = bytes
read_of _ = []

copies :
    (n k : ℕ) (bytes : List ℕ)
    → k < 256
    → replicate n k ≡ bytes
    → (length bytes ≡ n) × AllBelow 256 bytes
copies n k bytes h e =
    subst (λ bs. (length bs ≡ n) × AllBelow 256 bs) e
      (length-replicate n k, AllBelow-replicate 256 n k h)

calls-IsLawful : IsLawful calls
calls-IsLawful = record {
  getrandom = λ n w bytes e. absurd (ground (arith, e));
  getentropy = λ n w bytes e. copies n 5 bytes (omega arith) (some_eq e);
  read = λ fd n w bytes e.
      let c = copies n 6 bytes (omega arith) (ap read_of e) in (omega (arith, c.0), c.1);
}

calls-IsPrompt : IsPrompt calls
calls-IsPrompt = record {
  getrandom = λ n w e. ground (arith, e);
  wrote = λ n w bytes h e. absurd (ground (arith, e));
  open_urandom = λ w e. ground (arith, e);
  read = λ fd n w e. ground (arith, e);
}

os_random_bytes-fills_example :
    (rc : ℤ) × (filled : List ℕ) × (w' : ℕ) × (os_random_bytes calls true true 600
        (replicate 600 0)
        600
        0
      ≡ some (rc, filled, w'))
    × (((rc ≡ pos 0) × IsArray 600 filled) ⊎ (rc ≢ pos 0))
os_random_bytes-fills_example =
    os_random_bytes-fills calls calls-IsPrompt true true 600 600 (replicate 600 0) 0 calls-IsLawful
      refl (omega arith) (omega arith)

-- The state of the test vector in section 2.3.2 of RFC 8439.
abbrev rfc_state : List ℕ
rfc_state =
    chacha20_c
    ++ (0x03020100 ∷ 0x07060504 ∷ 0x0b0a0908 ∷ 0x0f0e0d0c ∷ 0x13121110 ∷ 0x17161514 ∷ 0x1b1a1918
        ∷ 0x1f1e1d1c ∷ 1 ∷ 0x09000000 ∷ 0x4a000000 ∷ 0 ∷ [])

-- The first bytes of its key stream.
rfc_block :
    take 8 (chacha20_block rfc_state).0
    ≡ (0x10 ∷ 0xf1 ∷ 0xe7 ∷ 0xe4 ∷ 0xd1 ∷ 0x3b ∷ 0x59 ∷ 0x15 ∷ [])
unfolding chacha20_block double_rounds serialize qr qr_step rotl32
rfc_block = refl
