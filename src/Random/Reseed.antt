-- ===== src/Random/Reseed.antt =====
-- The reseed policy of `chronoid_random_bytes`.
use libchronoid.Prelude.{
  ℕ, ◌^◌, ◌<◌, ◌≡◌, ◌⊎◌, inl, inr, refl, ap, subst, List, Option, none, some, some_eq, arith, Bool,
  Bool-cases, true, false, if◌then◌else◌, ◌>>=◌,
}
use libchronoid.Prelude.Int.{ℤ, pos, negsuc, ltb_ℤ, ◌-ℤ◌, ◌≤ℤ◌}
use libchronoid.Random.Draw.{register_thread_exit-keeps}
use libchronoid.Random.{
  Os, Rng, ExitHook, now_seconds, rng_seed, should_reseed, random_bytes, random_loop, seeded_state,
}

-- A generator that has given nothing of the key stream of a seed.
abbrev pub IsSeededFrom : List ℕ → Rng → Type 0
IsSeededFrom key r = (r.state ≡ seeded_state key) × (r.buf_pos ≡ 64) × (r.bytes_emitted ≡ 0)

module _ {W : Type 0} (os : Os W) where
  -- Seeded, with less than 1 MiB given, under the same process number, and less than an hour ago by
  -- a clock that has not gone back.
  abbrev pub IsFresh : Rng → W → Type 0
  IsFresh r w =
      (r.seeded ≡ true)
      × (r.bytes_emitted < 2 ^ 20)
      × (os.getpid w ≡ r.seed_pid)
      × (r.seed_time ≤ℤ (now_seconds os w).0)
      × ((now_seconds os w).0 -ℤ r.seed_time ≤ℤ pos 3599)

  fresh : (r : Rng) (w : W) → (should_reseed os r w).0 ≡ false → IsFresh r w
  unfolding should_reseed
  fresh r w e = ground (arith, e)

  stale : (r : Rng) (w : W) → (should_reseed os r w).0 ≡ true → ¬ IsFresh r w
  unfolding should_reseed
  stale r w e h = ground (arith, e, h)

  rng_seed-IsSeededFrom :
      (hook : ExitHook W) (kn : List ℕ) (r : Rng) (w : W)
      → ltb_ℤ (os.random_bytes kn 44 w).0 (pos 0) ≡ false
      → ((rng_seed os hook kn r w).0 ≡ pos 0)
        × IsSeededFrom (os.random_bytes kn 44 w).1 (rng_seed os hook kn r w).1
  unfolding rng_seed
  rng_seed-IsSeededFrom hook kn r w drawn = rw drawn (
    refl,
    register_thread_exit-keeps (IsSeededFrom (os.random_bytes kn 44 w).1) (λ r h. h) hook _ _
        (refl, refl, refl),
  )

  rng_seed-draws :
      (hook : ExitHook W) (kn : List ℕ) (r : Rng) (w : W)
      → ltb_ℤ (rng_seed os hook kn r w).0 (pos 0) ≡ false
      → ltb_ℤ (os.random_bytes kn 44 w).0 (pos 0) ≡ false
  unfolding rng_seed
  rng_seed-draws hook kn r w went = elim (Bool-cases (ltb_ℤ (os.random_bytes kn 44 w).0 (pos 0))) [
    | inr drawn ↦ drawn
    | inl failed ↦ absurd (ground (arith, failed, went))
  ]

  abbrev Drawn : Type 0
  Drawn = Option (ℤ × List ℕ × Rng × W)

  -- What a draw does behind the decision to seed anew.
  abbrev behind : ℕ → List ℕ → ℤ × Rng × W → Drawn
  behind n buf s =
      if ltb_ℤ s.0 (pos 0)
      then some (negsuc 0, buf, s.1, s.2)
      else random_loop n n buf s.1 >>= (λ (e : List ℕ × Rng). some (pos 0, e.0, e.1, s.2))

  looped :
      (m : Option (List ℕ × Rng)) {filled : List ℕ} {r' : Rng} (w : W) {w' : W}
      → ◌≡◌ {A = Drawn}
          (m >>= (λ (e : List ℕ × Rng). some (pos 0, e.0, e.1, w)))
          (some (pos 0, filled, r', w'))
      → m ≡ some (filled, r')
  looped none w e = absurd (ground (arith, e))
  looped (some x) w e = ap (λ (x : ℤ × List ℕ × Rng × W). some (x.1, x.2)) (some_eq e)

  looped_from :
      (s : ℤ × Rng × W) (n : ℕ) (buf filled : List ℕ) (r' : Rng) (w' : W)
      → behind n buf s ≡ some (pos 0, filled, r', w')
      → (ltb_ℤ s.0 (pos 0) ≡ false) × (random_loop n n buf s.1 ≡ some (filled, r'))
  looped_from s n buf filled r' w' e = elim (Bool-cases (ltb_ℤ s.0 (pos 0))) [
    | inr went ↦ (
      went,
      looped (random_loop n n buf s.1) s.2
          (subst (λ b. taken b ≡ some (pos 0, filled, r', w')) went e),
    )
    | inl failed ↦ absurd (refused (subst (λ b. taken b ≡ some (pos 0, filled, r', w')) failed e))
  ]
    where
      taken : Bool → Drawn
      taken b =
          if b
          then some (negsuc 0, buf, s.1, s.2)
          else random_loop n n buf s.1 >>= (λ (e : List ℕ × Rng). some (pos 0, e.0, e.1, s.2))

      refused : ◌≡◌ {A = Drawn} (some (negsuc 0, buf, s.1, s.2)) (some (pos 0, filled, r', w')) → ⊥
      refused e = ground (arith, e)

  -- A draw that returns 0, on a thread that is not being torn down, runs its output loop on the
  -- generator as it stands if this is seeded, has given less than 1 MiB, was seeded under the same
  -- process number, and less than an hour ago by a clock that has not gone back; otherwise on one
  -- that has given nothing yet of the seed made of the 44 bytes that the entropy source then fills
  -- without an error.
  pub random_bytes-IsFresh :
      (hook : ExitHook W) (kn buf filled : List ℕ) (n : ℕ) (r r' : Rng) (w w' : W)
      → random_bytes os hook false kn buf n r w ≡ some (pos 0, filled, r', w')
      → (IsFresh r w × (random_loop n n buf r ≡ some (filled, r')))
        ⊎ ((¬ IsFresh r w)
            × (pos 0 ≤ℤ (os.random_bytes kn 44 (should_reseed os r w).1).0)
            × (seeded : Rng) × IsSeededFrom
                (os.random_bytes kn 44 (should_reseed os r w).1).1
                seeded
            × (random_loop n n buf seeded ≡ some (filled, r')))
  unfolding random_bytes
  random_bytes-IsFresh hook kn buf filled n r r' w w' ran =
      elim (Bool-cases (should_reseed os r w).0) [
        | inr kept ↦ inl (
          fresh r w kept,
          subst (λ b. random_loop n n buf (ready b).1 ≡ some (filled, r')) kept ran_on.1,
        )
        | inl again ↦
            let seed = rng_seed os hook kn r (should_reseed os r w).1 in
            let (went, loop) = subst Ran again ran_on in
            let drawn = rng_seed-draws hook kn r (should_reseed os r w).1 went in
            inr (
              stale r w again,
              ground (arith, drawn),
              seed.1,
              (rng_seed-IsSeededFrom hook kn r (should_reseed os r w).1 drawn).1,
              loop,
            )
      ]
    where
      ready : Bool → ℤ × Rng × W
      ready b =
          if b
          then rng_seed os hook kn r (should_reseed os r w).1
          else (pos 0, r, (should_reseed os r w).1)

      Ran : Bool → Type 0
      Ran b =
          (ltb_ℤ (ready b).0 (pos 0) ≡ false)
          × (random_loop n n buf (ready b).1 ≡ some (filled, r'))

      ran_on : Ran (should_reseed os r w).0
      ran_on = looped_from (ready (should_reseed os r w).0) n buf filled r' w' ran
