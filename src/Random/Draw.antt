-- ===== src/Random/Draw.antt =====
-- `chronoid_random_bytes` as a whole, on a valid generator.
use libchronoid.Prelude.{
  ℕ, ◌≡◌, ◌⊎◌, inl, inr, refl, ap, List, Option, none, some, arith, length, IsArray, Bool,
  Bool-cases, true, false, if◌then◌else◌, ◌>>=◌,
}
use libchronoid.Prelude.Int.{ℤ, pos, negsuc, ltb_ℤ}
use libchronoid.Prelude.Tables.{AllBelow-replicate}
use libchronoid.Random.{
  Os, Rng, ExitHook, cxa_thread_atexit_impl, fls, no_hook, register_thread_exit, rng_seed,
  should_reseed, random_bytes, seeded_state,
}
use libchronoid.Random.Loop.{IsRng, random_loop-fills}

registered : (r : Rng) → IsRng r → IsRng (record r { destructor_registered = true })
registered r h = record { words = h.words; window = h.window; pos = h.pos }

-- A property of a generator that does not depend on the flag.
module _ {W : Type 0} (P : Rng → Type 0)
    (flagged : (r : Rng) → P r → P (record r { destructor_registered = true })) where
  keeps-if : (b : Bool) (x y : Rng × W) → P x.0 → P y.0 → P (if b then x else y).0
  keeps-if true x y h k = h
  keeps-if false x y h k = k

  pub register_thread_exit-keeps :
      (hook : ExitHook W) (r : Rng) (w : W) → P r → P (register_thread_exit hook r w).0
  unfolding register_thread_exit
  register_thread_exit-keeps no_hook r w h = h
  register_thread_exit-keeps (cxa_thread_atexit_impl call) r w h =
      keeps-if r.destructor_registered _ _ h (flagged r h)
  register_thread_exit-keeps (fls init_once set_value) r w h =
      keeps-if r.destructor_registered _ _ h (at_index (init_once w).0)
    where
      at_index :
          (index : Option ℕ)
          → P
              (elim index as (λ _. Rng × W) [
                | none ↦ (r, (init_once w).1)
                | some index ↦
                    let (set, w'') = set_value index (init_once w).1 in
                    if set then (record r { destructor_registered = true }, w'') else (r, w'')
              ]).0
      at_index none = h
      at_index (some index) = keeps-if (set_value index (init_once w).1).0 _ _ (flagged r h) h

module _ {W : Type 0} (os : Os W) where
  after_register : {r : Rng} → IsRng r → IsRng (record r { seeded = true })
  after_register h = record { words = h.words; window = h.window; pos = h.pos }

  rng_seed-IsRng :
      (hook : ExitHook W) (kn : List ℕ) (r : Rng) (w : W)
      → IsRng r
      → IsRng (rng_seed os hook kn r w).1
  unfolding rng_seed seeded_state
  rng_seed-IsRng hook kn r w h = elim (Bool-cases (ltb_ℤ (os.random_bytes kn 44 w).0 (pos 0))) [
    | inl failed ↦ rw failed h
    | inr drawn ↦ rw drawn (
        after_register (
          register_thread_exit-keeps IsRng registered hook _ _ (record {
            words = refl;
            window = record { size = refl; bytes = AllBelow-replicate 256 64 0 (omega arith) };
            pos = omega arith;
          })))
  ]

  -- The generator that a call draws from, after the decision to reseed.
  abbrev pub ready : ExitHook W → List ℕ → Rng → W → ℤ × Rng × W
  ready hook kn r w =
      let (stale, w') = should_reseed os r w in
      if stale then rng_seed os hook kn r w' else (pos 0, r, w')

  ready-IsRng :
      (hook : ExitHook W) (kn : List ℕ) (r : Rng) (w : W) → IsRng r → IsRng (ready hook kn r w).1
  ready-IsRng hook kn r w h = elim (Bool-cases (should_reseed os r w).0) [
    | inl stale ↦ rw stale (rng_seed-IsRng hook kn r (should_reseed os r w).1 h)
    | inr fresh ↦ rw fresh h
  ]

  -- On a valid generator and a buffer of `n` bytes, `chronoid_random_bytes` ends and leaves a valid
  -- generator. It either returns 0 with the buffer filled with bytes, or -1 with the buffer
  -- untouched.
  pub random_bytes-fills :
      (hook : ExitHook W) (wiping : Bool) (kn buf : List ℕ) (n : ℕ) (r : Rng) (w : W)
      → length buf ≡ n
      → IsRng r
      → (rc : ℤ) × (filled : List ℕ) × (r' : Rng) × (w' : W) × (random_bytes os hook wiping kn buf n
            r w
          ≡ some (rc, filled, r', w'))
        × IsRng r'
        × (((rc ≡ pos 0) × IsArray n filled) ⊎ ((rc ≡ negsuc 0) × (filled ≡ buf)))
  unfolding random_bytes
  random_bytes-fills hook true kn buf n r w size h =
      (negsuc 0, buf, r, w, refl, h, inr (refl, refl))
  random_bytes-fills hook false kn buf n r w size h =
      elim (Bool-cases (ltb_ℤ (ready hook kn r w).0 (pos 0))) [
        | inl failed ↦ (
          negsuc 0,
          buf,
          (ready hook kn r w).1,
          (ready hook kn r w).2,
          rw failed refl,
          ready-IsRng hook kn r w h,
          inr (refl, refl),
        )
        | inr drawn ↦
            let (filled, r', ran, array, valid) =
              random_loop-fills n n buf (ready hook kn r w).1 (omega arith) size
                (ready-IsRng hook kn r w h) in
            (
              pos 0,
              filled,
              r',
              (ready hook kn r w).2,
              rw drawn (
                  ap
                    (λ o.
                      o >>= (λ (e : List ℕ × Rng). some (pos 0, e.0, e.1, (ready hook kn r w).2)))
                    ran),
              valid,
              inl (refl, array),
            )
      ]
