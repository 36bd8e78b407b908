-- ===== src/Random/Thread.antt =====
-- A thread's generator with its seeding and wipe, the override of chronoid/ksuid/ksuid.c and the clock
-- of chronoid/rand_tls.c, as what the identifier code draws from.
use libchronoid.Prelude.{
  ℕ, ◌≡◌, ◌==◌, refl, subst, sym, ◌∙◌, ◌⊎◌, inl, inr, List, Bool, true, false, Option, none, some,
  some_eq, Option-cases, arith, length, IsArray,
}
use libchronoid.Prelude.Int.{ℤ, pos, negsuc}
use libchronoid.Platform.{Platform}
use libchronoid.Random.{Os, ExitHook, Rng}
use libchronoid.Random.Loop.{IsRng}
use libchronoid.Random.Draw.{random_bytes-fills}
use libchronoid.Random.Overrides.{Slots, internal_fill_random, now_ms}

-- A valid generator with what is around it.
pub record Thread (W : Type 0) : Type 0 where
  pub rng : Rng
  pub valid : IsRng rng
  pub world : W

-- A function that a caller has installed fills a buffer of its size with bytes where it returns 0.
pub record IsOverride {W : Type 0} (slots : Slots W) : Type 0 where
  pub fills :
      (fn : ℕ → List ℕ → ℕ → W → ℤ × List ℕ × W) (buf : List ℕ) (n : ℕ) (w : W)
      → slots.rng_fn ≡ some fn
      → length buf ≡ n
      → (fn slots.rng_ctx buf n w).0 ≡ pos 0
      → IsArray n (fn slots.rng_ctx buf n w).1

pub equal : (m n : ℕ) → (m == n) ≡ true → m ≡ n
equal m n e = ground (arith, e)

-- A value that a test allows.
abbrev when : {A : Type 0} → (b : Bool) → (b ≡ true → A) → Option A
when true f = some (f refl)
when false f = none

when-some : {A : Type 0} (b : Bool) (f : b ≡ true → A) → b ≡ true → (a : A) × (when b f ≡ some a)
when-some true f h = (f refl, refl)
when-some false f h = absurd (ground (arith, h))

abbrev pub same_size : (m n : ℕ) → Option (m ≡ n)
same_size m n = when (m == n) (equal m n)

module _ {W : Type 0} (os : Os W) (slots : Slots W) (hook : ExitHook W) (kn : List ℕ)
    (lawful : IsOverride slots) where
  -- What a call leaves.
  abbrev Filled : List ℕ → ℕ → Thread W → Type 0
  Filled buf n t =
      (rc : ℤ) × (filled : List ℕ) × (t' : Thread W) × (internal_fill_random os slots hook false kn
          buf n t.rng t.world
        ≡ some (rc, filled, t'.rng, t'.world))
      × (rc ≡ pos 0 → IsArray n filled)

  on_success :
      (rc : ℤ) (filled buf : List ℕ) (n : ℕ)
      → ((rc ≡ pos 0) × IsArray n filled) ⊎ ((rc ≡ negsuc 0) × (filled ≡ buf))
      → rc ≡ pos 0
      → IsArray n filled
  on_success rc filled buf n (inl h) e = h.1
  on_success rc filled buf n (inr h) e = absurd (ground (arith, h, e))

  filled : (buf : List ℕ) (n : ℕ) (t : Thread W) → length buf ≡ n → Filled buf n t
  unfolding internal_fill_random
  filled buf n t size = elim (Option-cases slots.rng_fn) [
    | inl own ↦
        let (rc, filled, r, w, ran, valid, result) =
          random_bytes-fills os hook false kn buf n t.rng t.world size t.valid in
        (
          rc,
          filled,
          record { rng = r; valid = valid; world = w },
          rw (own, internal_fill_random) ran,
          on_success rc filled buf n result,
        )
    | inr (fn, installed) ↦
        let result = fn slots.rng_ctx buf n t.world in
        (
          result.0,
          result.1,
          record { rng = t.rng; valid = t.valid; world = result.2 },
          rw (installed, internal_fill_random) refl,
          lawful.fills fn buf n t.world installed size,
        )
  ]

  -- What a call that ends leaves is valid.
  abbrev Left : ℕ → ℤ × List ℕ × Rng × W → Type 0
  Left n (rc, filled, r, w) = IsRng r × (rc ≡ pos 0 → IsArray n filled)

  pub left :
      (buf : List ℕ) (n : ℕ) (t : Thread W) (e : ℤ × List ℕ × Rng × W)
      → length buf ≡ n
      → internal_fill_random os slots hook false kn buf n t.rng t.world ≡ some e
      → Left n e
  left buf n t e size ran =
      let (rc, filled, t', same, result) = filled buf n t size in
      subst (Left n) (some_eq (sym same ∙ ran)) (t'.valid, result)

  abbrev Call : Type 0
  Call = Option (ℤ × List ℕ × Rng × W)

  -- The state after a call. That it has not ended is the first case, and does not occur.
  abbrev pub leave :
      (buf : List ℕ) (n : ℕ) (t : Thread W) (m : Call)
      → length buf ≡ n
      → internal_fill_random os slots hook false kn buf n t.rng t.world ≡ m
      → ℤ × List ℕ × Thread W
  leave buf n t none size ran = (negsuc 0, buf, t)
  leave buf n t (some (rc, filled, r, w)) size ran = (
    rc,
    filled,
    record { rng = r; valid = (left buf n t (rc, filled, r, w) size ran).0; world = w },
  )

  -- A call with a buffer of another size, which no caller makes, leaves all as it is.
  abbrev pub drawn :
      (buf : List ℕ) (n : ℕ) (t : Thread W) → Option (length buf ≡ n) → ℤ × List ℕ × Thread W
  drawn buf n t (some size) =
      leave buf n t (internal_fill_random os slots hook false kn buf n t.rng t.world) size refl
  drawn buf n t none = (negsuc 0, buf, t)

  -- What a call has given, as the call itself gives it.
  abbrev pub Gives : List ℕ → ℕ → Thread W → ℤ × List ℕ × Thread W → Type 0
  Gives buf n t r =
      internal_fill_random os slots hook false kn buf n t.rng t.world
      ≡ some (r.0, r.1, r.2.rng, r.2.world)

  leave-Gives :
      (buf : List ℕ) (n : ℕ) (t : Thread W) (m : Call) (size : length buf ≡ n)
      (ran : internal_fill_random os slots hook false kn buf n t.rng t.world ≡ m)
      → Gives buf n t (leave buf n t m size ran)
  leave-Gives buf n t none size ran = absurd (never ((filled buf n t size).3) ran)
    where
      never : {m : Call} {e : ℤ × List ℕ × Rng × W} → m ≡ some e → m ≡ none → ⊥
      never f g = ground (arith, f, g)
  leave-Gives buf n t (some e) size ran = ran

  leave-IsArray :
      (buf : List ℕ) (n : ℕ) (t : Thread W) (m : Call) (size : length buf ≡ n)
      (ran : internal_fill_random os slots hook false kn buf n t.rng t.world ≡ m)
      → (leave buf n t m size ran).0 ≡ pos 0
      → IsArray n (leave buf n t m size ran).1
  leave-IsArray buf n t none size ran e = absurd (ground (arith, e))
  leave-IsArray buf n t (some r) size ran e = (left buf n t r size ran).1 e

  pub drawn-IsArray :
      (buf : List ℕ) (n : ℕ) (t : Thread W) (size : Option (length buf ≡ n))
      → (drawn buf n t size).0 ≡ pos 0
      → IsArray n (drawn buf n t size).1
  drawn-IsArray buf n t (some size) e =
      leave-IsArray buf n t (internal_fill_random os slots hook false kn buf n t.rng t.world) size
        refl e
  drawn-IsArray buf n t none e = absurd (ground (arith, e))

  -- The surroundings of the identifier code on a thread.
  abbrev pub thread : Platform (Thread W)
  thread = record {
    fill_random = λ buf n t. drawn buf n t (same_size (length buf) n);
    now_ms = λ t. let (ms, w) = now_ms os slots t.world in (ms, record t { world = w });
    timespec_get = λ t. let (ts, w) = os.timespec_get t.world in (ts, record t { world = w });
    fills = λ buf n t size e. drawn-IsArray buf n t (same_size (length buf) n) e;
  }

  -- What the interface gives for a buffer of `n` bytes is what `chronoid_internal_fill_random` gives.
  pub thread-Gives :
      (buf : List ℕ) (n : ℕ) (t : Thread W)
      → length buf ≡ n
      → Gives buf n t (thread.fill_random buf n t)
  thread-Gives buf n t h =
      let (size, found) = when-some (length buf == n) (equal (length buf) n) (ground (arith, h)) in
      subst (λ s. Gives buf n t (drawn buf n t s)) (sym found)
        (leave-Gives buf n t (internal_fill_random os slots hook false kn buf n t.rng t.world) size
          refl)
