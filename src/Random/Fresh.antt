-- ===== src/Random/Fresh.antt =====
-- `chronoid_ksuid_new` over the generator of a thread.
use libchronoid.Prelude.{ℕ, ◌≡◌, ◌≢◌, ap, ◌∙◌, ◌⊎◌, inl, inr, List, false, some, length}
use libchronoid.Prelude.Int.{ℤ, pos}
use libchronoid.Platform.{Platform, Timespec}
use libchronoid.Ksuid.Types.{Ksuid, IsKsuid, ok, err_rng}
use libchronoid.Ksuid.Id.{ksuid_new, ksuid_new_with_time, ksuid_time_unix, ksuid_payload}
use libchronoid.Ksuid.Id.Parts.{InEpoch}
use libchronoid.Ksuid.Id.Generate.{
  ksuid_new-clock, ksuid_new_with_time-err_rng, clocked, zero_or_not,
}
use libchronoid.Random.{Os, ExitHook}
use libchronoid.Random.Overrides.{Slots, internal_fill_random}
use libchronoid.Random.Thread.{Thread, IsOverride, thread, thread-Gives}

module _ {W : Type 0} (os : Os W) (slots : Slots W) (hook : ExitHook W) (kn : List ℕ)
    (lawful : IsOverride slots) where
  abbrev on_thread : Platform (Thread W)
  on_thread = thread os slots hook kn lawful

  -- On a thread with a valid generator, with or without a caller's random source, which must fill a
  -- buffer of its size where it returns 0, and for a clock within the KSUID epoch,
  -- `chronoid_ksuid_new` makes one draw of 16 bytes from `chronoid_internal_fill_random`: where
  -- this returns 0 it succeeds with a valid identifier of the clock's second with the bytes drawn
  -- as its payload, and otherwise it fails as ERR_RNG with `*out` untouched.
  pub ksuid_new-internal_fill_random :
      (buf : List ℕ) (out : Ksuid) (t : Thread W) (ts : Timespec) (c : ℕ)
      → (os.timespec_get t.world).0 ≡ some ts
      → ts.tv_sec ≡ pos c
      → InEpoch (pos c)
      → IsKsuid out
      → length buf ≡ 16
      → (rc : ℤ) × (payload : List ℕ) × (t' : Thread W) × (internal_fill_random os slots hook false
            kn buf 16 t.rng
            (os.timespec_get t.world).1
          ≡ some (rc, payload, t'.rng, t'.world))
        × (((rc ≡ pos 0)
              × ((id : Ksuid) × (ksuid_new (thread os slots hook kn lawful) buf out t
                    ≡ some (ok, id, t'))
                  × IsKsuid id
                  × (ksuid_time_unix id ≡ pos c)
                  × (ksuid_payload id ≡ payload)))
            ⊎ ((rc ≢ pos 0)
                × (ksuid_new (thread os slots hook kn lawful) buf out t ≡ some (err_rng, out, t'))))
  ksuid_new-internal_fill_random buf out t ts c clock sec e k size =
      let t1 = (on_thread.timespec_get t).1 in
      let r = on_thread.fill_random buf 16 t1 in
      (
        r.0,
        r.1,
        r.2,
        thread-Gives os slots hook kn lawful buf 16 t1 size,
        elim (zero_or_not r.0) [
          | inl rc ↦ inl (rc, ksuid_new-clock on_thread buf out t c ts clock sec e k size rc)
          | inr rc ↦ inr (
            rc,
            clocked on_thread buf out t ts clock
                ∙ ap (λ s. ksuid_new_with_time on_thread buf out s t1) sec
                ∙ ksuid_new_with_time-err_rng on_thread buf out t1 c e rc,
          )
        ],
      )
