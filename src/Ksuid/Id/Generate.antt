-- ===== src/Ksuid/Id/Generate.antt =====
-- `chronoid_ksuid_new_with_time` and `chronoid_ksuid_new`.
use libchronoid.Prelude.{
  ℕ, zero, suc, ◌+◌, ◌-◌, ◌^◌, ◌≡◌, ◌≢◌, ◌⊎◌, inl, inr, refl, ap, ◌∙◌, List, some, arith, length,
  IsArray, Bool-cases, Option-cases, ltb, ◌||◌,
}
use libchronoid.Prelude.Int.{ℤ, pos, negsuc, ◌≤ℤ◌, InI64}
use libchronoid.Platform.{Platform, Timespec}
use libchronoid.Ksuid.Types.{
  Ksuid, IsKsuid, KsuidErr, ok, err_rng, err_time_range, ksuid_epoch_seconds,
}
use libchronoid.Ksuid.Id.{ksuid_new_with_time, ksuid_new, ksuid_time_unix, ksuid_payload}
use libchronoid.Ksuid.Id.Parts.{
  ksuid_of, InEpoch, sub_epoch, in_epoch, not-InEpoch, write_parts-ksuid_of, ksuid_of-time,
}

module _ {W : Type 0} (platform : Platform W) (buf : List ℕ) (out : Ksuid) (w : W) where
  -- For a time of the KSUID epoch and a random source that returns 0,
  -- `chronoid_ksuid_new_with_time` draws 16 bytes and succeeds with a valid identifier of that time
  -- whose payload they are.
  pub ksuid_new_with_time-fresh :
      (t : ℕ)
      → InEpoch (pos t)
      → IsKsuid out
      → length buf ≡ 16
      → (platform.fill_random buf 16 w).0 ≡ pos 0
      → (id : Ksuid) × (ksuid_new_with_time platform buf out (pos t) w
          ≡ some (ok, id, (platform.fill_random buf 16 w).2))
        × IsKsuid id
        × (ksuid_time_unix id ≡ pos t)
        × (ksuid_payload id ≡ (platform.fill_random buf 16 w).1)
  unfolding ksuid_new_with_time
  ksuid_new_with_time-fresh t e k size rc =
      let (valid, time, rest) = ksuid_of-time t _ drawn e in
      (
        ksuid_of (t - ksuid_epoch_seconds) (platform.fill_random buf 16 w).1,
        rw (sub_epoch t e, in_epoch t e, rc)
            (ap (λ id. some (ok, id, (platform.fill_random buf 16 w).2))
              (write_parts-ksuid_of (t - ksuid_epoch_seconds) _ drawn out k (omega (arith, e)))),
        valid,
        time,
        rest,
      )
    where
      drawn : IsArray 16 (platform.fill_random buf 16 w).1
      drawn = platform.fills buf 16 w size rc

  -- A random source that fails makes it fail as ERR_RNG with `*out` untouched.
  pub ksuid_new_with_time-err_rng :
      (t : ℕ)
      → InEpoch (pos t)
      → (platform.fill_random buf 16 w).0 ≢ pos 0
      → ksuid_new_with_time platform buf out (pos t) w
        ≡ some (err_rng, out, (platform.fill_random buf 16 w).2)
  unfolding ksuid_new_with_time
  ksuid_new_with_time-err_rng t e rc = rw (sub_epoch t e, in_epoch t e) (ground arith)

  -- A time outside the epoch fails as ERR_TIME_RANGE with `*out` untouched and nothing drawn.
  pub ksuid_new_with_time-refuses :
      (t : ℤ)
      → InI64 t
      → negsuc (2 ^ 63 - ksuid_epoch_seconds - 1) ≤ℤ t
      → ¬ InEpoch t
      → ksuid_new_with_time platform buf out t w ≡ some (err_time_range, out, w)
  unfolding ksuid_new_with_time
  ksuid_new_with_time-refuses t i d outside =
      let (c, defined, refused) = not-InEpoch t i d outside in rw (defined, refused)

  pub clocked :
      (ts : Timespec)
      → (platform.timespec_get w).0 ≡ some ts
      → ksuid_new platform buf out w
        ≡ ksuid_new_with_time platform buf out ts.tv_sec (platform.timespec_get w).1
  unfolding ksuid_new
  clocked ts clock = rw (clock, ksuid_new) refl

-- For a clock within the KSUID epoch and a random source that returns 0, `chronoid_ksuid_new`
-- succeeds with an identifier of the clock's second whose payload is what is drawn after the clock
-- is read.
pub ksuid_new-clock :
    {W : Type 0} (platform : Platform W) (buf : List ℕ) (out : Ksuid) (w : W) (t : ℕ)
    (ts : Timespec)
    → (platform.timespec_get w).0 ≡ some ts
    → ts.tv_sec ≡ pos t
    → InEpoch (pos t)
    → IsKsuid out
    → length buf ≡ 16
    → let w1 = (platform.timespec_get w).1 in
      (platform.fill_random buf 16 w1).0 ≡ pos 0
      → (id : Ksuid) × (ksuid_new platform buf out w
          ≡ some (ok, id, (platform.fill_random buf 16 w1).2))
        × IsKsuid id
        × (ksuid_time_unix id ≡ pos t)
        × (ksuid_payload id ≡ (platform.fill_random buf 16 w1).1)
ksuid_new-clock platform buf out w t ts clock sec e k size rc =
    let (id, made, valid, time, rest) =
      ksuid_new_with_time-fresh platform buf out (platform.timespec_get w).1 t e k size rc in
    (
      id,
      clocked platform buf out w ts clock
          ∙ ap (λ s. ksuid_new_with_time platform buf out s (platform.timespec_get w).1) sec
          ∙ made,
      valid,
      time,
      rest,
    )

epoch_or_not : (t : ℤ) → ((n : ℕ) × (t ≡ pos n) × InEpoch (pos n)) ⊎ (¬ InEpoch t)
epoch_or_not (pos n) =
    elim (Bool-cases (ltb n ksuid_epoch_seconds || ltb (ksuid_epoch_seconds + 2 ^ 32 - 1) n)) [
      | inl outside ↦ inr (λ e. ground (arith, outside, e))
      | inr inside ↦ inl (n, refl, ground (arith, inside))
    ]
epoch_or_not (negsuc n) = inr (λ e. ground (arith, e))

pub zero_or_not : (rc : ℤ) → (rc ≡ pos 0) ⊎ (rc ≢ pos 0)
zero_or_not (pos zero) = inl refl
zero_or_not (pos (suc n)) = inr (λ e. ground (arith, e))
zero_or_not (negsuc n) = inr (λ e. ground (arith, e))

-- A 64-bit time so late that the subtraction of the epoch does not overflow.
abbrev pub IsDefined : ℤ → Type 0
IsDefined t = InI64 t × (negsuc (2 ^ 63 - ksuid_epoch_seconds - 1) ≤ℤ t)

module _ {W : Type 0} (platform : Platform W) (buf : List ℕ) (out : Ksuid) (k : IsKsuid out)
    (size : length buf ≡ 16) where
  with_time-IsKsuid :
      (w : W) (t : ℤ)
      → IsDefined t
      → (e : KsuidErr) × (id : Ksuid) × (w' : W) × (ksuid_new_with_time platform buf out t w
          ≡ some (e, id, w'))
        × IsKsuid id
  with_time-IsKsuid w t d = elim (epoch_or_not t) [
    | inr outside ↦ (
      err_time_range,
      out,
      w,
      ksuid_new_with_time-refuses platform buf out w t d.0 d.1 outside,
      k,
    )
    | inl (n, same, e) ↦ elim (zero_or_not (platform.fill_random buf 16 w).0) [
      | inl rc ↦
          let (id, made, valid, _, _) =
            ksuid_new_with_time-fresh platform buf out w n e k size rc in
          (
            ok,
            id,
            (platform.fill_random buf 16 w).2,
            ap (λ t. ksuid_new_with_time platform buf out t w) same ∙ made,
            valid,
          )
      | inr rc ↦ (
        err_rng,
        out,
        (platform.fill_random buf 16 w).2,
        ap (λ t. ksuid_new_with_time platform buf out t w) same
            ∙ ksuid_new_with_time-err_rng platform buf out w n e rc,
        k,
      )
    ]
  ]

  -- Whatever the random source does, and whatever such time the clock gives, or none,
  -- `chronoid_ksuid_new` leaves a valid identifier in `*out`.
  pub ksuid_new-IsKsuid :
      (w : W)
      → ((ts : Timespec) → (platform.timespec_get w).0 ≡ some ts → IsDefined ts.tv_sec)
      → (e : KsuidErr) × (id : Ksuid) × (w' : W) × (ksuid_new platform buf out w ≡ some (e, id, w'))
        × IsKsuid id
  unfolding ksuid_new
  ksuid_new-IsKsuid w d = elim (Option-cases (platform.timespec_get w).0) [
    | inl broken ↦
        (err_time_range, out, (platform.timespec_get w).1, rw (broken, ksuid_new) refl, k)
    | inr (ts, clock) ↦
        let (e, id, w', ran, valid) =
          with_time-IsKsuid (platform.timespec_get w).1 ts.tv_sec (d ts clock) in
        (e, id, w', clocked platform buf out w ts clock ∙ ran, valid)
  ]
