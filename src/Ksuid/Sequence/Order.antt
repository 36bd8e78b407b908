-- ===== src/Ksuid/Sequence/Order.antt =====
-- The identifiers of one sequence against each other and against `chronoid_ksuid_sequence_bounds`.
use libchronoid.Prelude.{
  ℕ, ◌^◌, ◌≤◌, ◌<◌, ◌≡◌, ◌≢◌, sym, ap, ap₂, ◌∙◌, arith, compare, min, lt_or_ge, inl, inr,
}
use libchronoid.Prelude.Int.{pos, negsuc}
use libchronoid.Arch.{Arch}
use libchronoid.Memory.{sign}
use libchronoid.Ksuid.Types.{Ksuid, IsKsuid, ok, err_exhausted}
use libchronoid.Ksuid.Id.{ksuid_compare}
use libchronoid.Ksuid.Id.Ordered.{ksuid_compare-value}
use libchronoid.Ksuid.Sequence.{
  Sequence, ksuid_sequence_init, ksuid_sequence_next, ksuid_sequence_bounds,
}
use libchronoid.Ksuid.Sequence.Bounds.{
  numbered, numbered-IsKsuid, value-numbered, after, ksuid_sequence_bounds-after,
  ksuid_sequence_next-after, ksuid_sequence_next-exhausted,
}

module _ (arch : Arch) (seed : Ksuid) (h : IsKsuid seed) where
  compare-numbered :
      (j k : ℕ)
      → j < 2 ^ 16
      → k < 2 ^ 16
      → ksuid_compare arch (numbered seed j) (numbered seed k) ≡ sign (compare j k)
  compare-numbered j k p q =
      ksuid_compare-value (numbered-IsKsuid seed h j) (numbered-IsKsuid seed h k) arch
      ∙ ground (arith, value-numbered seed h j p, value-numbered seed h k q)

  -- A call that succeeds is one of the first 65536, and emits the identifier of its number.
  emitted :
      (out id : Ksuid) (k : ℕ) (s : Sequence)
      → ksuid_sequence_next (after k out (ksuid_sequence_init seed)) out ≡ (ok, s, id)
      → (k < 2 ^ 16) × (id ≡ numbered seed k)
  emitted out id k s e = elim (lt_or_ge k (2 ^ 16)) [
    | inl lt ↦
        (lt, sym (ap (λ r. r.2) e) ∙ ap (λ r. r.2) (ksuid_sequence_next-after seed out k h lt).0)
    | inr ge ↦ absurd (
        clash (ap (λ r. r.0) (sym e) ∙ ap (λ r. r.0) (ksuid_sequence_next-exhausted seed out k ge)))
  ]
    where
      clash : ok ≢ err_exhausted
      clash e = ground arith

  -- Of two calls of `chronoid_ksuid_sequence_next` that succeed on one sequence over a valid seed,
  -- the later emits the greater identifier, on every build.
  pub ksuid_sequence_next-increasing :
      (out a b : Ksuid) (j k : ℕ) (s t : Sequence)
      → j < k
      → ksuid_sequence_next (after j out (ksuid_sequence_init seed)) out ≡ (ok, s, a)
      → ksuid_sequence_next (after k out (ksuid_sequence_init seed)) out ≡ (ok, t, b)
      → ksuid_compare arch a b ≡ negsuc 0
  ksuid_sequence_next-increasing out a b j k s t lt p q =
      let (below, first) = emitted out a j s p in
      let (below', second) = emitted out b k t q in
      ap₂ (ksuid_compare arch) first second ∙ compare-numbered j k below below' ∙ ground arith

  -- Whatever a sequence over a valid seed still emits after `k` calls lies within the bounds that
  -- `chronoid_ksuid_sequence_bounds` gives then, on every build.
  pub ksuid_sequence_bounds-ksuid_sequence_next :
      (out id : Ksuid) (k j : ℕ) (s : Sequence)
      → k ≤ j
      → ksuid_sequence_next (after j out (ksuid_sequence_init seed)) out ≡ (ok, s, id)
      → let (lo, hi) = ksuid_sequence_bounds (after k out (ksuid_sequence_init seed)) in
        (ksuid_compare arch lo id ≢ pos 1) × (ksuid_compare arch id hi ≢ pos 1)
  ksuid_sequence_bounds-ksuid_sequence_next out id k j s le e =
      let (below, same) = emitted out id j s e in
      rw (ksuid_sequence_bounds-after seed out k h, same)
        (
          λ bad. ground (arith, sym (compare-numbered (min k 65535) j (omega arith) below) ∙ bad),
          λ bad. ground (arith, sym (compare-numbered j 65535 below (omega arith)) ∙ bad),
        )
