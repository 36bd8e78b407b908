-- ===== src/Ksuid/Sequence/Bounds.antt =====
-- The run of `chronoid_ksuid_sequence_next` from one seed, and `chronoid_ksuid_sequence_bounds`.
use libchronoid.Prelude.{
  ℕ, zero, suc, ◌+◌, ◌*◌, ◌^◌, ◌≤◌, ◌<◌, ◌≡◌, refl, sym, ap, ap₂, ◌∙◌, List, [], ◌∷◌, ◌++◌, arith,
  length, take, drop, set, min, take-append, drop-append, u8, ◌>>◌, length-append, length-take,
  AllBelow-take, AllBelow-append,
}
use libchronoid.Digits.{
  value, value_from-append, digits, length-digits, digits-AllBelow, value-digits,
}
use libchronoid.Ksuid.Types.{Ksuid, IsKsuid, ok, err_exhausted}
use libchronoid.Ksuid.Sequence.{
  Sequence, apply_count, ksuid_sequence_init, ksuid_sequence_next, ksuid_sequence_bounds,
}

-- Two bytes written at an offset replace what stands there up to the end.
set-set_end :
    (xs : List ℕ) (n a b : ℕ)
    → length xs ≡ n + 2
    → set (set xs n a) (suc n) b ≡ take n xs ++ (a ∷ b ∷ [])
set-set_end [] n a b h = absurd (omega arith)
set-set_end (x ∷ []) zero a b h = absurd (omega arith)
set-set_end (x ∷ y ∷ []) zero a b h = refl
set-set_end (x ∷ y ∷ z ∷ xs) zero a b h = absurd (omega arith)
set-set_end (x ∷ xs) (suc n) a b h = ap (λ t. x ∷ t) (set-set_end xs n a b (omega arith))

two_bytes : (n : ℕ) → n < 2 ^ 16 → (u8 (n >> 8) ∷ u8 n ∷ []) ≡ digits 256 2 n
unfolding digits
two_bytes n h = refl

-- The identifier with the number `n` of a seed.
abbrev pub numbered : Ksuid → ℕ → Ksuid
numbered seed n = record { b = take 18 seed.b ++ digits 256 2 n }

module _ (seed : Ksuid) (h : IsKsuid seed) (n : ℕ) where
  pub apply_count-numbered : n < 2 ^ 16 → apply_count seed n ≡ numbered seed n
  unfolding apply_count
  apply_count-numbered lt =
      ap (λ b. record { b = b })
        (set-set_end seed.b 18 (u8 (n >> 8)) (u8 n) h.size
          ∙ ap (λ t. take 18 seed.b ++ t) (two_bytes n lt))

  pub numbered-IsKsuid : IsKsuid (numbered seed n)
  numbered-IsKsuid = record {
    size = omega (
      arith,
      length-append (take 18 seed.b) (digits 256 2 n),
      length-take 18 seed.b,
      length-digits 256 2 n,
      h.size,
    );
    bytes =
        AllBelow-append 256 (take 18 seed.b) (digits 256 2 n) (AllBelow-take 256 18 seed.b h.bytes)
          (digits-AllBelow 256 2 n (omega arith));
  }

  pub value-numbered :
      n < 2 ^ 16 → value 256 (numbered seed n).b ≡ value 256 (take 18 seed.b) * 2 ^ 16 + n
  unfolding digits
  value-numbered lt = value_from-append 256 0 (take 18 seed.b) (digits 256 2 n) ∙ omega arith

-- The sequence after `k` calls of `chronoid_ksuid_sequence_next`.
unfoldable pub after : ℕ → Ksuid → Sequence → Sequence
after zero out s = s
after (suc k) out s = (ksuid_sequence_next (after k out s) out).1

pub after-count :
    (seed out : Ksuid) (k : ℕ)
    → after k out (ksuid_sequence_init seed) ≡ record { seed = seed; count = min k (2 ^ 16) }
unfolding after ksuid_sequence_init ksuid_sequence_next
after-count seed out zero = refl
after-count seed out (suc k) =
    ap (λ s. (ksuid_sequence_next s out).1) (after-count seed out k) ∙ ground arith

-- On a sequence over a valid seed, each of the first 65536 calls of `chronoid_ksuid_sequence_next`
-- succeeds, and call number `k`, from 0, emits a valid identifier with the first 18 bytes of the
-- seed and with `k` as its last two bytes, big-endian.
pub ksuid_sequence_next-after :
    (seed out : Ksuid) (k : ℕ)
    → IsKsuid seed
    → k < 2 ^ 16
    → let s = after k out (ksuid_sequence_init seed) in
      let id = numbered seed k in
      (ksuid_sequence_next s out ≡ (ok, after (suc k) out (ksuid_sequence_init seed), id))
      × IsKsuid id
      × (take 18 id.b ≡ take 18 seed.b)
      × (value 256 (drop 18 id.b) ≡ k)
unfolding ksuid_sequence_next
ksuid_sequence_next-after seed out k h lt = (
  rw (after-count seed out k, after-count seed out (suc k))
      (ground (arith, apply_count-numbered seed h k)),
  numbered-IsKsuid seed h k,
  take-append (take 18 seed.b) (digits 256 2 k) 18 (omega (arith, length-take 18 seed.b, h.size)),
  ap (value 256) (
        drop-append (take 18 seed.b) (digits 256 2 k) 18
          (omega (arith, length-take 18 seed.b, h.size)))
      ∙ value-digits 256 2 k (omega arith) lt,
)

-- Every call of `chronoid_ksuid_sequence_next` after the first 65536 on one sequence fails as
-- ERR_EXHAUSTED, with the sequence and `*out` untouched.
pub ksuid_sequence_next-exhausted :
    (seed out : Ksuid) (k : ℕ)
    → 2 ^ 16 ≤ k
    → let s = after k out (ksuid_sequence_init seed) in
      ksuid_sequence_next s out ≡ (err_exhausted, s, out)
unfolding ksuid_sequence_next
ksuid_sequence_next-exhausted seed out k le = rw (after-count seed out k) (ground arith)

pub ksuid_sequence_bounds-after :
    (seed out : Ksuid) (k : ℕ)
    → IsKsuid seed
    → ksuid_sequence_bounds (after k out (ksuid_sequence_init seed))
      ≡ (numbered seed (min k 65535), numbered seed 65535)
unfolding ksuid_sequence_bounds
ksuid_sequence_bounds-after seed out k h = rw (after-count seed out k) (
    ground (
      arith,
      apply_count-numbered seed h (min k 65535),
      apply_count-numbered seed h 65535 (omega arith),
    ))

-- While fewer than 65536 calls were made on a sequence over a valid seed, the lower bound of
-- `chronoid_ksuid_sequence_bounds` is the identifier that it emits next, and the upper bound is the
-- one that it emits last.
pub ksuid_sequence_bounds-tight :
    (seed out : Ksuid) (k : ℕ)
    → IsKsuid seed
    → k < 2 ^ 16
    → ksuid_sequence_bounds (after k out (ksuid_sequence_init seed)) ≡ (
      (ksuid_sequence_next (after k out (ksuid_sequence_init seed)) out).2,
      (ksuid_sequence_next (after 65535 out (ksuid_sequence_init seed)) out).2,
    )
ksuid_sequence_bounds-tight seed out k h lt =
    ksuid_sequence_bounds-after seed out k h
    ∙ ap₂ (λ x y. (x, y))
        (ap (numbered seed) {x = min k 65535} (omega arith)
          ∙ sym (ap (λ r. r.2) (ksuid_sequence_next-after seed out k h lt).0))
        (sym (ap (λ r. r.2) (ksuid_sequence_next-after seed out 65535 h (omega arith)).0))
