-- ===== src/Ksuid/Batch/Kernels.antt =====
-- The bulk loop of chronoid/ksuid/encode_avx2.c with its scalar tail, against the scalar loop.
use libchronoid.Prelude.{
  ℕ, zero, suc, ◌+◌, ◌*◌, ◌/◌, ◌≤◌, ◌≡◌, refl, sym, ap, ap₂, ◌∙◌, List, [], ◌∷◌, ◌++◌, append_assoc,
  arith, length, length-take, length-drop, All, All-take, All-drop, flatten-map-append, take, drop,
  some, ◌>>=◌, ltb, Bool-cases, inl, inr, take-append-drop, drop-drop, take-append, drop-append,
  take-length,
}
use libchronoid.Dispatch.{Host, Kernel}
use libchronoid.Dispatch.Laws.{string_batch-run}
use libchronoid.Ksuid.Types.{Ksuid, IsKsuid}
use libchronoid.Ksuid.Batch.{
  bulk_loop, ksuid_string_batch_avx2, ksuid_string_batch_scalar, ksuid_string_batch,
}
use libchronoid.Ksuid.Batch.Agree.{
  mag, text, texts, length-texts, ksuid_string_batch_scalar-texts, group-texts,
}

bulk_loop-texts :
    (groups : ℕ) (ids : List Ksuid) (out : List ℕ)
    → All IsKsuid ids
    → groups * 8 ≤ length ids
    → groups * 216 ≤ length out
    → bulk_loop groups mag ids out ≡ texts (take (groups * 8) ids) ++ drop (groups * 216) out
unfolding bulk_loop
bulk_loop-texts zero ids out h le size =
    ap (λ j. drop j out) {x = 0} {y = 0 * 216} (omega arith)
    ∙ ap (λ i. texts (take i ids) ++ drop (0 * 216) out) {x = 0} {y = 0 * 8} (omega arith)
bulk_loop-texts (suc groups) (a ∷ b ∷ c ∷ d ∷ e ∷ f ∷ g ∷ i ∷ ids) out h le size =
    ap (λ o. take 216 o ++ bulk_loop groups mag ids (drop 216 o))
      (group-texts a b c d e f g i out (All-take IsKsuid 8 (eight ++ ids) h) (omega (arith, size)))
    ∙ ap₂ (λ s t. s ++ bulk_loop groups mag ids t)
        (take-append (texts eight) (drop 216 out) 216 (length-texts eight))
        (drop-append (texts eight) (drop 216 out) 216 (length-texts eight))
    ∙ ap (λ t. texts eight ++ t)
        (bulk_loop-texts groups ids (drop 216 out) (All-drop IsKsuid 8 (eight ++ ids) h)
          (omega arith) (omega (arith, length-drop 216 out)))
    ∙ sym (
        append_assoc (texts eight) (texts (take (groups * 8) ids))
          (drop (groups * 216) (drop 216 out)))
    ∙ ap₂ ◌++◌
        (sym (flatten-map-append text eight (take (groups * 8) ids))
          ∙ ap (λ k. texts (take k (eight ++ ids)))
              {x = suc (suc (suc (suc (suc (suc (suc (suc (groups * 8))))))))} {y = suc groups * 8}
              (omega arith))
        (drop-drop (groups * 216) 216 out
          ∙ ap (λ k. drop k out) {x = 216 + groups * 216} {y = suc groups * 216} (omega arith))
  where
    eight : List Ksuid
    eight = a ∷ b ∷ c ∷ d ∷ e ∷ f ∷ g ∷ i ∷ []
bulk_loop-texts (suc groups) ids out h le size = absurd (omega arith)

-- `out`, whose first part the bulk loop has written and the tail loop leaves alone.
abbrev IsBulk : List Ksuid → ℕ → List ℕ → List ℕ → Type 0
IsBulk ids bulk out o = o ≡ texts (take bulk ids) ++ drop (27 * bulk) out

tail-texts :
    (ids : List Ksuid) (bulk : ℕ) (out o : List ℕ)
    → All IsKsuid ids
    → bulk ≤ length ids
    → 27 * length ids ≤ length out
    → IsBulk ids bulk out o
    → (ksuid_string_batch_scalar (drop bulk ids) (drop (bulk * 27) o)
        >>= (λ rest. some (take (bulk * 27) o ++ rest)))
      ≡ some (texts ids ++ drop (27 * length ids) out)
tail-texts ids bulk out o h le size e =
    ap
      (λ o.
        ksuid_string_batch_scalar (drop bulk ids) (drop (bulk * 27) o)
        >>= (λ rest. some (take (bulk * 27) o ++ rest)))
      e
    ∙ ap₂ (λ s t. ksuid_string_batch_scalar (drop bulk ids) t >>= (λ rest. some (s ++ rest)))
        (take-append (texts (take bulk ids)) (drop (27 * bulk) out) (bulk * 27) written)
        (drop-append (texts (take bulk ids)) (drop (27 * bulk) out) (bulk * 27) written)
    ∙ ap (λ r. r >>= (λ rest. some (texts (take bulk ids) ++ rest)))
        (ksuid_string_batch_scalar-texts (drop bulk ids) (drop (27 * bulk) out)
          (All-drop IsKsuid bulk ids h)
          (omega (arith, length-drop bulk ids, length-drop (27 * bulk) out)))
    ∙ ap some (
        sym (
          append_assoc (texts (take bulk ids)) (texts (drop bulk ids))
            (drop (27 * length (drop bulk ids)) (drop (27 * bulk) out)))
        ∙ ap₂ ◌++◌
            (sym (flatten-map-append text (take bulk ids) (drop bulk ids))
              ∙ ap texts (take-append-drop bulk ids))
            (drop-drop (27 * length (drop bulk ids)) (27 * bulk) out
              ∙ ap (λ k. drop k out) {x = 27 * bulk + 27 * length (drop bulk ids)}
                  {y = 27 * length ids} (omega (arith, length-drop bulk ids))))
  where
    written : length (texts (take bulk ids)) ≡ bulk * 27
    written = omega (arith, length-texts (take bulk ids), length-take bulk ids)

bulk_loop-IsBulk :
    (ids : List Ksuid) (out : List ℕ)
    → All IsKsuid ids
    → 27 * length ids ≤ length out
    → IsBulk ids (length ids / 8 * 8) out (bulk_loop (length ids / 8) mag ids out)
bulk_loop-IsBulk ids out h size =
    bulk_loop-texts (length ids / 8) ids out h (omega arith) (omega (arith, size))
    ∙ ap (λ k. texts (take (length ids / 8 * 8) ids) ++ drop k out) {x = length ids / 8 * 216}
        {y = 27 * (length ids / 8 * 8)} (omega arith)

pub ksuid_string_batch_avx2-texts :
    (ids : List Ksuid) (out : List ℕ)
    → All IsKsuid ids
    → 27 * length ids ≤ length out
    → ksuid_string_batch_avx2 ids out ≡ some (texts ids ++ drop (27 * length ids) out)
unfolding ksuid_string_batch_avx2
ksuid_string_batch_avx2-texts ids out h size =
    elim (Bool-cases (ltb (length ids / 8 * 8) (length ids))) [
      | inl more ↦ rw more (
          tail-texts ids (length ids / 8 * 8) out _ h (omega arith) size
            (bulk_loop-IsBulk ids out h size))
      | inr all ↦ rw all (
          ap some (
            bulk_loop-IsBulk ids out h size
            ∙ ap (λ k. texts (take k ids) ++ drop (27 * k) out) {x = length ids / 8 * 8}
                {y = length ids} (ground (arith, all))
            ∙ ap (λ t. texts t ++ drop (27 * length ids) out) (take-length ids (length ids) refl)))
    ]

-- For valid identifiers and an output with room for their texts, the AVX2 kernel, which encodes
-- eight identifiers side by side and leaves what is over to the scalar loop, writes exactly what
-- the scalar loop writes.
pub ksuid_string_batch_avx2-ksuid_string_batch_scalar :
    (ids : List Ksuid) (out : List ℕ)
    → All IsKsuid ids
    → 27 * length ids ≤ length out
    → (s : List ℕ) × (ksuid_string_batch_avx2 ids out ≡ some s)
      × (ksuid_string_batch_scalar ids out ≡ some s)
ksuid_string_batch_avx2-ksuid_string_batch_scalar ids out h size = (
  texts ids ++ drop (27 * length ids) out,
  ksuid_string_batch_avx2-texts ids out h size,
  ksuid_string_batch_scalar-texts ids out h size,
)

-- Whatever kernel the pointer of the dispatcher holds and whatever the surroundings,
-- `chronoid_ksuid_string_batch` writes for valid identifiers, into an output with room for them,
-- the 27 base62 digits of each number in turn, and leaves the rest of the output alone.
pub ksuid_string_batch-texts :
    (host : Host) (impl : Kernel) (ids : List Ksuid) (out : List ℕ)
    → All IsKsuid ids
    → 27 * length ids ≤ length out
    → (ksuid_string_batch host impl ids out).0 ≡ some (texts ids ++ drop (27 * length ids) out)
unfolding ksuid_string_batch ksuid_string_batch_scalar
ksuid_string_batch-texts host impl ids out h size =
    string_batch-run ksuid_string_batch_scalar ksuid_string_batch_avx2 host impl ids out refl
      (ksuid_string_batch_scalar-texts ids out h size)
      (ksuid_string_batch_avx2-texts ids out h size)
