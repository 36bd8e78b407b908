-- ===== src/Uuidv7/Batch/Texts.antt =====
-- The whole kernel of chronoid/uuidv7/hex_avx2.c, with its scalar tail, and the dispatcher of
-- chronoid/uuidv7/hex_batch.c.
use libchronoid.Prelude.{
  ℕ, zero, suc, ◌+◌, ◌*◌, ◌/◌, ◌≤◌, ◌≡◌, refl, sym, ap, ap₂, ◌∙◌, List, ◌∷◌, ◌++◌, append_assoc,
  arith, length, length-take, length-drop, All, All-take, All-drop, take, drop, flatten-map-append,
  some, ltb, Bool-cases, inl, inr, take-append-drop, drop-drop, take-append, drop-append,
  take-length,
}
use libchronoid.Arch.{Arch}
use libchronoid.Dispatch.{Host, Kernel}
use libchronoid.Dispatch.Laws.{string_batch-run}
use libchronoid.Uuidv7.Types.{Uuidv7, IsUuidv7}
use libchronoid.Uuidv7.Hex.Encode.{hex_text}
use libchronoid.Uuidv7.Batch.{
  bulk_loop, uuidv7_string_batch_scalar, uuidv7_string_batch_avx2, uuidv7_string_batch,
}
use libchronoid.Uuidv7.Batch.Kernels.{
  texts, length-texts, group-texts, uuidv7_string_batch_scalar-texts,
}

bulk_loop-texts :
    (groups : ℕ) (hex : List ℕ) (ids : List Uuidv7) (out : List ℕ)
    → length hex ≡ 128
    → All IsUuidv7 ids
    → groups * 4 ≤ length ids
    → groups * 144 ≤ length out
    → bulk_loop groups hex ids out ≡ texts (take (groups * 4) ids) ++ drop (groups * 144) out
unfolding bulk_loop
bulk_loop-texts zero hex ids out hex_size h le size =
    ap (λ j. drop j out) {x = 0} {y = 0 * 144} (omega arith)
    ∙ ap (λ i. texts (take i ids) ++ drop (0 * 144) out) {x = 0} {y = 0 * 4} (omega arith)
bulk_loop-texts (suc groups) hex (a ∷ b ∷ c ∷ d ∷ ids) out hex_size h le size =
    group-texts hex out a b c d (bulk_loop groups hex ids (drop 144 out)) hex_size
      (omega (arith, size)) (h.0, (h.1.0, (h.1.1.0, (h.1.1.1.0, tt))))
    ∙ ap four (
        bulk_loop-texts groups hex ids (drop 144 out) hex_size h.1.1.1.1 (omega arith)
          (omega (arith, length-drop 144 out))
        ∙ ap (λ t. texts (take (groups * 4) ids) ++ t)
            (drop-drop (groups * 144) 144 out
              ∙ ap (λ k. drop k out) {x = 144 + groups * 144} {y = suc groups * 144} (omega arith)))
    ∙ joined (texts (take (groups * 4) ids)) (drop (suc groups * 144) out)
    ∙ ap (λ k. texts (take k (a ∷ b ∷ c ∷ d ∷ ids)) ++ drop (suc groups * 144) out)
        {x = suc (suc (suc (suc (groups * 4))))} {y = suc groups * 4} (omega arith)
  where
    four : List ℕ → List ℕ
    four t = hex_text a.b ++ (hex_text b.b ++ (hex_text c.b ++ (hex_text d.b ++ t)))

    joined : (t u : List ℕ) → four (t ++ u) ≡ four t ++ u
    joined t u = sym (
        append_assoc (hex_text a.b) (hex_text b.b ++ (hex_text c.b ++ (hex_text d.b ++ t))) u
        ∙ ap (λ s. hex_text a.b ++ s)
            (append_assoc (hex_text b.b) (hex_text c.b ++ (hex_text d.b ++ t)) u
              ∙ ap (λ s. hex_text b.b ++ s)
                  (append_assoc (hex_text c.b) (hex_text d.b ++ t) u
                    ∙ ap (λ s. hex_text c.b ++ s) (append_assoc (hex_text d.b) t u))))
bulk_loop-texts (suc groups) hex ids out hex_size h le size = absurd (omega arith)

-- `out`, whose first part the bulk loop has written and the tail loop leaves alone.
abbrev IsBulk : List Uuidv7 → ℕ → List ℕ → List ℕ → Type 0
IsBulk ids bulk out o = o ≡ texts (take bulk ids) ++ drop (36 * bulk) out

tail-texts :
    (arch : Arch) (ids : List Uuidv7) (bulk : ℕ) (out o : List ℕ)
    → All IsUuidv7 ids
    → bulk ≤ length ids
    → 36 * length ids ≤ length out
    → IsBulk ids bulk out o
    → take (bulk * 36) o ++ uuidv7_string_batch_scalar arch (drop bulk ids) (drop (bulk * 36) o)
      ≡ texts ids ++ drop (36 * length ids) out
tail-texts arch ids bulk out o h le size e =
    ap
      (λ o.
        take (bulk * 36) o ++ uuidv7_string_batch_scalar arch (drop bulk ids) (drop (bulk * 36) o))
      e
    ∙ ap₂ (λ s t. s ++ uuidv7_string_batch_scalar arch (drop bulk ids) t)
        (take-append (texts (take bulk ids)) (drop (36 * bulk) out) (bulk * 36) written)
        (drop-append (texts (take bulk ids)) (drop (36 * bulk) out) (bulk * 36) written)
    ∙ ap (λ t. texts (take bulk ids) ++ t)
        (uuidv7_string_batch_scalar-texts arch (drop bulk ids) (drop (36 * bulk) out)
          (All-drop IsUuidv7 bulk ids h)
          (omega (arith, length-drop bulk ids, length-drop (36 * bulk) out)))
    ∙ sym (
        append_assoc (texts (take bulk ids)) (texts (drop bulk ids))
          (drop (36 * length (drop bulk ids)) (drop (36 * bulk) out)))
    ∙ ap₂ ◌++◌
        (sym (flatten-map-append (λ id. hex_text id.b) (take bulk ids) (drop bulk ids))
          ∙ ap texts (take-append-drop bulk ids))
        (drop-drop (36 * length (drop bulk ids)) (36 * bulk) out
          ∙ ap (λ k. drop k out) {x = 36 * bulk + 36 * length (drop bulk ids)} {y = 36 * length ids}
              (omega (arith, length-drop bulk ids)))
  where
    written : length (texts (take bulk ids)) ≡ bulk * 36
    written =
        omega
          (arith, length-texts (take bulk ids) (All-take IsUuidv7 bulk ids h), length-take bulk ids)

module _ (arch : Arch) (hex : List ℕ) (ids : List Uuidv7) (out : List ℕ)
    (hex_size : length hex ≡ 128) (h : All IsUuidv7 ids) (size : 36 * length ids ≤ length out) where
  bulk_loop-IsBulk : IsBulk ids (length ids / 4 * 4) out (bulk_loop (length ids / 4) hex ids out)
  bulk_loop-IsBulk =
      bulk_loop-texts (length ids / 4) hex ids out hex_size h (omega arith) (omega (arith, size))
      ∙ ap (λ k. texts (take (length ids / 4 * 4) ids) ++ drop k out) {x = length ids / 4 * 144}
          {y = 36 * (length ids / 4 * 4)} (omega arith)

  uuidv7_string_batch_avx2-texts :
      uuidv7_string_batch_avx2 arch hex ids out ≡ texts ids ++ drop (36 * length ids) out
  unfolding uuidv7_string_batch_avx2
  uuidv7_string_batch_avx2-texts = elim (Bool-cases (ltb (length ids / 4 * 4) (length ids))) [
    | inl more ↦
        rw more
          (tail-texts arch ids (length ids / 4 * 4) out _ h (omega arith) size bulk_loop-IsBulk)
    | inr all ↦ rw all (
        bulk_loop-IsBulk
        ∙ ap (λ k. texts (take k ids) ++ drop (36 * k) out) {x = length ids / 4 * 4}
            {y = length ids} (ground (arith, all))
        ∙ ap (λ t. texts t ++ drop (36 * length ids) out) (take-length ids (length ids) refl))
  ]

  -- Whatever kernel the pointer of the dispatcher holds and whatever the surroundings,
  -- `chronoid_uuidv7_string_batch` writes for valid identifiers, into an output with room for them,
  -- the 36-byte text of each in turn, and leaves the rest of the output alone; the kernel's buffer
  -- of 128 bytes may hold anything.
  pub uuidv7_string_batch-texts :
      (host : Host) (impl : Kernel)
      → (uuidv7_string_batch arch hex host impl ids out).0
        ≡ some (texts ids ++ drop (36 * length ids) out)
  unfolding uuidv7_string_batch uuidv7_string_batch_scalar
  uuidv7_string_batch-texts host impl =
      string_batch-run (λ ids out. some (uuidv7_string_batch_scalar arch ids out))
        (λ ids out. some (uuidv7_string_batch_avx2 arch hex ids out)) host impl ids out refl
        (ap some (uuidv7_string_batch_scalar-texts arch ids out h size))
        (ap some uuidv7_string_batch_avx2-texts)
