-- ===== src/Uuidv7/Sequence/Bounds.antt =====
-- `chronoid_uuidv7_sequence_bounds`.
use libchronoid.Prelude.{
  ℕ, ◌+◌, ◌-◌, ◌%◌, ◌^◌, ◌<◌, ◌≡◌, ◌≢◌, refl, sym, ap, ap₂, ◌∙◌, subst, List, arith, length,
  replicate, IsArray, min,
}
use libchronoid.Prelude.Int.{pos, pos_eq}
use libchronoid.Digits.{value}
use libchronoid.Platform.{Platform}
use libchronoid.Uuidv7.Types.{Uuidv7, IsUuidv7, ok}
use libchronoid.Uuidv7.Id.{uuidv7_compare, uuidv7_unix_ms}
use libchronoid.Uuidv7.Id.Parts.{uuid_of}
use libchronoid.Uuidv7.Id.Fields.{HasFields, uuid_of-HasFields}
use libchronoid.Uuidv7.Id.Ordered.{uuidv7_compare-value}
use libchronoid.Uuidv7.Sequence.{
  Sequence, uuidv7_sequence_emit, uuidv7_sequence_next, uuidv7_sequence_bounds,
}
use libchronoid.Uuidv7.Sequence.Draw.{uuidv7_sequence_emit-uuid_of}
use libchronoid.Uuidv7.Sequence.Step.{IsSequence}
use libchronoid.Uuidv7.Sequence.Monotone.{uuidv7_sequence_next-step}
use libchronoid.Uuidv7.Sequence.Run.{Run, Run-IsSequence}

-- The emission of a state, with its fields.
emit-HasFields :
    (out : Uuidv7) (ms c : ℕ) (rand_b : List ℕ)
    → IsUuidv7 out
    → ms < 2 ^ 48
    → IsArray 8 rand_b
    → c < 2 ^ 12
    → HasFields (uuidv7_sequence_emit out (pos ms) c rand_b) ms c (value 256 rand_b % 2 ^ 62)
emit-HasFields out ms c rand_b k le h lt =
    subst (λ id. HasFields id ms c (value 256 rand_b % 2 ^ 62))
      (sym (uuidv7_sequence_emit-uuid_of out ms c rand_b k le))
      (subst (λ d. HasFields (uuid_of ms c rand_b) ms d (value 256 rand_b % 2 ^ 62)) (omega arith)
        (uuid_of-HasFields ms c rand_b h le))

module _ (s : Sequence) (min_out max_out : Uuidv7) (h : IsSequence s) (k : IsUuidv7 min_out)
    (k' : IsUuidv7 max_out) where
  -- `chronoid_uuidv7_sequence_bounds` gives, for a valid sequence, the identifiers of its time with
  -- the next counter, at most 4095, before random bits that are all 0, and with the counter 4095
  -- before random bits that are all 1.
  pub uuidv7_sequence_bounds-HasFields :
      HasFields (uuidv7_sequence_bounds s min_out max_out).0 h.ms (min (s.counter + 1) 4095) 0
      × HasFields (uuidv7_sequence_bounds s min_out max_out).1 h.ms 4095 (2 ^ 62 - 1)
  unfolding uuidv7_sequence_bounds
  uuidv7_sequence_bounds-HasFields = (
    subst (λ id. HasFields id h.ms (min (s.counter + 1) 4095) 0)
        (sym (
          ap₂ (λ t c. uuidv7_sequence_emit min_out t c (replicate 8 0)) h.time
            (ground (arith, h.counted))))
        (emit-HasFields min_out h.ms (min (s.counter + 1) 4095) (replicate 8 0) k h.range
          (constant 0 (omega arith)) (omega arith)),
    subst (λ id. HasFields id h.ms 4095 (2 ^ 62 - 1))
        (sym (ap (λ t. uuidv7_sequence_emit max_out t 4095 (replicate 8 0xff)) h.time))
        (emit-HasFields max_out h.ms 4095 (replicate 8 0xff) k' h.range
          (constant 0xff (omega arith)) (omega arith)),
  )
    where
      constant : (c : ℕ) → c < 256 → IsArray 8 (replicate 8 c)
      constant c lt = record {
        size = refl;
        bytes = (lt, (lt, (lt, (lt, (lt, (lt, (lt, (lt, tt))))))));
      }

  -- Whatever a valid sequence emits, after any run of calls, at the time that it has now lies
  -- within the bounds that `chronoid_uuidv7_sequence_bounds` gives now.
  pub uuidv7_sequence_bounds-uuidv7_sequence_next :
      {W : Type 0} (platform : Platform W) (two tail : List ℕ) (counter : ℕ) (t : Sequence)
      (out : Uuidv7) (w : W)
      → length tail ≡ 8
      → Run platform two tail counter s t
      → IsUuidv7 out
      → (uuidv7_sequence_next platform two tail counter t out w).0 ≡ ok
      → uuidv7_unix_ms (uuidv7_sequence_next platform two tail counter t out w).2 ≡ s.last_ms
      → let (lo, hi) = uuidv7_sequence_bounds s min_out max_out in
        let id = (uuidv7_sequence_next platform two tail counter t out w).2 in
        (uuidv7_compare lo id ≢ pos 1) × (uuidv7_compare id hi ≢ pos 1)
  uuidv7_sequence_bounds-uuidv7_sequence_next platform two tail counter t out w size run o e same =
      let (lo, hi) = uuidv7_sequence_bounds-HasFields in
      let (h1, le) = Run-IsSequence platform two tail counter size h run in
      let (h2, _, lt, id) =
        uuidv7_sequence_next-step platform two tail counter size t out w h1 o e in
      let at : h2.ms ≡ h.ms = pos_eq (sym id.2 ∙ same ∙ h.time) in
      (
        λ bad.
            ground (
              arith,
              sym (uuidv7_compare-value lo.0 id.0) ∙ bad,
              lo.1,
              id.1,
              le,
              lt,
              at,
              h2.counted,
            ),
        λ bad.
            ground (arith, sym (uuidv7_compare-value id.0 hi.0) ∙ bad, hi.1, id.1, at, h2.counted),
      )
