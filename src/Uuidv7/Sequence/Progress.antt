-- ===== src/Uuidv7/Sequence/Progress.antt =====
-- When `chronoid_uuidv7_sequence_next` succeeds.
use libchronoid.Prelude.{
  ℕ, ◌+◌, ◌^◌, ◌≤◌, ◌<◌, ◌≡◌, ◌⊎◌, inl, inr, sym, ap, ◌∙◌, subst, List, arith, length, lt_or_ge,
}
use libchronoid.Prelude.Int.{pos, negsuc}
use libchronoid.Platform.{Platform}
use libchronoid.Uuidv7.Types.{Uuidv7, IsUuidv7, Uuidv7Err, ok, err_time_range, max_unix_ms}
use libchronoid.Uuidv7.Id.{uuidv7_unix_ms}
use libchronoid.Uuidv7.Sequence.{
  Sequence, counter_mask, advance, effective, uuidv7_sequence_init, uuidv7_sequence_next,
}
use libchronoid.Uuidv7.Sequence.Draw.{redraw-draws}
use libchronoid.Uuidv7.Sequence.Step.{
  IsSequence, clamp, effective-clamp, advance-tick, advance-count, advance-roll, advance-end,
}
use libchronoid.Uuidv7.Sequence.Monotone.{
  next_made, uuidv7_sequence_next-step, uuidv7_sequence_init-IsSequence,
}

module _ {W : Type 0} (platform : Platform W) (two tail : List ℕ) (counter : ℕ)
    (size : length tail ≡ 8) where
  advance-progress :
      (s : Sequence) (n : ℕ) (w : W) (h : IsSequence s)
      → ((buf : List ℕ) (n : ℕ) (w : W) → (platform.fill_random buf n w).0 ≡ pos 0)
      → h.ms ≤ n
      → n < 2 ^ 48
      → (h.ms < max_unix_ms) ⊎ (s.counter < counter_mask)
      → (advance platform two tail counter s (pos n) w).0 ≡ ok
  advance-progress s n w h source ge le room = elim (lt_or_ge h.ms n) [
    | inl lt ↦
        code (advance-tick platform two tail counter size s n w h le lt)
        ∙ redraw-draws platform two tail counter size source s (pos n) w
    | inr same ↦ elim (lt_or_ge s.counter counter_mask) [
      | inl lt ↦ code (advance-count platform two tail counter size s n w h le same lt)
      | inr full ↦
          code (
            advance-roll platform two tail counter size s n w h le same (omega (arith, h.counted))
              (elim room [ inl lt ↦ lt | inr lt ↦ absurd (omega (arith, lt)) ]))
          ∙ redraw-draws platform two tail counter size source s (pos (h.ms + 1)) w
    ]
  ]
    where
      code : {r r' : Uuidv7Err × Sequence × W} → r ≡ r' → r.0 ≡ r'.0
      code e = ap (λ (r : Uuidv7Err × Sequence × W). r.0) e

  module _ (s : Sequence) (out : Uuidv7) (w : W) (h : IsSequence s) where
    abbrev n : ℕ
    n = clamp h.ms (platform.now_ms w).0

    clamped : (effective s (platform.now_ms w).0 ≡ pos n) × (h.ms ≤ n) × (n < 2 ^ 48)
    clamped = effective-clamp s (platform.now_ms w).0 h

    next_succeeds :
        (advance platform two tail counter s (pos n) (platform.now_ms w).1).0 ≡ ok
        → (uuidv7_sequence_next platform two tail counter s out w).0 ≡ ok
    next_succeeds e =
        ap (λ (r : Uuidv7Err × Sequence × Uuidv7 × W). r.0)
          (next_made platform two tail counter size s out w (
            subst (λ t. (advance platform two tail counter s t (platform.now_ms w).1).0 ≡ ok)
              (sym clamped.0) e))

    -- On a valid sequence whose time is not the greatest or whose counter is not full, with a
    -- random source that always returns 0, `chronoid_uuidv7_sequence_next` succeeds, whatever the
    -- clock returns.
    pub uuidv7_sequence_next-progress :
        ((buf : List ℕ) (n : ℕ) (w : W) → (platform.fill_random buf n w).0 ≡ pos 0)
        → (h.ms < max_unix_ms) ⊎ (s.counter < counter_mask)
        → (uuidv7_sequence_next platform two tail counter s out w).0 ≡ ok
    uuidv7_sequence_next-progress source room =
        next_succeeds (advance-progress s n (platform.now_ms w).1 h source clamped.1 clamped.2 room)

    -- On a valid sequence at the greatest time with a full counter, every call of
    -- `chronoid_uuidv7_sequence_next` fails as ERR_TIME_RANGE, whatever the clock returns.
    pub uuidv7_sequence_next-end :
        h.ms ≡ max_unix_ms
        → s.counter ≡ counter_mask
        → uuidv7_sequence_next platform two tail counter s out w
          ≡ (err_time_range, s, out, (platform.now_ms w).1)
    unfolding uuidv7_sequence_next
    uuidv7_sequence_next-end last full =
        rw (ap (λ (r : Uuidv7Err × Sequence × W). r.0) stopped, uuidv7_sequence_next)
          (ap (λ (r : Uuidv7Err × Sequence × W). (err_time_range, r.1, out, r.2)) stopped)
      where
        stopped :
            advance platform two tail counter s
              (effective s (platform.now_ms w).0)
              (platform.now_ms w).1
            ≡ (err_time_range, s, (platform.now_ms w).1)
        stopped =
            ap (λ t. advance platform two tail counter s t (platform.now_ms w).1) clamped.0
            ∙ advance-end platform two tail counter size s n (platform.now_ms w).1 h clamped.2
                (omega (arith, clamped.2)) full last

    -- On a valid sequence with a counter below 4095, `chronoid_uuidv7_sequence_next` succeeds
    -- although the clock fails, with an identifier of the last time.
    uuidv7_sequence_next-clock_failure :
        IsUuidv7 out
        → s.counter < counter_mask
        → (v : ℕ) → (platform.now_ms w).0 ≡ negsuc v
        → ((uuidv7_sequence_next platform two tail counter s out w).0 ≡ ok)
          × (uuidv7_unix_ms (uuidv7_sequence_next platform two tail counter s out w).2 ≡ s.last_ms)
    uuidv7_sequence_next-clock_failure k room v failed = (went, time)
      where
        same : n ≡ h.ms
        same = ap (clamp h.ms) failed

        went : (uuidv7_sequence_next platform two tail counter s out w).0 ≡ ok
        went = next_succeeds (
            ap (λ (r : Uuidv7Err × Sequence × W). r.0)
              (advance-count platform two tail counter size s n (platform.now_ms w).1 h clamped.2
                (omega (arith, same)) room))

        time : uuidv7_unix_ms (uuidv7_sequence_next platform two tail counter s out w).2 ≡ s.last_ms
        time =
            let (h', at, _, fields) =
              uuidv7_sequence_next-step platform two tail counter size s out w h k went in
            fields.2 ∙ ap pos (at ∙ ground (arith, same)) ∙ sym h.time

  -- On a sequence fresh from a call of `chronoid_uuidv7_sequence_init` that has succeeded, with a
  -- counter below 4095, `chronoid_uuidv7_sequence_next` succeeds although the clock fails, with an
  -- identifier of the time 0.
  pub uuidv7_sequence_init-clock_failure :
      (s : Sequence) (out : Uuidv7) (w0 w : W)
      → (uuidv7_sequence_init platform two tail counter s w0).0 ≡ ok
      → IsUuidv7 out
      → (uuidv7_sequence_init platform two tail counter s w0).1.counter < counter_mask
      → (v : ℕ) → (platform.now_ms w).0 ≡ negsuc v
      → let fresh = (uuidv7_sequence_init platform two tail counter s w0).1 in
        ((uuidv7_sequence_next platform two tail counter fresh out w).0 ≡ ok)
        × (uuidv7_unix_ms (uuidv7_sequence_next platform two tail counter fresh out w).2 ≡ pos 0)
  uuidv7_sequence_init-clock_failure s out w0 w made k room v failed =
      let fresh = (uuidv7_sequence_init platform two tail counter s w0).1 in
      let (valid, start) =
        uuidv7_sequence_init-IsSequence platform two tail counter size s w0 made in
      let (went, time) = uuidv7_sequence_next-clock_failure fresh out w valid k room v failed in
      (went, time ∙ valid.time ∙ ap pos start)
