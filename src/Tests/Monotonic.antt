-- ===== src/Tests/Monotonic.antt =====
-- chronoid/uuidv7/uuidv7_sequence.c at concrete inputs.
use libchronoid.Prelude.{ℕ, suc, ◌<◌, ◌-◌, ◌^◌, ◌≡◌, ◌≢◌, inl, refl, arith, replicate}
use libchronoid.Prelude.Int.{pos, negsuc}
use libchronoid.Platform.{Platform}
use libchronoid.Uuidv7.Types.{Uuidv7, Uuidv7Err, ok, err_time_range}
use libchronoid.Uuidv7.Id.{uuidv7_compare, uuidv7_unix_ms}
use libchronoid.Uuidv7.Sequence.{
  Sequence, draw_random, draw_counter, redraw, advance, effective, uuidv7_sequence_init,
  uuidv7_sequence_next, uuidv7_sequence_bounds, uuidv7_sequence_emit,
}
use libchronoid.Uuidv7.Sequence.Step.{IsSequence, next_ms, clamp}
use libchronoid.Uuidv7.Sequence.Monotone.{
  Emitted, uuidv7_sequence_next-step, uuidv7_sequence_next-untouched,
}
use libchronoid.Uuidv7.Sequence.Run.{done, uuidv7_sequence_next-increasing}
use libchronoid.Uuidv7.Sequence.Progress.{
  uuidv7_sequence_next-progress, uuidv7_sequence_next-end, uuidv7_sequence_init-clock_failure,
}
use libchronoid.Uuidv7.Sequence.Bounds.{uuidv7_sequence_bounds-uuidv7_sequence_next}
use libchronoid.Tests.Samples.{
  uuid_a, uuid_a-IsUuidv7, uuid_0, uuid_0-IsUuidv7, bytes, steady, broken, sequence_a,
  sequence_a-IsSequence,
}

-- A call on `sequence_a` at a clock that has gone on by `w`.
abbrev next_a : ℕ → Uuidv7Err × Sequence × Uuidv7 × ℕ
next_a w = uuidv7_sequence_next steady (replicate 2 0) (replicate 8 0) 0 sequence_a uuid_0 w

-- A fresh sequence, and two with a full counter, of which one is at the end of time.
abbrev fresh : Uuidv7Err × Sequence × ℕ
fresh = uuidv7_sequence_init steady (replicate 2 0) (replicate 8 0) 0 sequence_a 7

abbrev full : Sequence
full = record { last_ms = pos 5; counter = 4095; rand_b = replicate 8 3 }

abbrev last : Sequence
last = record { last_ms = pos (2 ^ 48 - 1); counter = 4095; rand_b = replicate 8 3 }

abbrev last-IsSequence : IsSequence last
last-IsSequence = record {
  ms = 2 ^ 48 - 1;
  time = refl;
  range = omega arith;
  counted = omega arith;
  tail = bytes 8 3 (omega arith);
}

fresh_ok : fresh.0 ≡ ok
unfolding uuidv7_sequence_init draw_random draw_counter
fresh_ok = refl

next_ok : (next_a 7).0 ≡ ok
unfolding uuidv7_sequence_next advance effective redraw draw_random draw_counter
next_ok = refl

same_ok : (next_a 0).0 ≡ ok
unfolding uuidv7_sequence_next advance effective redraw draw_random draw_counter
same_ok = refl

uuidv7_sequence_next-step_example :
    Emitted sequence_a-IsSequence
      (next_ms 1700000000000 17 (clamp 1700000000000 (pos 1700000000007)))
      (next_a 7).1
      (next_a 7).2
uuidv7_sequence_next-step_example =
    uuidv7_sequence_next-step steady (replicate 2 0) (replicate 8 0) 0 refl sequence_a uuid_0 7
      sequence_a-IsSequence uuid_0-IsUuidv7 next_ok

full_fails : (uuidv7_sequence_next broken (replicate 2 0) (replicate 8 0) 0 full uuid_a 7).0 ≢ ok
unfolding uuidv7_sequence_next advance effective redraw draw_random
full_fails e = ground (arith, e)

uuidv7_sequence_next-untouched_example :
    ((uuidv7_sequence_next broken (replicate 2 0) (replicate 8 0) 0 full uuid_a 7).1 ≡ full)
    × ((uuidv7_sequence_next broken (replicate 2 0) (replicate 8 0) 0 full uuid_a 7).2 ≡ uuid_a)
uuidv7_sequence_next-untouched_example =
    uuidv7_sequence_next-untouched broken (replicate 2 0) (replicate 8 0) 0 refl full uuid_a 7
      full_fails

second_ok :
    (uuidv7_sequence_next steady (replicate 2 0) (replicate 8 0) 0 (next_a 7).1 uuid_a 9).0 ≡ ok
unfolding uuidv7_sequence_next advance effective redraw draw_random draw_counter
second_ok = refl

uuidv7_sequence_next-increasing_example :
    uuidv7_compare
      (next_a 7).2
      (uuidv7_sequence_next steady (replicate 2 0) (replicate 8 0) 0 (next_a 7).1 uuid_a 9).2
    ≡ negsuc 0
uuidv7_sequence_next-increasing_example =
    uuidv7_sequence_next-increasing steady (replicate 2 0) (replicate 8 0) 0 refl sequence_a
      (next_a 7).1 uuid_0 uuid_a 7 9 sequence_a-IsSequence uuid_0-IsUuidv7 uuid_a-IsUuidv7 next_ok
      done second_ok

uuidv7_sequence_next-progress_example :
    (uuidv7_sequence_next steady (replicate 2 0) (replicate 8 0) 0 sequence_a uuid_a 3).0 ≡ ok
uuidv7_sequence_next-progress_example =
    uuidv7_sequence_next-progress steady (replicate 2 0) (replicate 8 0) 0 refl sequence_a uuid_a 3
      sequence_a-IsSequence (λ buf n w. refl) (inl (omega arith))

uuidv7_sequence_next-end_example :
    uuidv7_sequence_next steady (replicate 2 0) (replicate 8 0) 0 last uuid_a 3
    ≡ (err_time_range, last, uuid_a, 4)
uuidv7_sequence_next-end_example =
    uuidv7_sequence_next-end steady (replicate 2 0) (replicate 8 0) 0 refl last uuid_a 3
      last-IsSequence refl refl

-- Surroundings in which only the clock fails.
abbrev clockless : Platform ℕ
clockless = record steady { now_ms = λ w. (negsuc 0, suc w) }

started : (uuidv7_sequence_init clockless (replicate 2 0) (replicate 8 0) 0 sequence_a 7).0 ≡ ok
unfolding uuidv7_sequence_init draw_random draw_counter
started = refl

room :
    (uuidv7_sequence_init clockless (replicate 2 0) (replicate 8 0) 0 sequence_a 7).1.counter < 4095
unfolding uuidv7_sequence_init draw_random draw_counter
room = omega arith

uuidv7_sequence_init-clock_failure_example :
    let s = (uuidv7_sequence_init clockless (replicate 2 0) (replicate 8 0) 0 sequence_a 7).1 in
    ((uuidv7_sequence_next clockless (replicate 2 0) (replicate 8 0) 0 s uuid_0 9).0 ≡ ok)
    × (uuidv7_unix_ms
          (uuidv7_sequence_next clockless (replicate 2 0) (replicate 8 0) 0 s uuid_0 9).2
        ≡ pos 0)
uuidv7_sequence_init-clock_failure_example =
    uuidv7_sequence_init-clock_failure clockless (replicate 2 0) (replicate 8 0) 0 refl sequence_a
      uuid_0 7 9 started uuid_0-IsUuidv7 room 0 refl

same_time : uuidv7_unix_ms (next_a 0).2 ≡ pos 1700000000000
unfolding uuidv7_sequence_next advance effective uuidv7_sequence_emit uuidv7_unix_ms
same_time = refl

uuidv7_sequence_bounds-uuidv7_sequence_next_example :
    let (lo, hi) = uuidv7_sequence_bounds sequence_a uuid_0 uuid_a in
    (uuidv7_compare lo (next_a 0).2 ≢ pos 1) × (uuidv7_compare (next_a 0).2 hi ≢ pos 1)
uuidv7_sequence_bounds-uuidv7_sequence_next_example =
    uuidv7_sequence_bounds-uuidv7_sequence_next sequence_a uuid_0 uuid_a sequence_a-IsSequence
      uuid_0-IsUuidv7 uuid_a-IsUuidv7 steady (replicate 2 0) (replicate 8 0) 0 sequence_a uuid_0 0
      refl done uuid_0-IsUuidv7 same_ok same_time
