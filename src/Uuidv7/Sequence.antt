-- ===== src/Uuidv7/Sequence.antt =====
-- chronoid/uuidv7/uuidv7_sequence.c: the monotonic sequence. The stack buffers for the random bytes
-- are parameters, with what they held.
pub mod Draw
pub mod Step
pub mod Monotone
pub mod Run
pub mod Progress
pub mod Bounds
use libchronoid.Prelude.{
  ℕ, zero, suc, ◌+◌, ◌-◌, ◌^◌, List, [], ◌∷◌, Bool, ◌||◌, ltb, if◌then◌else◌, drop, replicate,
  get_or, set, u8, u16, u32, ◌<<◌, ◌>>◌, bit_and, bit_or,
}
use libchronoid.Prelude.Int.{ℤ, pos, negsuc, ltb_ℤ, ◌+ℤ◌, to_u64}
use libchronoid.Memory.{memcpy}
use libchronoid.Platform.{Platform}
use libchronoid.Uuidv7.Types.{Uuidv7, Uuidv7Err, ok, err_rng, err_time_range, max_unix_ms}

-- `chronoid_uuidv7_sequence_t`.
pub record Sequence : Type 0 where
  pub last_ms : ℤ
  pub counter : ℕ
  pub rand_b : List ℕ

-- UUIDV7_COUNTER_MASK.
abbrev pub counter_mask : ℕ
counter_mask = 0x0fff

unfoldable pub uuidv7_sequence_emit : Uuidv7 → ℤ → ℕ → List ℕ → Uuidv7
uuidv7_sequence_emit out unix_ms counter rand_b =
    let ms = to_u64 unix_ms in
    let b = set out.b 0 (u8 (ms >> 40)) in
    let b = set b 1 (u8 (ms >> 32)) in
    let b = set b 2 (u8 (ms >> 24)) in
    let b = set b 3 (u8 (ms >> 16)) in
    let b = set b 4 (u8 (ms >> 8)) in
    let b = set b 5 (u8 ms) in
    let c = bit_and counter counter_mask in
    let b = set b 6 (u8 (bit_or 0x70 (bit_and (c >> 8) 0x0f))) in
    let b = set b 7 (u8 (bit_and c 0xff)) in
    let b = set b 8 (u8 (bit_or 0x80 (bit_and (get_or rand_b 0 0) 0x3f))) in
    record { b = memcpy b 9 (drop 1 rand_b) 7 }

-- The clock, or the last time when the clock is behind it or out of range.
unfoldable pub effective : Sequence → ℤ → ℤ
effective s wall_ms =
    if ltb_ℤ wall_ms s.last_ms || ltb_ℤ (pos max_unix_ms) wall_ms then s.last_ms else wall_ms

module _ {W : Type 0} (platform : Platform W) where
  -- The error code, and what the buffer of `n` bytes holds.
  unfoldable pub draw_random : List ℕ → ℕ → W → Uuidv7Err × List ℕ × W
  draw_random buf n w =
      let (rc, bytes, w') = platform.fill_random buf n w in
      elim rc [ pos zero ↦ (ok, bytes, w') | _ ↦ (err_rng, bytes, w') ]

  -- The error code, and what `*out` holds.
  unfoldable pub draw_counter : List ℕ → ℕ → W → Uuidv7Err × ℕ × W
  draw_counter two out w =
      let (e, two, w') = draw_random two 2 w in
      elim e [
        | ok ↦ (ok, u16 (bit_and (bit_or (get_or two 0 0 << 8) (get_or two 1 0)) counter_mask), w')
        | e ↦ (e, out, w')
      ]

  -- `two` and `tail` are what the two buffers held, `counter` what the local variable did.
  module _ (two tail : List ℕ) (counter : ℕ) where
    unfoldable pub uuidv7_sequence_init : Sequence → W → Uuidv7Err × Sequence × W
    uuidv7_sequence_init s w =
        let (e, first, w') = draw_counter two counter w in
        elim e [
          | ok ↦
              let (e, rand_b, w'') = draw_random tail 8 w' in
              elim e [
                | ok ↦ (ok, record { last_ms = pos 0; counter = first; rand_b = rand_b }, w'')
                | e ↦ (e, s, w'')
              ]
          | e ↦ (e, s, w')
        ]

    -- The draws for a new millisecond, and the update of `s` after both.
    unfoldable pub redraw : Sequence → ℤ → W → Uuidv7Err × Sequence × W
    redraw s ms w =
        let (e, new_rand_b, w') = draw_random tail 8 w in
        elim e [
          | ok ↦
              let (e, new_counter, w'') = draw_counter two counter w' in
              elim e [
                | ok ↦ (
                  ok,
                  record {
                    last_ms = ms;
                    counter = new_counter;
                    rand_b = memcpy s.rand_b 0 new_rand_b 8;
                  },
                  w'',
                )
                | e ↦ (e, s, w'')
              ]
          | e ↦ (e, s, w')
        ]

    -- The state after the call up to the emission: `effective_ms`, then the three cases.
    unfoldable pub advance : Sequence → ℤ → W → Uuidv7Err × Sequence × W
    advance s effective_ms w =
        if ltb_ℤ effective_ms (pos 0) || ltb_ℤ (pos max_unix_ms) effective_ms
        then (err_time_range, s, w)
        else if ltb_ℤ s.last_ms effective_ms
        then redraw s effective_ms w
        else let bumped = u32 (s.counter + 1) in
          if ltb counter_mask bumped
          then if ltb_ℤ s.last_ms (pos max_unix_ms)
            then redraw s (s.last_ms +ℤ pos 1) w
            else (err_time_range, s, w)
          else (ok, record s { counter = u16 bumped }, w)

    unfoldable pub uuidv7_sequence_next : Sequence → Uuidv7 → W → Uuidv7Err × Sequence × Uuidv7 × W
    uuidv7_sequence_next s out w =
        let (wall_ms, w') = platform.now_ms w in
        let (e, s', w'') = advance s (effective s wall_ms) w' in
        elim e [
          | ok ↦ (ok, s', uuidv7_sequence_emit out s'.last_ms s'.counter s'.rand_b, w'')
          | e ↦ (e, s', out, w'')
        ]

-- The least and the greatest identifier of the current millisecond still to come.
unfoldable pub uuidv7_sequence_bounds : Sequence → Uuidv7 → Uuidv7 → Uuidv7 × Uuidv7
uuidv7_sequence_bounds s min_out max_out =
    let lo_counter = u32 (s.counter + 1) in
    let lo_counter = if ltb counter_mask lo_counter then counter_mask else lo_counter in
    (
      uuidv7_sequence_emit min_out s.last_ms (u16 lo_counter) (replicate 8 0),
      uuidv7_sequence_emit max_out s.last_ms (u16 counter_mask) (replicate 8 0xff),
    )
