-- ===== src/Uuidv7/Sequence/Step.antt =====
-- One call of `chronoid_uuidv7_sequence_next`: the states that a sequence can be in, what a call
-- changes, and when it fails.
use libchronoid.Prelude.{
  ℕ, ◌+◌, ◌*◌, ◌^◌, ◌≤◌, ◌<◌, ◌≡◌, ◌≢◌, inl, inr, refl, sym, subst, List, arith, length, IsArray,
  lt_or_ge, ltb, leb, ◌==◌, ◌&&◌, if◌then◌else◌,
}
use libchronoid.Prelude.Int.{ℤ, pos, negsuc, ◌+ℤ◌}
use libchronoid.Platform.{Platform}
use libchronoid.Uuidv7.Types.{Uuidv7Err, ok, err_time_range, max_unix_ms}
use libchronoid.Uuidv7.Sequence.{Sequence, counter_mask, redraw, advance, effective}
use libchronoid.Uuidv7.Sequence.Draw.{redraw-ok, redraw-untouched}

-- The time that a call goes by.
abbrev pub clamp : ℕ → ℤ → ℕ
clamp ms (pos v) = if leb ms v && ltb v (2 ^ 48) then v else ms
clamp ms (negsuc v) = ms

-- The time of the next identifier: the clamped clock `n`, or one more where the counter is full.
abbrev pub next_ms : ℕ → ℕ → ℕ → ℕ
next_ms ms c n = if leb n ms && (c == counter_mask) then ms + 1 else n

-- A 48-bit time, a 12-bit counter and 8 random bytes.
pub record IsSequence (s : Sequence) : Type 0 where
  pub ms : ℕ
  pub time : s.last_ms ≡ pos ms
  pub range : ms < 2 ^ 48
  pub counted : s.counter < 2 ^ 12
  pub tail : IsArray 8 s.rand_b

-- The time and the counter as one number, in the order of emission.
abbrev pub position : {s : Sequence} → IsSequence s → ℕ
position {s} h = h.ms * 2 ^ 12 + s.counter

-- A state at the time `m` and at a later position.
abbrev pub Later : {s : Sequence} → IsSequence s → ℕ → Sequence → Type 0
Later h m s' = (h' : IsSequence s') × (h'.ms ≡ m) × (position h < position h')

later :
    {s : Sequence} (h : IsSequence s)
    → s.counter < counter_mask
    → Later h h.ms (record s { counter = s.counter + 1 })
later {s} h lt = (
  record { ms = h.ms; time = h.time; range = h.range; counted = omega arith; tail = h.tail },
  refl,
  omega arith,
)

pub effective-clamp :
    (s : Sequence) (wall : ℤ) (h : IsSequence s)
    → (effective s wall ≡ pos (clamp h.ms wall))
      × (h.ms ≤ clamp h.ms wall)
      × (clamp h.ms wall < 2 ^ 48)
unfolding effective
effective-clamp s (pos v) h = rw (h.time) (ground arith)
effective-clamp s (negsuc v) h = rw (h.time) (ground arith)

module _ {W : Type 0} (platform : Platform W) (two tail : List ℕ) (counter : ℕ)
    (size : length tail ≡ 8) where
  -- A redraw for a later 48-bit time.
  redraw-Later :
      (s : Sequence) (t : ℕ) (w : W) (h : IsSequence s)
      → h.ms < t
      → t < 2 ^ 48
      → (redraw platform two tail counter s (pos t) w).0 ≡ ok
      → Later h t (redraw platform two tail counter s (pos t) w).1
  redraw-Later s t w h lt le e =
      let (time, counted, fresh) =
        redraw-ok platform two tail counter size s (pos t) w e h.tail.size in
      (
        record { ms = t; time = time; range = le; counted = counted; tail = fresh },
        refl,
        omega (arith, h.counted),
      )

  -- The four ways that `advance` goes.
  module _ (s : Sequence) (n : ℕ) (w : W) (h : IsSequence s) (le : n < 2 ^ 48) where
    pub advance-tick :
        h.ms < n
        → advance platform two tail counter s (pos n) w
          ≡ redraw platform two tail counter s (pos n) w
    unfolding advance
    advance-tick lt = rw (h.time) (ground arith)

    pub advance-count :
        n ≤ h.ms
        → s.counter < counter_mask
        → advance platform two tail counter s (pos n) w
          ≡ (ok, record s { counter = s.counter + 1 }, w)
    unfolding advance
    advance-count same lt = rw (h.time) (ground arith)

    pub advance-roll :
        n ≤ h.ms
        → s.counter ≡ counter_mask
        → h.ms < max_unix_ms
        → advance platform two tail counter s (pos n) w
          ≡ redraw platform two tail counter s (pos (h.ms + 1)) w
    unfolding advance
    advance-roll same full lt = rw (h.time) (ground arith)

    pub advance-end :
        n ≤ h.ms
        → s.counter ≡ counter_mask
        → h.ms ≡ max_unix_ms
        → advance platform two tail counter s (pos n) w ≡ (err_time_range, s, w)
    unfolding advance
    advance-end same full last = rw (h.time) (ground arith)

  -- Whatever way it goes, it comes to a later position, or to an error that changes nothing.
  pub advance-Later :
      (s : Sequence) (n : ℕ) (w : W) (h : IsSequence s)
      → h.ms ≤ n
      → n < 2 ^ 48
      → (advance platform two tail counter s (pos n) w).0 ≡ ok
      → Later h (next_ms h.ms s.counter n) (advance platform two tail counter s (pos n) w).1
  advance-Later s n w h ge le e = elim (lt_or_ge h.ms n) [
    | inl lt ↦ via (advance-tick s n w h le lt) (ground arith) (redraw-Later s n w h lt le) e
    | inr same ↦ elim (lt_or_ge s.counter counter_mask) [
      | inl lt ↦ via (advance-count s n w h le same lt) (ground arith) (λ _. later h lt) e
      | inr full ↦ elim (lt_or_ge h.ms max_unix_ms) [
        | inl lt ↦
            via (advance-roll s n w h le same (omega (arith, h.counted)) lt)
              (ground (arith, h.counted))
              (redraw-Later s (h.ms + 1) w h (omega arith) (omega arith)) e
        | inr last ↦
            via (advance-end s n w h le same (omega (arith, h.counted)) (omega (arith, h.range)))
              refl (λ bad. absurd (ground (arith, bad))) e
      ]
    ]
  ]
    where
      via :
          {r r' : Uuidv7Err × Sequence × W} {m m' : ℕ}
          → r ≡ r'
          → m ≡ m'
          → (r'.0 ≡ ok → Later h m' r'.1)
          → r.0 ≡ ok
          → Later h m r.1
      via {r} {r'} {m} {m'} q t f e =
          subst (λ m. Later h m r.1) (sym t)
            (subst (λ (r : Uuidv7Err × Sequence × W). r.0 ≡ ok → Later h m' r.1) (sym q) f e)

  pub advance-untouched :
      (s : Sequence) (t : ℤ) (w : W)
      → (advance platform two tail counter s t w).0 ≢ ok
      → (advance platform two tail counter s t w).1 ≡ s
  unfolding advance
  advance-untouched s t w e = ground (
    arith,
    redraw-untouched platform two tail counter size s t w,
    redraw-untouched platform two tail counter size s (s.last_ms +ℤ pos 1) w,
  )
