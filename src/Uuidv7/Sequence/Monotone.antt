-- ===== src/Uuidv7/Sequence/Monotone.antt =====
-- `chronoid_uuidv7_sequence_next`: whole calls, and runs of them.
use libchronoid.Prelude.{ℕ, ◌%◌, ◌^◌, ◌<◌, ◌≡◌, ◌≢◌, refl, sym, ap, ◌∙◌, subst, List, arith, length}
use libchronoid.Digits.{value}
use libchronoid.Platform.{Platform}
use libchronoid.Uuidv7.Types.{Uuidv7, IsUuidv7, Uuidv7Err, ok}
use libchronoid.Uuidv7.Id.Parts.{uuid_of}
use libchronoid.Uuidv7.Id.Fields.{HasFields, uuid_of-HasFields}
use libchronoid.Uuidv7.Sequence.{
  Sequence, uuidv7_sequence_emit, uuidv7_sequence_init, advance, effective, uuidv7_sequence_next,
}
use libchronoid.Uuidv7.Sequence.Draw.{initialised, uuidv7_sequence_emit-uuid_of}
use libchronoid.Uuidv7.Sequence.Step.{
  IsSequence, position, Later, clamp, next_ms, effective-clamp, advance-Later, advance-untouched,
}

-- A state at the time `m` and at a later position, and the identifier emitted with it.
abbrev pub Emitted : {s : Sequence} → IsSequence s → ℕ → Sequence → Uuidv7 → Type 0
Emitted h m s' id =
    (h' : IsSequence s') × (h'.ms ≡ m)
    × (position h < position h')
    × HasFields id h'.ms s'.counter (value 256 s'.rand_b % 2 ^ 62)

module _ {W : Type 0} (platform : Platform W) (two tail : List ℕ) (counter : ℕ)
    (size : length tail ≡ 8) where
  -- A call of `chronoid_uuidv7_sequence_init` that succeeds leaves the time 0, a 12-bit counter and
  -- 8 random bytes.
  pub uuidv7_sequence_init-IsSequence :
      (s : Sequence) (w : W)
      → (uuidv7_sequence_init platform two tail counter s w).0 ≡ ok
      → (h : IsSequence (uuidv7_sequence_init platform two tail counter s w).1) × (h.ms ≡ 0)
  uuidv7_sequence_init-IsSequence s w e =
      let (time, counted, fresh) = initialised platform two tail counter size s w e in
      (record { ms = 0; time = time; range = omega arith; counted = counted; tail = fresh }, refl)

  module _ (s : Sequence) (out : Uuidv7) (w : W) where
    abbrev pub called : Uuidv7Err × Sequence × Uuidv7 × W
    called = uuidv7_sequence_next platform two tail counter s out w

    abbrev pub advanced : Uuidv7Err × Sequence × W
    advanced =
        advance platform two tail counter s (effective s (platform.now_ms w).0)
          (platform.now_ms w).1

    -- What a successful call is made of.
    next_ok : called.0 ≡ ok → advanced.0 ≡ ok
    unfolding uuidv7_sequence_next
    next_ok e = ground arith

    pub next_made :
        advanced.0 ≡ ok
        → called ≡ (
          ok,
          advanced.1,
          uuidv7_sequence_emit out advanced.1.last_ms advanced.1.counter advanced.1.rand_b,
          advanced.2,
        )
    unfolding uuidv7_sequence_next
    next_made e = rw (e, uuidv7_sequence_next) refl

    -- A call of `chronoid_uuidv7_sequence_next` that succeeds on a valid sequence leaves a valid
    -- one at a later position. Its time is that of the clock where this is in range and not earlier
    -- than the last time, else the last time, and one more where the counter was full and the clock
    -- had not gone on. What it emits is the version 7 identifier of the new time, counter and
    -- random bytes.
    pub uuidv7_sequence_next-step :
        (h : IsSequence s)
        → IsUuidv7 out
        → called.0 ≡ ok
        → Emitted h (next_ms h.ms s.counter (clamp h.ms (platform.now_ms w).0)) called.1 called.2
    uuidv7_sequence_next-step h k e =
        subst (λ (r : Uuidv7Err × Sequence × Uuidv7 × W). Emitted h m r.1 r.2)
          (sym (next_made (next_ok e))) (h', time, less, emitted)
      where
        m : ℕ
        m = next_ms h.ms s.counter (clamp h.ms (platform.now_ms w).0)

        went : Later h m advanced.1
        went =
            let (time, ge, le) = effective-clamp s (platform.now_ms w).0 h in
            subst
              (λ t.
                (advance platform two tail counter s t (platform.now_ms w).1).0 ≡ ok
                → Later h m (advance platform two tail counter s t (platform.now_ms w).1).1)
              (sym time)
              (advance-Later platform two tail counter size s _ (platform.now_ms w).1 h ge le)
              (next_ok e)

        h' : IsSequence advanced.1
        h' = went.0

        time : h'.ms ≡ m
        time = went.1

        less : position h < position h'
        less = went.2

        emitted :
            HasFields
              (uuidv7_sequence_emit out advanced.1.last_ms advanced.1.counter advanced.1.rand_b)
              h'.ms
              advanced.1.counter
              (value 256 advanced.1.rand_b % 2 ^ 62)
        emitted =
            subst
              (λ id. HasFields id h'.ms advanced.1.counter (value 256 advanced.1.rand_b % 2 ^ 62))
              (sym (
                ap (λ t. uuidv7_sequence_emit out t advanced.1.counter advanced.1.rand_b) h'.time
                ∙ uuidv7_sequence_emit-uuid_of out h'.ms advanced.1.counter advanced.1.rand_b k
                    h'.range))
              (subst
                (λ c.
                  HasFields (uuid_of h'.ms advanced.1.counter advanced.1.rand_b) h'.ms c
                    (value 256 advanced.1.rand_b % 2 ^ 62))
                (omega (arith, h'.counted))
                (uuid_of-HasFields h'.ms advanced.1.counter advanced.1.rand_b h'.tail h'.range))

    -- A call of `chronoid_uuidv7_sequence_next` that fails leaves the sequence and `*out`
    -- untouched.
    pub uuidv7_sequence_next-untouched : called.0 ≢ ok → (called.1 ≡ s) × (called.2 ≡ out)
    unfolding uuidv7_sequence_next
    uuidv7_sequence_next-untouched e = ground (
      arith,
      advance-untouched platform two tail counter size s (effective s (platform.now_ms w).0)
          (platform.now_ms w).1,
    )
