-- ===== src/Uuidv7/Sequence/Run.antt =====
-- Runs of `chronoid_uuidv7_sequence_next` on one sequence, whatever the clock and the random source
-- do between the calls.
use libchronoid.Prelude.{
  ℕ, ◌+◌, ◌*◌, ◌%◌, ◌^◌, ◌≤◌, ◌<◌, ◌≡◌, ◌≢◌, ◌⊎◌, inl, inr, refl, sym, ◌∙◌, subst, List, arith,
  length,
}
use libchronoid.Prelude.Int.{negsuc}
use libchronoid.Platform.{Platform}
use libchronoid.Uuidv7.Types.{
  Uuidv7, IsUuidv7, Uuidv7Err, ok, err_size, err_str_size, err_str_value, err_rng, err_time_range,
}
use libchronoid.Uuidv7.Id.{uuidv7_compare}
use libchronoid.Uuidv7.Id.Fields.{HasFields}
use libchronoid.Uuidv7.Id.Ordered.{uuidv7_compare-value}
use libchronoid.Uuidv7.Sequence.{Sequence, uuidv7_sequence_next}
use libchronoid.Uuidv7.Sequence.Step.{IsSequence, position}
use libchronoid.Uuidv7.Sequence.Monotone.{uuidv7_sequence_next-step, uuidv7_sequence_next-untouched}

ok_or : (e : Uuidv7Err) → (e ≡ ok) ⊎ (e ≢ ok)
ok_or ok = inl refl
ok_or err_size = inr (λ e. ground (arith, e))
ok_or err_str_size = inr (λ e. ground (arith, e))
ok_or err_str_value = inr (λ e. ground (arith, e))
ok_or err_rng = inr (λ e. ground (arith, e))
ok_or err_time_range = inr (λ e. ground (arith, e))

-- Identifiers of ascending positions.
compare-layout :
    {a b : Uuidv7} (m n c d x y : ℕ)
    → HasFields a m c (x % 2 ^ 62)
    → HasFields b n d (y % 2 ^ 62)
    → c < 2 ^ 12
    → d < 2 ^ 12
    → m * 2 ^ 12 + c < n * 2 ^ 12 + d
    → uuidv7_compare a b ≡ negsuc 0
compare-layout m n c d x y f g h k lt = uuidv7_compare-value f.0 g.0 ∙ ground (arith, f.1, g.1)

module _ {W : Type 0} (platform : Platform W) (two tail : List ℕ) (counter : ℕ) where
  -- The states that calls lead to, successful or not, each from any state of the surroundings.
  pub data Run : Sequence → Sequence → Type 0 where
    done : {s : Sequence} → Run s s
    call :
        {s t : Sequence} (out : Uuidv7) (w : W)
        → IsUuidv7 out
        → Run (uuidv7_sequence_next platform two tail counter s out w).1 t
        → Run s t

  module _ (size : length tail ≡ 8) where
    -- A call leaves a valid state at the same or a later position.
    next-position :
        (s : Sequence) (out : Uuidv7) (w : W) (h : IsSequence s)
        → IsUuidv7 out
        → (h' : IsSequence (uuidv7_sequence_next platform two tail counter s out w).1) × (position h
            ≤ position h')
    next-position s out w h k =
        elim (ok_or (uuidv7_sequence_next platform two tail counter s out w).0) [
          | inl e ↦
              let (h', time, less, fields) =
                uuidv7_sequence_next-step platform two tail counter size s out w h k e in
              (h', omega (arith, less))
          | inr e ↦
              let (same, _) =
                uuidv7_sequence_next-untouched platform two tail counter size s out w e in
              subst (λ t. (h' : IsSequence t) × (position h ≤ position h')) (sym same)
                (h, omega arith)
        ]

    -- Every run from a valid state leads to a valid state at the same or a later position.
    pub Run-IsSequence :
        {s t : Sequence} (h : IsSequence s)
        → Run s t
        → (h' : IsSequence t) × (position h ≤ position h')
    Run-IsSequence h done = (h, omega arith)
    Run-IsSequence {s} h (call out w k run) =
        let (h1, le1) = next-position s out w h k in
        let (h2, le2) = Run-IsSequence h1 run in (h2, omega (arith, le1, le2))

    -- Two calls of `chronoid_uuidv7_sequence_next` that succeed on one valid sequence, with any run
    -- of calls between them, emit identifiers in ascending order, whatever the clock returns and
    -- the random source does.
    pub uuidv7_sequence_next-increasing :
        (s t : Sequence) (out out' : Uuidv7) (w w' : W) (h : IsSequence s)
        → IsUuidv7 out
        → IsUuidv7 out'
        → (uuidv7_sequence_next platform two tail counter s out w).0 ≡ ok
        → Run (uuidv7_sequence_next platform two tail counter s out w).1 t
        → (uuidv7_sequence_next platform two tail counter t out' w').0 ≡ ok
        → uuidv7_compare
            (uuidv7_sequence_next platform two tail counter s out w).2
            (uuidv7_sequence_next platform two tail counter t out' w').2
          ≡ negsuc 0
    uuidv7_sequence_next-increasing s t out out' w w' h k k' e run e' =
        let (h1, _, _, fields1) =
          uuidv7_sequence_next-step platform two tail counter size s out w h k e in
        let (h2, le) = Run-IsSequence h1 run in
        let (h3, _, lt, fields2) =
          uuidv7_sequence_next-step platform two tail counter size t out' w' h2 k' e' in
        compare-layout h1.ms h3.ms _ _ _ _ fields1 fields2 h1.counted h3.counted
          (omega (arith, le, lt))
