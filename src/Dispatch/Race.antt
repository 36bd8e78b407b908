-- ===== src/Dispatch/Race.antt =====
-- Calls of the dispatcher at the same time: the loads and stores of the atomic pointer, interleaved.
use libchronoid.Prelude.{
  ℕ, suc, ◌-◌, ◌≤◌, ◌≡◌, refl, sym, subst, ap, ◌∙◌, List, [], ◌∷◌, Bool, Bool-cases, true, false,
  Option, some, some_eq, ◌==◌, if◌then◌else◌, arith, length, inl, inr,
}
use libchronoid.Dispatch.{
  Kernel, trampoline, scalar, avx2, Host, resolve, run, string_batch, init_trampoline,
}

-- Where a call stands: before the load of the pointer, with what it has loaded, with what the
-- trampoline has stored, or at its end with what stands in the output.
pub data Phase : Type 0 where
  waiting : Phase
  loaded : Kernel → Phase
  stored : Kernel → Phase
  returned : Option (List ℕ) → Phase

-- The steps that a schedule gives a call.
unfoldable pub count : ℕ → List ℕ → ℕ
count i [] = 0
count i (j ∷ schedule) = if i == j then suc (count i schedule) else count i schedule

some_ids : (n : ℕ) → (suc n == 0) ≡ false
some_ids n = ground arith

module _ {Item : Type 0} (run_scalar run_avx2 : List Item → List ℕ → Option (List ℕ)) where
  abbrev Call : Type 0
  Call = Host × List Item × List ℕ

  -- The next step of a call, and what the pointer holds after it.
  unfoldable pub next_step : Call → Kernel → Phase → Kernel × Phase
  next_step (host, ids, out) impl waiting =
      if length ids == 0 then (impl, returned (some out)) else (impl, loaded impl)
  next_step (host, ids, out) impl (loaded trampoline) = (resolve host, stored (resolve host))
  next_step (host, ids, out) impl (loaded scalar) =
      (impl, returned (run run_scalar run_avx2 scalar ids out))
  next_step (host, ids, out) impl (loaded avx2) =
      (impl, returned (run run_scalar run_avx2 avx2 ids out))
  next_step (host, ids, out) impl (stored kernel) =
      (impl, returned (run run_scalar run_avx2 kernel ids out))
  next_step (host, ids, out) impl (returned r) = (impl, returned r)

  -- Calls without number, each on a thread of its own; the schedule names who makes the next step.
  unfoldable pub run_interleaved : (ℕ → Call) → List ℕ → Kernel → (ℕ → Phase) → Kernel × (ℕ → Phase)
  run_interleaved calls [] impl phases = (impl, phases)
  run_interleaved calls (i ∷ schedule) impl phases =
      let (impl', phase) = next_step (calls i) impl (phases i) in
      run_interleaved calls schedule impl' (λ j. if j == i then phase else phases j)

  -- A call whose three steps nothing comes between is a call of the dispatcher.
  run_interleaved-string_batch :
      (host : Host) (ids : List Item) (out : List ℕ) (impl : Kernel)
      → let end = run_interleaved (λ _. (host, ids, out)) (0 ∷ 0 ∷ 0 ∷ []) impl (λ _. waiting) in
        let ran = string_batch run_scalar run_avx2 host impl ids out in
        (end.1 0 ≡ returned ran.0) × (end.0 ≡ ran.1)
  unfolding run_interleaved next_step string_batch init_trampoline
  run_interleaved-string_batch host [] out impl = (refl, refl)
  run_interleaved-string_batch host (id ∷ ids) out trampoline =
      rw (some_ids (length ids)) (refl, refl)
  run_interleaved-string_batch host (id ∷ ids) out scalar = rw (some_ids (length ids)) (refl, refl)
  run_interleaved-string_batch host (id ∷ ids) out avx2 = rw (some_ids (length ids)) (refl, refl)

  abbrev pub remaining : Phase → ℕ
  remaining waiting = 3
  remaining (loaded _) = 2
  remaining (stored _) = 1
  remaining (returned _) = 0

  -- A call that has returned has written `want`.
  abbrev pub IsFine : List ℕ → Phase → Type 0
  IsFine want (returned r) = r ≡ some want
  IsFine want _ = Unit

  module _ (calls : ℕ → Call) (i : ℕ) (want : List ℕ)
      (empty : (out : List ℕ) → run_scalar [] out ≡ some out)
      (by_scalar : run_scalar (calls i).1 (calls i).2 ≡ some want)
      (by_avx2 : run_avx2 (calls i).1 (calls i).2 ≡ some want) where
    by_any : (kernel : Kernel) → run run_scalar run_avx2 kernel (calls i).1 (calls i).2 ≡ some want
    by_any trampoline = by_scalar
    by_any scalar = by_scalar
    by_any avx2 = by_avx2

    abbrev Moves : Phase → Phase → Type 0
    Moves p q = IsFine want q × (remaining q ≤ remaining p - 1)

    none_given :
        (ids : List Item) (out : List ℕ)
        → run_scalar ids out ≡ some want
        → (length ids == 0) ≡ true
        → out ≡ want
    none_given [] out e h = some_eq (sym (empty out) ∙ e)
    none_given (id ∷ ids) out e h = absurd (ground (arith, h))

    Moves-if :
        (b : Bool) (p : Phase) (x y : Kernel × Phase)
        → (b ≡ true → Moves p x.1)
        → (b ≡ false → Moves p y.1)
        → Moves p (if b then x else y).1
    Moves-if true p x y h k = h refl
    Moves-if false p x y h k = k refl

    next_step-Moves :
        (impl : Kernel) (p : Phase) → IsFine want p → Moves p (next_step (calls i) impl p).1
    unfolding next_step
    next_step-Moves impl waiting h =
        Moves-if (length (calls i).1 == 0) waiting _ _
          (λ e. (ap some (none_given (calls i).1 (calls i).2 by_scalar e), omega arith))
          (λ _. (tt, omega arith))
    next_step-Moves impl (loaded trampoline) h = (tt, omega arith)
    next_step-Moves impl (loaded scalar) h = (by_any scalar, omega arith)
    next_step-Moves impl (loaded avx2) h = (by_any avx2, omega arith)
    next_step-Moves impl (stored kernel) h = (by_any kernel, omega arith)
    next_step-Moves impl (returned r) h = (h, omega arith)

    at_end : (p : Phase) → IsFine want p → remaining p ≤ 0 → p ≡ returned (some want)
    at_end (returned r) h le = ap returned h
    at_end waiting h le = absurd (omega (arith, le))
    at_end (loaded _) h le = absurd (omega (arith, le))
    at_end (stored _) h le = absurd (omega (arith, le))

    -- The phases after a step of call `j`.
    abbrev moved : ℕ → Kernel → (ℕ → Phase) → ℕ → Phase
    moved j impl phases k = if k == j then (next_step (calls j) impl (phases j)).1 else phases k

    moved-IsFine :
        (j : ℕ) (schedule : List ℕ) (impl : Kernel) (phases : ℕ → Phase)
        → IsFine want (phases i)
        → remaining (phases i) ≤ count i (j ∷ schedule)
        → IsFine want (moved j impl phases i)
          × (remaining (moved j impl phases i) ≤ count i schedule)
    unfolding count
    moved-IsFine j schedule impl phases h le = elim (Bool-cases (i == j)) [
      | inl e ↦
          let (fine, less) = next_step-Moves impl (phases i) h in
          rw e (
            subst
              (λ k.
                IsFine want (next_step (calls k) impl (phases k)).1
                × (remaining (next_step (calls k) impl (phases k)).1 ≤ count i schedule))
              (same i j e) (fine, omega (arith, less, bounded e le)))
      | inr e ↦ rw e (h, still e le)
    ]
      where
        same : (m n : ℕ) → (m == n) ≡ true → m ≡ n
        same m n e = ground (arith, e)

        bounded :
            (i == j) ≡ true
            → remaining (phases i) ≤ count i (j ∷ schedule)
            → remaining (phases i) ≤ suc (count i schedule)
        bounded e le = ground (arith, e, le)

        still :
            (i == j) ≡ false
            → remaining (phases i) ≤ count i (j ∷ schedule)
            → remaining (phases i) ≤ count i schedule
        still e le = ground (arith, e, le)

    pub run_interleaved-returned :
        (schedule : List ℕ) (impl : Kernel) (phases : ℕ → Phase)
        → IsFine want (phases i)
        → remaining (phases i) ≤ count i schedule
        → (run_interleaved calls schedule impl phases).1 i ≡ returned (some want)
    unfolding run_interleaved count
    run_interleaved-returned [] impl phases h le = at_end (phases i) h le
    run_interleaved-returned (j ∷ schedule) impl phases h le =
        let (fine, less) = moved-IsFine j schedule impl phases h le in
        run_interleaved-returned schedule (next_step (calls j) impl (phases j)).0
          (moved j impl phases) fine less
