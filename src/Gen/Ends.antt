-- ===== src/Gen/Ends.antt =====
-- The exit code and the standard error of examples/chronoid-gen.c.
use libchronoid.Prelude.{
  ℕ, zero, suc, ◌≡◌, refl, subst, sym, ap, ◌⊎◌, inl, inr, List, [], ◌∷◌, Bool, Bool-cases, Option,
  none, some, ◌>>=◌, arith, not, true, false, length, All, AllBelow, ◌&&◌, if◌then◌else◌,
}
use libchronoid.Arch.{Arch}
use libchronoid.Platform.{Platform, Timespec}
use libchronoid.Ksuid.Types.{Ksuid, IsKsuid, KsuidErr}
use libchronoid.Ksuid.Id.{ksuid_parse}
use libchronoid.Ksuid.Id.Generate.{IsDefined, ksuid_new-IsKsuid}
use libchronoid.Ksuid.Id.Text.{ksuid_parse-IsKsuid}
use libchronoid.Gen.Echo.{IsStack}
use libchronoid.Gen.Exits.{IsExit, Stops, parse_options-Stops}
use libchronoid.Uuidv7.Types.{Uuidv7, Uuidv7Err}
use libchronoid.Uuidv7.Id.{uuidv7_new, uuidv7_parse}
use libchronoid.Gen.Stdio.{Calendar}
use libchronoid.Gen.Print.{IdFormat, ksuid, uuidv7}
use libchronoid.Gen.Options.{Options, defaults, Exit, Parsed, stop, go, parse_options}
use libchronoid.Gen.Main.{
  Stack, generate_ksuid, generate_uuidv7, generate, parse_arg, parse_args, main, after_output,
  ksuid_round, uuidv7_round, print_ksuid, print_uuidv7, and_then, run, is_payload, is_uuidv7,
  same_format, detect, parse_as, with_format, generate_as,
}
use libchronoid.Gen.Printed.{print_one_ksuid-some}

-- The calendar clock never gives a time so far back that the subtraction of the epoch overflows.
pub record IsClock {W : Type 0} (platform : Platform W) : Type 0 where
  pub defined :
      (w : W) (ts : Timespec) → (platform.timespec_get w).0 ≡ some ts → IsDefined ts.tv_sec

abbrev printing : List ℕ → List ℕ ⊎ Exit
printing s = inl s

module _ {W Tm : Type 0} (platform : Platform W) (calendar : Calendar Tm) (arch : Arch)
    (stack : Stack) (valid : IsStack stack) (clock : IsClock platform) where
  abbrev Ends : Option (Exit × W) → Type 0
  Ends none = ⊥
  Ends (some r) = IsExit r.0

  Ends-after :
      (m : Option (Exit × W)) (s : List ℕ)
      → Ends m
      → Ends (m >>= (λ (r : Exit × W). some (after_output s r.0, r.1)))
  Ends-after none s h = h
  Ends-after (some r) s h = h

  ksuid_round-Ends :
      (o : Options) (again : W → Option (Exit × W)) (e : KsuidErr) (id : Ksuid) (w : W)
      → IsKsuid id
      → ((w : W) → Ends (again w))
      → Ends (ksuid_round platform calendar arch stack o again (e, id, w))
  ksuid_round-Ends o again KsuidErr.ok id w k h =
      let (s, printed) =
        print_one_ksuid-some calendar stack.s_ksuid o.format id o.verbose valid.text_ksuid k in
      subst Ends
        (ap
          (λ (m : Option (List ℕ)).
            m >>= (λ s. again w >>= (λ (r : Exit × W). some (after_output s r.0, r.1))))
          (sym printed))
        (Ends-after (again w) s (h w))
  ksuid_round-Ends o again _ id w k h = inr (omega arith, λ e. ground arith)

  generate_ksuid-Ends :
      (n : ℕ) (o : Options) (w : W) → Ends (generate_ksuid platform calendar arch stack n o w)
  unfolding generate_ksuid
  generate_ksuid-Ends zero o w = inl (refl, refl)
  generate_ksuid-Ends (suc n) o w =
      let (e, id, w', ran, k) =
        ksuid_new-IsKsuid platform stack.payload_ksuid stack.id_ksuid valid.valid_ksuid
          valid.drawn_ksuid w (clock.defined w) in
      subst Ends
        (ap
          (λ m.
            m
            >>= ksuid_round platform calendar arch stack o
                (generate_ksuid platform calendar arch stack n o))
          (sym ran))
        (ksuid_round-Ends o _ e id w' k (generate_ksuid-Ends n o))

  uuidv7_round-IsExit :
      (o : Options) (again : W → Exit × W) (r : Uuidv7Err × Uuidv7 × W)
      → ((w : W) → IsExit (again w).0)
      → IsExit (uuidv7_round platform calendar arch stack o again r).0
  uuidv7_round-IsExit o again (Uuidv7Err.ok, id, w) h = h w
  uuidv7_round-IsExit o again (e, id, w) h = inr (omega arith, λ e. ground arith)

  generate_uuidv7-IsExit :
      (n : ℕ) (o : Options) (w : W) → IsExit (generate_uuidv7 platform calendar arch stack n o w).0
  unfolding generate_uuidv7
  generate_uuidv7-IsExit zero o w = inl (refl, refl)
  generate_uuidv7-IsExit (suc n) o w =
      uuidv7_round-IsExit o _ (uuidv7_new platform stack.rnd_uuidv7 stack.id_uuidv7 w)
        (generate_uuidv7-IsExit n o)

  generate-Ends : (o : Options) (w : W) → Ends (generate platform calendar arch stack o w)
  generate-Ends o w = elim (Bool-cases (is_payload o.format && is_uuidv7 o.idformat)) [
    | inl refused ↦ rw refused (inr (omega arith, λ e. ground arith))
    | inr allowed ↦ rw allowed (by_format o.idformat)
  ]
    where
      by_format : (f : IdFormat) → Ends (generate_as platform calendar arch stack f o w)
      by_format uuidv7 = generate_uuidv7-IsExit o.count o w
      by_format ksuid = generate_ksuid-Ends o.count o w

  -- The end that a positional argument makes, if it does.
  abbrev Fails : Option (List ℕ ⊎ Exit) → Type 0
  Fails none = ⊥
  Fails (some (inl s)) = Unit
  Fails (some (inr e)) = IsExit e

  print_ksuid-Fails :
      (o : Options) (arg : List ℕ) (e : KsuidErr) (id : Ksuid)
      → (e ≡ KsuidErr.ok → IsKsuid id)
      → Fails (print_ksuid platform calendar arch stack o arg (e, id))
  print_ksuid-Fails o arg KsuidErr.ok id k =
      let (s, printed) =
        print_one_ksuid-some calendar stack.s_ksuid o.format id o.verbose valid.text_ksuid
          (k refl) in
      subst Fails (ap (λ (m : Option (List ℕ)). m >>= (λ s. some (printing s))) (sym printed)) tt
  print_ksuid-Fails o arg _ id k = inr (omega arith, λ e. ground arith)

  print_uuidv7-Fails :
      (o : Options) (arg : List ℕ) (r : Uuidv7Err × Uuidv7)
      → Fails (some (print_uuidv7 platform calendar arch stack o arg r))
  print_uuidv7-Fails o arg (Uuidv7Err.ok, id) = tt
  print_uuidv7-Fails o arg (e, id) = inr (omega arith, λ e. ground arith)

  parse_as-Fails :
      (o : Options) (arg : List ℕ) (f : IdFormat)
      → AllBelow 256 arg
      → Fails (parse_as platform calendar arch stack o arg f)
  parse_as-Fails o arg uuidv7 h =
      print_uuidv7-Fails o arg (uuidv7_parse stack.id_uuidv7 stack.tmp_uuidv7 arg (length arg))
  parse_as-Fails o arg ksuid h =
      let r = ksuid_parse arch stack.tmp_ksuid stack.id_ksuid arg (length arg) in
      print_ksuid-Fails o arg r.0 r.1 (λ e.
        ksuid_parse-IsKsuid arch stack.tmp_ksuid stack.id_ksuid r.1 arg h valid.decoded_ksuid
          (ap (λ c. (c, r.1)) e))

  Fails-if :
      (b : Bool) (x y : Option (List ℕ ⊎ Exit)) → Fails x → Fails y → Fails (if b then x else y)
  Fails-if true x y h k = h
  Fails-if false x y h k = k

  with_format-Fails :
      (o : Options) (arg : List ℕ) (f : Option IdFormat)
      → AllBelow 256 arg
      → Fails (with_format platform calendar arch stack o arg f)
  with_format-Fails o arg none h = inr (omega arith, λ e. ground arith)
  with_format-Fails o arg (some f) h =
      Fails-if (o.idformat_explicit && not (same_format f o.idformat)) _ _
        (inr (omega arith, λ e. ground arith))
        (Fails-if (is_payload o.format && is_uuidv7 f) _ _ (inr (omega arith, λ e. ground arith))
          (parse_as-Fails o arg f h))

  and_then-Ends :
      (r : List ℕ ⊎ Exit) (rest : Option Exit) (w : W)
      → Fails (some r)
      → Ends (rest >>= (λ e. some (e, w)))
      → Ends (and_then platform calendar arch stack r rest >>= (λ e. some (e, w)))
  and_then-Ends (inl s) none w f h = h
  and_then-Ends (inl s) (some e) w f h = h
  and_then-Ends (inr e) rest w f h = f

  parse_args-Ends :
      (o : Options) (args : List (List ℕ)) (w : W)
      → All (AllBelow 256) args
      → Ends (parse_args platform calendar arch stack o args >>= (λ e. some (e, w)))
  unfolding parse_args parse_arg
  parse_args-Ends o [] w h = inl (refl, refl)
  parse_args-Ends o (arg ∷ args) w h =
      each (with_format platform calendar arch stack o arg (detect arg))
        (with_format-Fails o arg (detect arg) h.0) (parse_args-Ends o args w h.1)
    where
      each :
          (m : Option (List ℕ ⊎ Exit))
          → Fails m
          → Ends (parse_args platform calendar arch stack o args >>= (λ e. some (e, w)))
          → Ends (
              (m >>= (λ r.
                and_then platform calendar arch stack r
                  (parse_args platform calendar arch stack o args)))
              >>= (λ e. some (e, w)))
      each none f h = f
      each (some r) f h = and_then-Ends r (parse_args platform calendar arch stack o args) w f h

  run-Ends : (p : Parsed) (w : W) → Stops p → Ends (run platform calendar arch stack p w)
  run-Ends (stop e) w h = h.0
  run-Ends (go o []) w h = generate-Ends o w
  run-Ends (go o (arg ∷ args)) w h = parse_args-Ends o (arg ∷ args) w h

  Ends-IsExit :
      (m : Option (Exit × W)) → Ends m → (e : Exit) × (w' : W) × (m ≡ some (e, w')) × IsExit e
  Ends-IsExit none h = absurd h
  Ends-IsExit (some (e, w)) h = (e, w, refl, h)

  -- Whatever its arguments, `main` ends, and has written nothing to the standard error where its
  -- exit code is 0, and something where it is not, provided that the clock never gives a time so
  -- far back that the subtraction of the epoch overflows, and that the arrays on its stack have the
  -- sizes that it declares.
  pub main-IsExit :
      (argv0 : List ℕ) (args : List (List ℕ)) (w : W)
      → All (AllBelow 256) args
      → (e : Exit) × (w' : W) × (main platform calendar arch stack argv0 args w ≡ some (e, w'))
        × IsExit e
  unfolding main
  main-IsExit argv0 args w h =
      Ends-IsExit (run platform calendar arch stack (parse_options argv0 args defaults) w)
        (run-Ends (parse_options argv0 args defaults) w (parse_options-Stops argv0 args defaults h))
