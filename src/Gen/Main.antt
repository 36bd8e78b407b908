-- ===== src/Gen/Main.antt =====
-- `main` of examples/chronoid-gen.c behind its option parser: generation and parsing.
use libchronoid.Prelude.{
  ℕ, zero, suc, List, [], ◌∷◌, ◌++◌, Bool, true, false, not, ◌&&◌, ◌==◌, Option, none, some, ◌>>=◌,
  if◌then◌else◌, length, ◌⊎◌, inl, inr,
}
use libchronoid.Prelude.Int.{ℤ, pos, negsuc}
use libchronoid.Prelude.Tables.{codes}
use libchronoid.Arch.{Arch}
use libchronoid.Platform.{Platform}
use libchronoid.Ksuid.Types.{Ksuid, KsuidErr}
use libchronoid.Ksuid.Id.{ksuid_new, ksuid_parse}
use libchronoid.Uuidv7.Types.{Uuidv7, Uuidv7Err}
use libchronoid.Uuidv7.Id.{uuidv7_new, uuidv7_parse}
use libchronoid.Gen.Stdio.{print_u, print_d, Calendar}
use libchronoid.Gen.Print.{
  Format, payload, IdFormat, ksuid, uuidv7, print_one_ksuid, print_one_uuidv7,
}
use libchronoid.Gen.Options.{Options, defaults, Exit, Parsed, stop, go, parse_options}

-- The constants of the error types.
unfoldable pub ksuid_err_code : KsuidErr → ℤ
ksuid_err_code KsuidErr.ok = pos 0
ksuid_err_code KsuidErr.err_size = negsuc 0
ksuid_err_code KsuidErr.err_str_size = negsuc 1
ksuid_err_code KsuidErr.err_str_value = negsuc 2
ksuid_err_code KsuidErr.err_payload_size = negsuc 3
ksuid_err_code KsuidErr.err_rng = negsuc 4
ksuid_err_code KsuidErr.err_exhausted = negsuc 5
ksuid_err_code KsuidErr.err_time_range = negsuc 6

unfoldable pub uuidv7_err_code : Uuidv7Err → ℤ
uuidv7_err_code Uuidv7Err.ok = pos 0
uuidv7_err_code Uuidv7Err.err_size = negsuc 0
uuidv7_err_code Uuidv7Err.err_str_size = negsuc 1
uuidv7_err_code Uuidv7Err.err_str_value = negsuc 2
uuidv7_err_code Uuidv7Err.err_rng = negsuc 4
uuidv7_err_code Uuidv7Err.err_time_range = negsuc 6

-- More output before an end.
abbrev pub after_output : List ℕ → Exit → Exit
after_output s e = record e { out = s ++ e.out }

abbrev pub done : Exit
done = record { code = 0; out = []; err = [] }

abbrev pub failed : ℕ → List ℕ → Exit
failed code err = record { code = code; out = []; err = err }

abbrev pub no_payload : List ℕ
no_payload =
    codes "-f payload is not supported for UUIDv7; use -f raw for the\n"
    ++ codes "16-byte image or -f inspect for rand_a / rand_b.\n"

abbrev pub is_payload : Format → Bool
is_payload payload = true
is_payload _ = false

abbrev pub is_uuidv7 : IdFormat → Bool
is_uuidv7 uuidv7 = true
is_uuidv7 ksuid = false

abbrev pub same_format : IdFormat → IdFormat → Bool
same_format ksuid ksuid = true
same_format uuidv7 uuidv7 = true
same_format _ _ = false

-- The format that a text of this length has, or the end of the program.
unfoldable pub detect : List ℕ → Option IdFormat
detect arg = if length arg == 27 then some ksuid else if length arg == 36 then some uuidv7 else none

abbrev cli_name : IdFormat → List ℕ
cli_name ksuid = codes "ksuid"
cli_name uuidv7 = codes "uuidv7"

abbrev type_name : IdFormat → List ℕ
type_name ksuid = codes "KSUID"
type_name uuidv7 = codes "UUIDv7"

-- What the local variables of the program held before they were written.
pub record Stack : Type 0 where
  pub s_ksuid : List ℕ
  pub s_uuidv7 : List ℕ
  pub id_ksuid : Ksuid
  pub id_uuidv7 : Uuidv7
  pub tmp_ksuid : Ksuid
  pub tmp_uuidv7 : List ℕ
  pub payload_ksuid : List ℕ
  pub rnd_uuidv7 : List ℕ

module _ {W Tm : Type 0} (platform : Platform W) (calendar : Calendar Tm) (arch : Arch)
    (stack : Stack) where
  -- The body of the generation loop, behind the call of `chronoid_ksuid_new`.
  abbrev pub ksuid_round :
      Options → (W → Option (Exit × W)) → KsuidErr × Ksuid × W → Option (Exit × W)
  ksuid_round o again (KsuidErr.ok, id, w) =
      print_one_ksuid calendar stack.s_ksuid o.format id o.verbose
      >>= (λ s. again w >>= (λ (rest : Exit × W). some (after_output s rest.0, rest.1)))
  ksuid_round o again (e, id, w) = some (
    failed 2
        (codes "chronoid_ksuid_new failed (err " ++ (print_d (ksuid_err_code e) ++ codes ")\n")),
    w,
  )

  -- The loop, with `n` rounds left.
  unfoldable pub generate_ksuid : ℕ → Options → W → Option (Exit × W)
  generate_ksuid zero o w = some (done, w)
  generate_ksuid (suc n) o w =
      ksuid_new platform stack.payload_ksuid stack.id_ksuid w >>= ksuid_round o (generate_ksuid n o)

  abbrev pub uuidv7_round : Options → (W → Exit × W) → Uuidv7Err × Uuidv7 × W → Exit × W
  uuidv7_round o again (Uuidv7Err.ok, id, w) =
      let rest = again w in
      (
        after_output (print_one_uuidv7 calendar arch stack.s_uuidv7 o.format id o.verbose) rest.0,
        rest.1,
      )
  uuidv7_round o again (e, id, w) = (
    failed 2
        (codes "chronoid_uuidv7_new failed (err " ++ (print_d (uuidv7_err_code e) ++ codes ")\n")),
    w,
  )

  unfoldable pub generate_uuidv7 : ℕ → Options → W → Exit × W
  generate_uuidv7 zero o w = (done, w)
  generate_uuidv7 (suc n) o w =
      uuidv7_round o (generate_uuidv7 n o) (uuidv7_new platform stack.rnd_uuidv7 stack.id_uuidv7 w)

  abbrev could_not_parse : List ℕ → ℤ → Exit
  could_not_parse arg e =
      failed 1 (codes "could not parse " ++ (arg ++ (codes " (err " ++ (print_d e ++ codes ")\n"))))

  -- The end of a round of the parse mode, behind the call that parses.
  abbrev pub print_uuidv7 : Options → List ℕ → Uuidv7Err × Uuidv7 → List ℕ ⊎ Exit
  print_uuidv7 o arg (Uuidv7Err.ok, id) =
      inl (print_one_uuidv7 calendar arch stack.s_uuidv7 o.format id o.verbose)
  print_uuidv7 o arg (e, id) = inr (could_not_parse arg (uuidv7_err_code e))

  abbrev pub print_ksuid : Options → List ℕ → KsuidErr × Ksuid → Option (List ℕ ⊎ Exit)
  print_ksuid o arg (KsuidErr.ok, id) =
      print_one_ksuid calendar stack.s_ksuid o.format id o.verbose >>= (λ s. some (inl s))
  print_ksuid o arg (e, id) = some (inr (could_not_parse arg (ksuid_err_code e)))

  abbrev pub parse_as : Options → List ℕ → IdFormat → Option (List ℕ ⊎ Exit)
  parse_as o arg uuidv7 =
      some (print_uuidv7 o arg (uuidv7_parse stack.id_uuidv7 stack.tmp_uuidv7 arg (length arg)))
  parse_as o arg ksuid =
      print_ksuid o arg (ksuid_parse arch stack.tmp_ksuid stack.id_ksuid arg (length arg))

  -- A round, for the format that is detected.
  abbrev pub with_format : Options → List ℕ → Option IdFormat → Option (List ℕ ⊎ Exit)
  with_format o arg none = some (
      inr (
        failed 1 (
          codes "could not parse "
          ++ (arg
              ++ (codes ": expected 27 (KSUID) or 36 (UUIDv7) chars, got "
                  ++ (print_u (length arg) ++ (10 ∷ [])))))))
  with_format o arg (some detected) =
      if o.idformat_explicit && not (same_format detected o.idformat)
      then some (
          inr (
            failed 1 (
              codes "format mismatch: --format="
              ++ (cli_name o.idformat
                  ++ (codes " but "
                      ++ (arg
                          ++ (codes " looks like a "
                              ++ (type_name detected
                                  ++ (codes " ("
                                      ++ (print_u (length arg) ++ codes " chars)\n"))))))))))
      else if is_payload o.format && is_uuidv7 detected
      then some (inr (failed 1 no_payload))
      else parse_as o arg detected

  -- One argument of the parse mode: what it prints, or the end of the program.
  unfoldable pub parse_arg : Options → List ℕ → Option (List ℕ ⊎ Exit)
  parse_arg o arg = with_format o arg (detect arg)

  abbrev pub and_then : List ℕ ⊎ Exit → Option Exit → Option Exit
  and_then (inl s) rest = rest >>= (λ e. some (after_output s e))
  and_then (inr e) rest = some e

  -- The loop over the positional arguments.
  unfoldable pub parse_args : Options → List (List ℕ) → Option Exit
  parse_args o [] = some done
  parse_args o (arg ∷ args) =
      let rest = parse_args o args in parse_arg o arg >>= (λ r. and_then r rest)

  abbrev pub generate_as : IdFormat → Options → W → Option (Exit × W)
  generate_as uuidv7 o w = some (generate_uuidv7 o.count o w)
  generate_as ksuid o w = generate_ksuid o.count o w

  abbrev pub generate : Options → W → Option (Exit × W)
  generate o w =
      if is_payload o.format && is_uuidv7 o.idformat
      then some (failed 1 no_payload, w)
      else generate_as o.idformat o w

  abbrev pub run : Parsed → W → Option (Exit × W)
  run (stop e) w = some (e, w)
  run (go o []) w = generate o w
  run (go o (arg ∷ args)) w = parse_args o (arg ∷ args) >>= (λ e. some (e, w))

  unfoldable pub main : List ℕ → List (List ℕ) → W → Option (Exit × W)
  main argv0 args w = run (parse_options argv0 args defaults) w
