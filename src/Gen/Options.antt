-- ===== src/Gen/Options.antt =====
-- The option parser of `main` in examples/chronoid-gen.c.
use libchronoid.Prelude.{
  ℕ, List, [], ◌∷◌, ◌++◌, Bool, true, false, not, ◌||◌, ◌==◌, Option, none, some, if◌then◌else◌,
  take, drop, get_or,
}
use libchronoid.Prelude.Int.{pos, negsuc, ltb_ℤ}
use libchronoid.Prelude.Tables.{codes}
use libchronoid.Memory.{strcmp_is_zero}
use libchronoid.Gen.Stdio.{strtol}
use libchronoid.Gen.Print.{Format, string, IdFormat, ksuid, parse_format, parse_idformat}

-- The variables of `main` that the options set.
pub record Options : Type 0 where
  pub count : ℕ
  pub format : Format
  pub idformat : IdFormat
  pub idformat_explicit : Bool
  pub verbose : Bool

abbrev pub defaults : Options
defaults = record {
  count = 1;
  format = string;
  idformat = ksuid;
  idformat_explicit = false;
  verbose = false;
}

-- An end of the program: the exit code, and what stands on the standard output and error.
pub record Exit : Type 0 where
  pub code : ℕ
  pub out : List ℕ
  pub err : List ℕ

pub data Parsed : Type 0 where
  stop : Exit → Parsed
  go : Options → List (List ℕ) → Parsed

-- What one argument is: no option, `--format=` with a known or an unknown value, an unknown option, a
-- switch, or an option that takes the next argument.
pub data Token : Type 0 where
  positional : Token
  id_format : IdFormat → Token
  bad_id_format : Token
  unknown : Token
  switch_v switch_h : Token
  with_n with_f : Token

unfoldable pub token : List ℕ → Token
token a =
    if not (get_or a 0 0 == b'-') || get_or a 1 0 == 0
    then positional
    else if get_or a 1 0 == b'-'
    then if strcmp_is_zero (take 9 a) (codes "--format=")
      then elim (parse_idformat (drop 9 a)) [ none ↦ bad_id_format | some f ↦ id_format f ]
      else unknown
    else if not (get_or a 2 0 == 0)
    then unknown
    else if get_or a 1 0 == b'v'
    then switch_v
    else if get_or a 1 0 == b'h'
    then switch_h
    else if get_or a 1 0 == b'n'
    then with_n
    else if get_or a 1 0 == b'f'
    then with_f
    else unknown

unfoldable pub usage : List ℕ → List ℕ
usage argv0 =
    codes "usage: "
    ++ (argv0
        ++ (codes " [-n N] [-f FORMAT] [--format=ID] [-v] [ID ...]\n"
            ++ (codes "  -n N        number of IDs to generate when no args given (default 1)\n"
                ++ (codes "  -f FORMAT   output projection: one of string, inspect, time,\n"
                    ++ (codes "              timestamp, payload, raw (default: string)\n"
                        ++ (codes
                              "              -f payload is KSUID-only; UUIDv7 has no equivalent\n"
                            ++ (codes
                                  "              field, so combining -f payload with a UUIDv7 is an\n"
                                ++ (codes
                                      "              error. Use -f raw for the 16-byte image or -f inspect\n"
                                    ++ (codes "              for rand_a / rand_b.\n"
                                        ++ (codes
                                              "  --format=ID ID format for generation: one of ksuid, uuidv7\n"
                                            ++ (codes "              (default: ksuid)\n"
                                                ++ (codes
                                                      "  -v          prefix each line with the ID and ': '\n"
                                                    ++ (codes "  -h          show this help\n"
                                                        ++ (codes
                                                            "When ID arguments are supplied they are parsed and formatted; the -n\n"
                                                            ++ (codes
                                                            "flag is ignored. Positional args are auto-detected by length: 27 chars\n"
                                                            ++ (codes
                                                            "= KSUID, 36 chars = UUIDv7. A mismatch between --format and a\n"
                                                            ++ codes
                                                            "positional argument's detected format is an error.\n"))))))))))))))))

-- Exit code 1 with a message.
abbrev pub fail : List ℕ → Parsed
fail err = stop (record { code = 1; out = []; err = err })

-- What `-n` and `-f` do with their argument; `inr` is the message of a refusal.
unfoldable pub set_count : Options → List ℕ → Option Options
set_count o val =
    let (v, errno, rest) = strtol val in
    if errno || (not (get_or rest 0 0 == 0) || not (ltb_ℤ (pos 0) v))
    then none
    else elim v [ pos n ↦ some (record o { count = n }) | negsuc _ ↦ none ]

unfoldable pub set_format : Options → List ℕ → Option Options
set_format o val = elim (parse_format val) [ none ↦ none | some f ↦ some (record o { format = f }) ]

module _ (argv0 : List ℕ) where
  abbrev unknown_option : List ℕ → Parsed
  unknown_option a = fail (codes "unknown option: " ++ (a ++ (10 ∷ usage argv0)))

  abbrev missing : ℕ → Parsed
  missing flag = fail (codes "missing argument for -" ++ (flag ∷ 10 ∷ usage argv0))

  -- What the loop does at an option that ends the program, or `rest` behind a switch.
  abbrev pub at_token :
      List ℕ → Token → Options → (Options → Parsed) → Parsed → Parsed → Parsed → Parsed
  at_token a positional o rest here n f = here
  at_token a (id_format g) o rest here n f =
      rest (record o { idformat = g; idformat_explicit = true })
  at_token a bad_id_format o rest here n f =
      fail (codes "unknown id format: " ++ (drop 9 a ++ (10 ∷ [])))
  at_token a unknown o rest here n f = unknown_option a
  at_token a switch_v o rest here n f = rest (record o { verbose = true })
  at_token a switch_h o rest here n f = stop (record { code = 0; out = usage argv0; err = [] })
  at_token a with_n o rest here n f = n
  at_token a with_f o rest here n f = f

  abbrev pub or_fail : Option Options → List ℕ → (Options → Parsed) → Parsed
  or_fail none message rest = fail message
  or_fail (some o) message rest = rest o

  -- The loop over the arguments from `idx` on.
  unfoldable pub parse_options : List (List ℕ) → Options → Parsed
  parse_options [] o = go o []
  parse_options (a ∷ []) o =
      at_token a (token a) o (λ o. go o []) (go o (a ∷ [])) (missing b'n') (missing b'f')
  parse_options (a ∷ val ∷ args) o =
      at_token a (token a) o (parse_options (val ∷ args)) (go o (a ∷ val ∷ args))
        (or_fail (set_count o val) (codes "invalid -n value: " ++ (val ++ (10 ∷ [])))
          (parse_options args))
        (or_fail (set_format o val) (codes "unknown format: " ++ (val ++ (10 ∷ [])))
          (parse_options args))
