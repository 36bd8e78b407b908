-- ===== src/Gen/Exits.antt =====
-- The ends of the option parser of examples/chronoid-gen.c.
use libchronoid.Prelude.{
  ℕ, ◌<◌, ◌≡◌, ◌≢◌, refl, ◌⊎◌, inl, inr, List, [], ◌∷◌, Option, none, some, arith, All, AllBelow,
}
use libchronoid.Gen.Options.{
  Options, Exit, Parsed, stop, go, parse_options, at_token, or_fail, token, Token, positional,
  id_format, bad_id_format, unknown, switch_v, switch_h, with_n, with_f, set_count, set_format,
}

-- Code 0 and nothing on the standard error, or another code and a message.
abbrev pub IsExit : Exit → Type 0
IsExit e = ((e.code ≡ 0) × (e.err ≡ [])) ⊎ ((0 < e.code) × (e.err ≢ []))

abbrev pub Stops : Parsed → Type 0
Stops (stop e) = IsExit e × ((0 < e.code) → e.out ≡ [])
Stops (go o args) = All (AllBelow 256) args

at_token-Stops :
    (argv0 a : List ℕ) (t : Token) (o : Options) (rest : Options → Parsed) (here n f : Parsed)
    → ((o : Options) → Stops (rest o))
    → Stops here
    → Stops n
    → Stops f
    → Stops (at_token argv0 a t o rest here n f)
at_token-Stops argv0 a positional o rest here n f r h hn hf = h
at_token-Stops argv0 a (id_format g) o rest here n f r h hn hf = r _
at_token-Stops argv0 a bad_id_format o rest here n f r h hn hf =
    (inr (omega arith, λ e. ground arith), λ _. refl)
at_token-Stops argv0 a unknown o rest here n f r h hn hf =
    (inr (omega arith, λ e. ground arith), λ _. refl)
at_token-Stops argv0 a switch_v o rest here n f r h hn hf = r _
at_token-Stops argv0 a switch_h o rest here n f r h hn hf =
    (inl (refl, refl), λ e. absurd (omega arith))
at_token-Stops argv0 a with_n o rest here n f r h hn hf = hn
at_token-Stops argv0 a with_f o rest here n f r h hn hf = hf

or_fail-Stops :
    (argv0 : List ℕ) (r : Option Options) (c : ℕ) (message : List ℕ) (rest : Options → Parsed)
    → ((o : Options) → Stops (rest o))
    → Stops (or_fail argv0 r (c ∷ message) rest)
or_fail-Stops argv0 none c message rest h = (inr (omega arith, λ e. ground arith), λ _. refl)
or_fail-Stops argv0 (some o) c message rest h = h o

-- Where the option parser ends the program it does so with an exit code, and a message exactly where
-- this is not 0, and then with nothing on the standard output. Else it leaves arguments.
pub parse_options-Stops :
    (argv0 : List ℕ) (args : List (List ℕ)) (o : Options)
    → All (AllBelow 256) args
    → Stops (parse_options argv0 args o)
unfolding parse_options
parse_options-Stops argv0 [] o h = tt
parse_options-Stops argv0 (a ∷ []) o h =
    at_token-Stops argv0 a (token a) o _ _ _ _ (λ o. tt) h
      (inr (omega arith, λ e. ground arith), λ _. refl)
      (inr (omega arith, λ e. ground arith), λ _. refl)
parse_options-Stops argv0 (a ∷ val ∷ args) o h =
    at_token-Stops argv0 a (token a) o _ _ _ _ (λ o. parse_options-Stops argv0 (val ∷ args) o h.1) h
      (or_fail-Stops argv0 (set_count o val) _ _ _ (λ o. parse_options-Stops argv0 args o h.1.1))
      (or_fail-Stops argv0 (set_format o val) _ _ _ (λ o. parse_options-Stops argv0 args o h.1.1))
