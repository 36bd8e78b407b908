-- ===== src/Gen/Echo.antt =====
-- The parse mode of examples/chronoid-gen.c prints the identifiers that it is given.
use libchronoid.Prelude.{
  ℕ, ◌/◌, ◌<◌, ◌≡◌, ◌≢◌, refl, subst, sym, ap, ◌∙◌, ◌⊎◌, inl, inr, List, [], ◌∷◌, ◌++◌, map, true,
  ◌==◌, Option, some, some_eq, ◌>>=◌, arith, length, get_or, AllBelow, All, flatten, not,
}
use libchronoid.Prelude.Tables.{every, every-at}
use libchronoid.Digits.{value, digits, length-digits, digits-AllBelow}
use libchronoid.Arch.{Arch}
use libchronoid.Platform.{Platform}
use libchronoid.Ksuid.Types.{Ksuid, IsKsuid, KsuidErr}
use libchronoid.Ksuid.Base62.Translate.{kb62_alphabet}
use libchronoid.Ksuid.Base62.Tables.{b62_char}
use libchronoid.Ksuid.Base62.Encode.{base62_encode-digits}
use libchronoid.Ksuid.Id.{ksuid_format, ksuid_parse}
use libchronoid.Ksuid.Id.Text.{ksuid_parse-ksuid_format}
use libchronoid.Uuidv7.Types.{Uuidv7, IsUuidv7, Uuidv7Err}
use libchronoid.Uuidv7.Hex.{hex_lower}
use libchronoid.Uuidv7.Hex.Encode.{hex_char, hex_text}
use libchronoid.Uuidv7.Id.{uuidv7_format, uuidv7_parse}
use libchronoid.Uuidv7.Id.Text.{uuidv7_parse-uuidv7_format, format-hex_text}
use libchronoid.Gen.Stdio.{Calendar}
use libchronoid.Gen.Print.{
  ksuid, uuidv7, print_one_ksuid, print_string, print_one_uuidv7, print_string_uuidv7,
}
use libchronoid.Gen.Options.{defaults, Exit, parse_options, token, positional, go}
use libchronoid.Gen.Main.{
  Stack, detect, parse_arg, with_format, print_ksuid, print_uuidv7, parse_args, and_then, main, run,
}

-- The sizes of the arrays on the stack.
pub record IsStack (stack : Stack) : Type 0 where
  pub text_ksuid : length stack.s_ksuid ≡ 27
  pub text_uuidv7 : length stack.s_uuidv7 ≡ 36
  pub valid_ksuid : IsKsuid stack.id_ksuid
  pub valid_uuidv7 : IsUuidv7 stack.id_uuidv7
  pub decoded_ksuid : length stack.tmp_ksuid.b ≡ 20
  pub decoded_uuidv7 : length stack.tmp_uuidv7 ≡ 16
  pub drawn_ksuid : length stack.payload_ksuid ≡ 16

ksuid_table : every 62 (λ d. not (b62_char d == b'-')) ≡ true
unfolding every b62_char kb62_alphabet
ksuid_table = refl

uuidv7_table : every 16 (λ d. not (hex_char d == b'-')) ≡ true
unfolding every hex_lower
uuidv7_table = refl

-- No digit is the hyphen that an option starts with.
b62_char-ne : (d : ℕ) → d < 62 → b62_char d ≢ b'-'
b62_char-ne d h e = ground (arith, every-at 62 (λ d. not (b62_char d == b'-')) d ksuid_table h)

hex_char-ne : (d : ℕ) → d < 16 → hex_char d ≢ b'-'
hex_char-ne d h e = ground (arith, every-at 16 (λ d. not (hex_char d == b'-')) d uuidv7_table h)

first_digit : (ds : List ℕ) → length ds ≡ 27 → AllBelow 62 ds → get_or (map b62_char ds) 0 0 ≢ b'-'
first_digit [] size h = absurd (omega arith)
first_digit (d ∷ ds) size h = b62_char-ne d h.0

first_nibble : (bs : List ℕ) → length bs ≡ 16 → AllBelow 256 bs → get_or (hex_text bs) 0 0 ≢ b'-'
first_nibble [] size h = absurd (omega arith)
first_nibble (b ∷ bs) size h = hex_char-ne (b / 16) (omega (arith, h.0))

not_option : (a : List ℕ) → get_or a 0 0 ≢ b'-' → token a ≡ positional
unfolding token
not_option a h = ground arith

at_27 : (arg : List ℕ) → length arg ≡ 27 → detect arg ≡ some ksuid
unfolding detect
at_27 arg size = rw size refl

at_36 : (arg : List ℕ) → length arg ≡ 36 → detect arg ≡ some uuidv7
unfolding detect
at_36 arg size = rw size refl

abbrev printing : List ℕ → List ℕ ⊎ Exit
printing s = inl s

-- A line for each argument.
abbrev pub lines : List (List ℕ) → List ℕ
lines args = flatten (map (λ a. a ++ 10 ∷ []) args)

abbrev pub printed_all : List (List ℕ) → Exit
printed_all args = record { code = 0; out = lines args; err = [] }

module _ {W Tm : Type 0} (platform : Platform W) (calendar : Calendar Tm) (arch : Arch)
    (stack : Stack) (valid : IsStack stack) where
  -- The text of a KSUID or of a UUID.
  abbrev pub IsText : List ℕ → Type 0
  IsText arg =
      ((id : Ksuid) × IsKsuid id × (ksuid_format id stack.s_ksuid ≡ some arg))
      ⊎ ((id : Uuidv7) × IsUuidv7 id × (uuidv7_format arch id stack.s_uuidv7 ≡ arg))

  IsText-first : (arg : List ℕ) → IsText arg → get_or arg 0 0 ≢ b'-'
  unfolding ksuid_format
  IsText-first arg (inl (id, h, e)) =
      subst (λ s. get_or s 0 0 ≢ b'-')
        (some_eq (sym (base62_encode-digits stack.s_ksuid id.b valid.text_ksuid h) ∙ e))
        (first_digit (digits 62 27 (value 256 id.b)) (length-digits 62 27 (value 256 id.b))
          (digits-AllBelow 62 27 (value 256 id.b) (omega arith)))
  IsText-first arg (inr (id, h, e)) =
      subst (λ s. get_or s 0 0 ≢ b'-')
        (sym (format-hex_text arch id stack.s_uuidv7 h valid.text_uuidv7) ∙ e)
        (first_nibble id.b h.size h.bytes)

  printed :
      (arg : List ℕ) (id : Ksuid)
      → length arg ≡ 27
      → ksuid_parse arch stack.tmp_ksuid stack.id_ksuid arg 27 ≡ (KsuidErr.ok, id)
      → ksuid_format id stack.s_ksuid ≡ some arg
      → parse_arg platform calendar arch stack defaults arg ≡ some (inl (arg ++ 10 ∷ []))
  unfolding parse_arg print_one_ksuid print_string
  printed arg id size parsed e =
      ap (with_format platform calendar arch stack defaults arg) (at_27 arg size)
      ∙ ap
          (λ n.
            print_ksuid platform calendar arch stack defaults arg
              (ksuid_parse arch stack.tmp_ksuid stack.id_ksuid arg n))
          size
      ∙ ap (print_ksuid platform calendar arch stack defaults arg) parsed
      ∙ ap
          (λ (m : Option (List ℕ)). (m >>= (λ s. some (s ++ 10 ∷ []))) >>= (λ s. some (printing s)))
          e

  printed_uuidv7 :
      (arg : List ℕ) (id : Uuidv7)
      → length arg ≡ 36
      → uuidv7_parse stack.id_uuidv7 stack.tmp_uuidv7 arg 36 ≡ (Uuidv7Err.ok, id)
      → uuidv7_format arch id stack.s_uuidv7 ≡ arg
      → parse_arg platform calendar arch stack defaults arg ≡ some (inl (arg ++ 10 ∷ []))
  unfolding parse_arg print_one_uuidv7 print_string_uuidv7
  printed_uuidv7 arg id size parsed e =
      ap (with_format platform calendar arch stack defaults arg) (at_36 arg size)
      ∙ ap
          (λ n. some (
            print_uuidv7 platform calendar arch stack defaults arg
              (uuidv7_parse stack.id_uuidv7 stack.tmp_uuidv7 arg n)))
          size
      ∙ ap (λ r. some (print_uuidv7 platform calendar arch stack defaults arg r)) parsed
      ∙ ap (λ s. some (printing (s ++ 10 ∷ []))) e

  parse_arg-IsText :
      (arg : List ℕ)
      → IsText arg
      → parse_arg platform calendar arch stack defaults arg ≡ some (inl (arg ++ 10 ∷ []))
  parse_arg-IsText arg (inl (id, h, e)) =
      let (s, formatted, array, parsed) =
        ksuid_parse-ksuid_format arch id stack.tmp_ksuid stack.id_ksuid stack.s_ksuid h
          valid.decoded_ksuid valid.text_ksuid in
      let same : s ≡ arg = some_eq (sym formatted ∙ e) in
      printed arg id (ap length (sym same) ∙ array.size)
        (ap (λ t. ksuid_parse arch stack.tmp_ksuid stack.id_ksuid t 27) (sym same) ∙ parsed) e
  parse_arg-IsText arg (inr (id, h, e)) =
      let (array, parsed) =
        uuidv7_parse-uuidv7_format arch stack.id_uuidv7 id stack.tmp_uuidv7 stack.s_uuidv7
          valid.valid_uuidv7 h valid.decoded_uuidv7 valid.text_uuidv7 in
      printed_uuidv7 arg id (ap length (sym e) ∙ array.size)
        (ap (λ t. uuidv7_parse stack.id_uuidv7 stack.tmp_uuidv7 t 36) (sym e) ∙ parsed) e

  parse_args-lines :
      (args : List (List ℕ))
      → All IsText args
      → parse_args platform calendar arch stack defaults args ≡ some (printed_all args)
  unfolding parse_args
  parse_args-lines [] h = refl
  parse_args-lines (arg ∷ args) h =
      ap
        (λ m. m >>= (λ r.
          and_then platform calendar arch stack r
            (parse_args platform calendar arch stack defaults args)))
        (parse_arg-IsText arg h.0)
      ∙ ap (λ m. and_then platform calendar arch stack (inl (arg ++ 10 ∷ [])) m)
          (parse_args-lines args h.1)

  started :
      (argv0 arg : List ℕ) (args : List (List ℕ))
      → token arg ≡ positional
      → parse_options argv0 (arg ∷ args) defaults ≡ go defaults (arg ∷ args)
  unfolding parse_options
  started argv0 arg [] e = rw e refl
  started argv0 arg (val ∷ args) e = rw e refl

  -- On every build, arguments that are the texts of valid KSUIDs and UUIDs, in any order, are
  -- printed by `main` as they are, one to a line, and the exit code is 0, provided that the arrays
  -- on its stack have the sizes that it declares.
  pub main-lines :
      (argv0 arg : List ℕ) (args : List (List ℕ)) (w : W)
      → All IsText (arg ∷ args)
      → main platform calendar arch stack argv0 (arg ∷ args) w ≡ some (printed_all (arg ∷ args), w)
  unfolding main
  main-lines argv0 arg args w h =
      ap (λ p. run platform calendar arch stack p w)
        (started argv0 arg args (not_option arg (IsText-first arg h.0)))
      ∙ ap (λ m. m >>= (λ e. some (e, w))) (parse_args-lines (arg ∷ args) h)
