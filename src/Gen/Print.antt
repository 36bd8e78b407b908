-- ===== src/Gen/Print.antt =====
-- The output projections of examples/chronoid-gen.c. A function that prints gives what it prints.
use libchronoid.Prelude.{
  ℕ, zero, suc, ◌-◌, ◌/◌, ◌%◌, List, [], ◌∷◌, ◌++◌, Bool, Option, none, some, ◌>>=◌, ltb,
  if◌then◌else◌, take, drop, get_or, bit_and, bit_or, u16, ◌<<◌, ◌>>◌,
}
use libchronoid.Prelude.Int.{ℤ, pos, negsuc}
use libchronoid.Prelude.Tables.{codes}
use libchronoid.Memory.{strcmp_is_zero}
use libchronoid.Arch.{Arch}
use libchronoid.Ksuid.Types.{Ksuid}
use libchronoid.Ksuid.Id.{ksuid_format, ksuid_time_unix, ksuid_timestamp, ksuid_payload}
use libchronoid.Uuidv7.Types.{Uuidv7}
use libchronoid.Uuidv7.Id.{uuidv7_format, uuidv7_unix_ms, uuidv7_version, uuidv7_variant}
use libchronoid.Gen.Stdio.{print_u, print_d, print_03d, print_03x, Calendar}

-- The FMT_ and the IDFMT_ constants; `none` is the -1 of the functions that read them.
pub data Format : Type 0 where
  string inspect time timestamp payload raw : Format

pub data IdFormat : Type 0 where
  ksuid uuidv7 : IdFormat

unfoldable pub parse_format : List ℕ → Option Format
parse_format s =
    if strcmp_is_zero s (codes "string")
    then some string
    else if strcmp_is_zero s (codes "inspect")
    then some inspect
    else if strcmp_is_zero s (codes "time")
    then some time
    else if strcmp_is_zero s (codes "timestamp")
    then some timestamp
    else if strcmp_is_zero s (codes "payload")
    then some payload
    else if strcmp_is_zero s (codes "raw")
    then some raw
    else none

unfoldable pub parse_idformat : List ℕ → Option IdFormat
parse_idformat s =
    if strcmp_is_zero s (codes "ksuid")
    then some ksuid
    else if strcmp_is_zero s (codes "uuidv7")
    then some uuidv7
    else none

unfoldable pub fputs_hex_upper : List ℕ → List ℕ
fputs_hex_upper [] = []
fputs_hex_upper (b ∷ bytes) =
    get_or (codes "0123456789ABCDEF") (bit_and (b >> 4) 0xf) 0
    ∷ get_or (codes "0123456789ABCDEF") (bit_and b 0xf) 0
    ∷ fputs_hex_upper bytes

abbrev newline : List ℕ
newline = 10 ∷ []

module _ {Tm : Type 0} (calendar : Calendar Tm) where
  unfoldable pub fputs_time_local : ℤ → List ℕ
  fputs_time_local unix_seconds = elim (calendar.localtime_r unix_seconds) [
    | none ↦ print_d unix_seconds
    | some tm ↦ elim (calendar.strftime (codes "%Y-%m-%d %H:%M:%S %z %Z") tm) [
      | [] ↦ print_d unix_seconds
      | c ∷ buf ↦ c ∷ buf
    ]
  ]

  -- The division of C rounds towards zero, so a negative remainder is moved up, and then to the next
  -- lower second.
  unfoldable pub split_ms : ℤ → ℤ × ℕ
  split_ms (pos n) = (pos (n / 1000), n % 1000)
  split_ms (negsuc n) =
      let secs = suc n / 1000 in
      let ms = suc n % 1000 in
      if ltb 0 ms
      then (negsuc secs, 1000 - ms)
      else (elim secs [ zero ↦ pos 0 | suc k ↦ negsuc k ], 0)

  unfoldable pub fputs_time_utc_ms : ℤ → List ℕ
  fputs_time_utc_ms unix_ms =
      let (secs, ms) = split_ms unix_ms in
      elim (calendar.gmtime_r secs) [
        | none ↦ print_d unix_ms
        | some tm ↦ elim (calendar.strftime (codes "%Y-%m-%d %H:%M:%S") tm) [
          | [] ↦ print_d unix_ms
          | c ∷ buf ↦ (c ∷ buf) ++ (b'.' ∷ (print_03d ms ++ codes " +0000 UTC"))
        ]
      ]

  -- `s` is what the buffer for a text held. None of the characters that a text has is NUL.
  unfoldable pub print_string : List ℕ → Ksuid → Option (List ℕ)
  print_string s id = ksuid_format id s >>= (λ s. some (s ++ newline))

  unfoldable pub print_inspect : List ℕ → Ksuid → Option (List ℕ)
  print_inspect s id = ksuid_format id s >>= (λ s. some (
      codes "\nREPRESENTATION:\n\n  String: "
      ++ (s
          ++ (codes "\n     Raw: "
              ++ (fputs_hex_upper id.b
                  ++ (codes "\n\nCOMPONENTS:\n\n       Time: "
                      ++ (fputs_time_local (ksuid_time_unix id)
                          ++ (codes "\n  Timestamp: "
                              ++ (print_u (ksuid_timestamp id)
                                  ++ (codes "\n    Payload: "
                                      ++ (fputs_hex_upper (take 16 (ksuid_payload id))
                                          ++ codes "\n\n")))))))))))

  unfoldable pub print_time : Ksuid → List ℕ
  print_time id = fputs_time_local (ksuid_time_unix id) ++ newline

  unfoldable pub print_timestamp : Ksuid → List ℕ
  print_timestamp id = print_u (ksuid_timestamp id) ++ newline

  -- The standard output is in binary mode.
  unfoldable pub print_payload : Ksuid → List ℕ
  print_payload id = take 16 (ksuid_payload id)

  unfoldable pub print_raw : Ksuid → List ℕ
  print_raw id = take 20 id.b

  abbrev pub projected : List ℕ → Format → Ksuid → Option (List ℕ)
  projected s string id = print_string s id
  projected s inspect id = print_inspect s id
  projected s time id = some (print_time id)
  projected s timestamp id = some (print_timestamp id)
  projected s payload id = some (print_payload id)
  projected s raw id = some (print_raw id)

  unfoldable pub print_one_ksuid : List ℕ → Format → Ksuid → Bool → Option (List ℕ)
  print_one_ksuid s format id verbose =
      if verbose
      then ksuid_format id s
        >>= (λ t. projected s format id >>= (λ p. some (t ++ (codes ": " ++ p))))
      else projected s format id

  module _ (arch : Arch) where
    unfoldable pub print_string_uuidv7 : List ℕ → Uuidv7 → List ℕ
    print_string_uuidv7 s id = uuidv7_format arch id s ++ newline

    unfoldable pub print_inspect_uuidv7 : List ℕ → Uuidv7 → List ℕ
    print_inspect_uuidv7 s id =
        let rand_a_12 =
          u16 (bit_or (u16 (bit_and (get_or id.b 6 0) 0x0f << 8)) (get_or id.b 7 0)) in
        codes "\nREPRESENTATION:\n\n  String: "
        ++ (uuidv7_format arch id s
            ++ (codes "\n     Raw: "
                ++ (fputs_hex_upper (take 16 id.b)
                    ++ (codes "\n\nCOMPONENTS:\n\n       Time: "
                        ++ (fputs_time_utc_ms (uuidv7_unix_ms id)
                            ++ (codes "\n  Timestamp: "
                                ++ (print_d (uuidv7_unix_ms id)
                                    ++ (codes "\n    Version: "
                                        ++ (print_u (uuidv7_version id)
                                            ++ (codes "\n    Variant: 0b"
                                                ++ (print_u (bit_and (uuidv7_variant id >> 1) 1)
                                                    ++ (print_u (bit_and (uuidv7_variant id) 1)
                                                        ++ (codes
                                                            " (RFC 4122 / 9562)\n     rand_a: 0x"
                                                            ++ (print_03x rand_a_12
                                                            ++ (codes "\n     rand_b: "
                                                            ++ (fputs_hex_upper
                                                            (take 8 (drop 8 id.b))
                                                            ++ codes "\n\n"))))))))))))))))

    unfoldable pub print_time_uuidv7 : Uuidv7 → List ℕ
    print_time_uuidv7 id = fputs_time_utc_ms (uuidv7_unix_ms id) ++ newline

    unfoldable pub print_timestamp_uuidv7 : Uuidv7 → List ℕ
    print_timestamp_uuidv7 id = print_d (uuidv7_unix_ms id) ++ newline

    unfoldable pub print_raw_uuidv7 : Uuidv7 → List ℕ
    print_raw_uuidv7 id = take 16 id.b

    abbrev projected_uuidv7 : List ℕ → Format → Uuidv7 → List ℕ
    projected_uuidv7 s string id = print_string_uuidv7 s id
    projected_uuidv7 s inspect id = print_inspect_uuidv7 s id
    projected_uuidv7 s time id = print_time_uuidv7 id
    projected_uuidv7 s timestamp id = print_timestamp_uuidv7 id
    projected_uuidv7 s payload id = []
    projected_uuidv7 s raw id = print_raw_uuidv7 id

    unfoldable pub print_one_uuidv7 : List ℕ → Format → Uuidv7 → Bool → List ℕ
    print_one_uuidv7 s format id verbose =
        if verbose
        then uuidv7_format arch id s ++ (codes ": " ++ projected_uuidv7 s format id)
        else projected_uuidv7 s format id
