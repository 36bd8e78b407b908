-- ===== src/Gen/Generate.antt =====
-- The generation mode of examples/chronoid-gen.c.
use libchronoid.Prelude.{
  ℕ, zero, suc, ◌^◌, ◌<◌, ◌≡◌, refl, ap, ◌∙◌, List, [], ◌∷◌, ◌++◌, map, Option, some, ◌>>=◌, arith,
  length, All, flatten,
}
use libchronoid.Prelude.Int.{pos}
use libchronoid.Prelude.Tables.{codes}
use libchronoid.Arch.{Arch}
use libchronoid.Platform.{Platform, Timespec}
use libchronoid.Ksuid.Types.{Ksuid, IsKsuid}
use libchronoid.Ksuid.Id.{ksuid_format}
use libchronoid.Ksuid.Id.Parts.{InEpoch}
use libchronoid.Ksuid.Id.Generate.{ksuid_new-clock}
use libchronoid.Ksuid.Base62.Encode.{base62_encode-digits}
use libchronoid.Ksuid.Batch.Agree.{text}
use libchronoid.Gen.Stdio.{Calendar, print_u}
use libchronoid.Gen.Numbers.{strtol-print_u}
use libchronoid.Gen.Print.{print_one_ksuid, print_string}
use libchronoid.Gen.Options.{Options, defaults, Exit, parse_options, go, token, set_count, or_fail}
use libchronoid.Gen.Main.{Stack, generate_ksuid, ksuid_round, main, run, after_output}
use libchronoid.Gen.Echo.{IsStack}

-- A random source that never fails, and a clock that is always within the KSUID epoch.
pub record Works {W : Type 0} (platform : Platform W) : Type 0 where
  pub random : (buf : List ℕ) (n : ℕ) (w : W) → (platform.fill_random buf n w).0 ≡ pos 0
  pub clock :
      (w : W)
      → (ts : Timespec) × (t : ℕ) × ((platform.timespec_get w).0 ≡ some ts)
        × (ts.tv_sec ≡ pos t)
        × InEpoch (pos t)

-- A line for each identifier.
abbrev pub lines : List Ksuid → List ℕ
lines ids = flatten (map (λ id. text id ++ 10 ∷ []) ids)

abbrev pub wrote : List Ksuid → Exit
wrote ids = record { code = 0; out = lines ids; err = [] }

module _ {W Tm : Type 0} (platform : Platform W) (calendar : Calendar Tm) (arch : Arch)
    (stack : Stack) (valid : IsStack stack) (works : Works platform) where
  abbrev plain : ℕ → Options
  plain n = record defaults { count = n }

  printed :
      (k : ℕ) (id : Ksuid)
      → IsKsuid id
      → print_one_ksuid calendar stack.s_ksuid (plain k).format id (plain k).verbose
        ≡ some (text id ++ 10 ∷ [])
  unfolding print_one_ksuid print_string ksuid_format
  printed k id h =
      ap (λ (m : Option (List ℕ)). m >>= (λ s. some (s ++ 10 ∷ [])))
        (base62_encode-digits stack.s_ksuid id.b valid.text_ksuid h)

  generate_ksuid-lines :
      (n k : ℕ) (w : W)
      → (ids : List Ksuid) × (w' : W) × (length ids ≡ n)
        × All IsKsuid ids
        × (generate_ksuid platform calendar arch stack n (plain k) w ≡ some (wrote ids, w'))
  unfolding generate_ksuid
  generate_ksuid-lines zero k w = ([], w, refl, tt, refl)
  generate_ksuid-lines (suc n) k w =
      let (ts, t, read, sec, epoch) = works.clock w in
      let (id, made, h, _, _) =
        ksuid_new-clock platform stack.payload_ksuid stack.id_ksuid w t ts read sec epoch
          valid.valid_ksuid valid.drawn_ksuid
          (works.random stack.payload_ksuid 16 (platform.timespec_get w).1) in
      let w1 = (platform.fill_random stack.payload_ksuid 16 (platform.timespec_get w).1).2 in
      let (ids, w', count, all, rest) = generate_ksuid-lines n k w1 in
      (
        id ∷ ids,
        w',
        ap suc count,
        (h, all),
        ap
              (λ m.
                m
                >>= ksuid_round platform calendar arch stack (plain k)
                    (generate_ksuid platform calendar arch stack n (plain k)))
              made
            ∙ ap
                (λ (m : Option (List ℕ)). m >>= (λ s.
                  generate_ksuid platform calendar arch stack n (plain k) w1
                  >>= (λ (r : Exit × W). some (after_output s r.0, r.1))))
                (printed k id h)
            ∙ ap
                (λ (m : Option (Exit × W)).
                  m >>= (λ (r : Exit × W). some (after_output (text id ++ 10 ∷ []) r.0, r.1)))
                rest,
      )

  set_count-print_u : (n : ℕ) → 0 < n → n < 2 ^ 63 → set_count defaults (print_u n) ≡ some (plain n)
  unfolding set_count
  set_count-print_u n some_id lt = rw (strtol-print_u n lt, set_count) (ground arith)

  counted :
      (argv0 : List ℕ) (n : ℕ)
      → 0 < n
      → n < 2 ^ 63
      → parse_options argv0 (codes "-n" ∷ print_u n ∷ []) defaults ≡ go (plain n) []
  unfolding parse_options token
  counted argv0 n some_id lt =
      ap
        (λ r.
          or_fail argv0 r (codes "invalid -n value: " ++ (print_u n ++ (10 ∷ [])))
            (parse_options argv0 []))
        (set_count-print_u n some_id lt)

  -- With `-n` and a count from 1 to 2 ^ 63 - 1, `main` ends with exit code 0 and nothing on the
  -- standard error after the texts of that many valid KSUIDs, one to a line, provided that the
  -- random source always returns 0, that the clock is always within the KSUID epoch, and that the
  -- arrays on its stack have the sizes that it declares.
  pub main-count :
      (argv0 : List ℕ) (n : ℕ) (w : W)
      → 0 < n
      → n < 2 ^ 63
      → (ids : List Ksuid) × (w' : W) × (length ids ≡ n)
        × All IsKsuid ids
        × (main platform calendar arch stack argv0 (codes "-n" ∷ print_u n ∷ []) w
            ≡ some (wrote ids, w'))
  unfolding main
  main-count argv0 n w some_id lt =
      let (ids, w', count, all, ran) = generate_ksuid-lines n n w in
      (
        ids,
        w',
        count,
        all,
        ap (λ p. run platform calendar arch stack p w) (counted argv0 n some_id lt) ∙ ran,
      )
