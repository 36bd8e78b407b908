-- ===== src/Tests/Gen.antt =====
-- The theorems on the command line tool.
use libchronoid.Prelude.{
  ℕ, subst, some_eq, ◌≡◌, refl, List, [], ◌∷◌, none, some, inl, inr, arith, All, length, replicate,
}
use libchronoid.Prelude.Int.{pos}
use libchronoid.Prelude.Tables.{codes, AllBelow-tested}
use libchronoid.Arch.{sse2}
use libchronoid.ByteOrder.{be32_load}
use libchronoid.Ksuid.Types.{Ksuid, IsKsuid}
use libchronoid.Ksuid.Id.{ksuid_format}
use libchronoid.Ksuid.Base62.{base62_encode, encode_loop, encode_divide}
use libchronoid.Ksuid.Base62.Translate.{kb62_alphabet}
use libchronoid.Uuidv7.Id.{uuidv7_format}
use libchronoid.Gen.Stdio.{Calendar, print_u}
use libchronoid.Gen.Options.{Exit}
use libchronoid.Gen.Main.{Stack, main}
use libchronoid.Gen.Exits.{IsExit}
use libchronoid.Gen.Ends.{IsClock, main-IsExit}
use libchronoid.Platform.{Timespec}
use libchronoid.Ksuid.Id.Generate.{IsDefined}
use libchronoid.Gen.Echo.{IsStack, printed_all, main-lines}
use libchronoid.Gen.Generate.{Works, wrote, main-count}
use libchronoid.Tests.Samples.{
  steady, id_0, id_0-IsKsuid, uuid_a, uuid_0, uuid_a-IsUuidv7, uuid_0-IsUuidv7,
}

-- A calendar without times.
abbrev calendar : Calendar ℕ
calendar = record { localtime_r = λ t. none; gmtime_r = λ t. none; strftime = λ f t. [] }

abbrev stack : Stack
stack = record {
  s_ksuid = replicate 27 0;
  s_uuidv7 = replicate 36 0;
  id_ksuid = id_0;
  id_uuidv7 = uuid_0;
  tmp_ksuid = id_0;
  tmp_uuidv7 = replicate 16 0;
  payload_ksuid = replicate 16 0;
  rnd_uuidv7 = replicate 10 0;
}

stack-IsStack : IsStack stack
stack-IsStack = record {
  text_ksuid = refl;
  text_uuidv7 = refl;
  valid_ksuid = id_0-IsKsuid;
  valid_uuidv7 = uuid_0-IsUuidv7;
  decoded_ksuid = refl;
  decoded_uuidv7 = refl;
  drawn_ksuid = refl;
}

steady-Works : Works steady
steady-Works = record {
  random = λ buf n w. refl;
  clock = λ w. (
    record { tv_sec = pos 1700000000; tv_nsec = 0 },
    1700000000,
    refl,
    refl,
    (omega arith, omega arith),
  );
}

steady-IsClock : IsClock steady
steady-IsClock = record {
  defined = λ w ts e.
      subst (λ (ts : Timespec). IsDefined ts.tv_sec) (some_eq e) (omega arith, omega arith);
}

-- An argument that is no count.
abbrev args : List (List ℕ)
args = codes "-n" ∷ codes "2x" ∷ []

main-IsExit_example :
    (e : Exit) × (w' : ℕ) × (main steady calendar sse2 stack (codes "gen") args 0 ≡ some (e, w'))
    × IsExit e
main-IsExit_example =
    main-IsExit steady calendar sse2 stack stack-IsStack steady-IsClock (codes "gen") args 0
      (AllBelow-tested 256 (codes "-n") refl, (AllBelow-tested 256 (codes "2x") refl, tt))

abbrev uuid_text : List ℕ
uuid_text = uuidv7_format sse2 uuid_a stack.s_uuidv7

abbrev ksuid_text : List ℕ
ksuid_text = replicate 27 b'0'

ksuid_text_lem : ksuid_format id_0 stack.s_ksuid ≡ some ksuid_text
unfolding ksuid_format base62_encode encode_loop encode_divide be32_load kb62_alphabet
ksuid_text_lem = refl

main-lines_example :
    main steady calendar sse2 stack (codes "gen") (uuid_text ∷ ksuid_text ∷ []) 0
    ≡ some (printed_all (uuid_text ∷ ksuid_text ∷ []), 0)
main-lines_example =
    main-lines steady calendar sse2 stack stack-IsStack (codes "gen") uuid_text (ksuid_text ∷ []) 0
      (inr (uuid_a, uuid_a-IsUuidv7, refl), (inl (id_0, id_0-IsKsuid, ksuid_text_lem), tt))

main-count_example :
    (ids : List Ksuid) × (w' : ℕ) × (length ids ≡ 3)
    × All IsKsuid ids
    × (main steady calendar sse2 stack (codes "gen") (codes "-n" ∷ print_u 3 ∷ []) 0
        ≡ some (wrote ids, w'))
main-count_example =
    main-count steady calendar sse2 stack stack-IsStack steady-Works (codes "gen") 3 0 (omega arith)
      (omega arith)
