-- ===== src/Tests/Batch.antt =====
-- The theorems on the batch encoders and their dispatcher.
use libchronoid.Prelude.{
  ℕ, ◌⊎◌, ◌≤◌, ◌==◌, if◌then◌else◌, ◌^◌, ◌*◌, ◌/◌, ◌%◌, ◌≡◌, refl, List, [], ◌∷◌, ◌++◌, some, none,
  true, arith, All, drop, length, map, replicate,
}
use libchronoid.Prelude.Tables.{codes, AllBelow-tested}
use libchronoid.Arch.{sse2}
use libchronoid.Simd.Wide.{set1_epi64x}
use libchronoid.Dispatch.{Host, trampoline, avx2, scalar, gnu, resolve}
use libchronoid.Dispatch.Laws.{after, string_batch-resolve}
use libchronoid.Dispatch.Race.{waiting, returned, run_interleaved, count}
use libchronoid.Ksuid.Batch.Race.{run_interleaved-texts}
use libchronoid.Dispatch.Choice.{Chooses, string_batch-Chooses}
use libchronoid.Ksuid.Types.{Ksuid, IsKsuid}
use libchronoid.Ksuid.Batch.{
  ksuid_string_batch, ksuid_string_batch_avx2, ksuid_string_batch_scalar, divmod62_avx2, div62_m,
}
use libchronoid.Ksuid.Batch.Agree.{texts}
use libchronoid.Ksuid.Batch.Divide.{divmod62_avx2_lem}
use libchronoid.Ksuid.Batch.Kernels.{
  ksuid_string_batch-texts, ksuid_string_batch_avx2-ksuid_string_batch_scalar,
}
use libchronoid.Uuidv7.Types.{Uuidv7, IsUuidv7}
use libchronoid.Uuidv7.Batch.{uuidv7_string_batch}
use libchronoid.Uuidv7.Batch.Kernels
use libchronoid.Uuidv7.Batch.Texts.{uuidv7_string_batch-texts}
use libchronoid.Tests.Samples.{
  id_a, id_0, id_a-IsKsuid, id_0-IsKsuid, uuid_a, uuid_0, uuid_a-IsUuidv7, uuid_0-IsUuidv7,
}

-- A build with the AVX2 kernels on a processor that has it, and the same with the variable set.
abbrev host : Host
host = record { has_avx2 = true; force_scalar = none; cpu = gnu true (some 0x20) }

abbrev forced : Host
forced = record { has_avx2 = true; force_scalar = some (codes "1"); cpu = gnu true (some 0x20) }

-- Nine KSUIDs, one more than the AVX2 kernel takes at once, and room for them.
abbrev nine : List Ksuid
nine = id_a ∷ id_0 ∷ id_a ∷ id_a ∷ id_0 ∷ id_0 ∷ id_a ∷ id_0 ∷ id_a ∷ []

nine-IsKsuid : All IsKsuid nine
nine-IsKsuid = (
  id_a-IsKsuid,
  (
    id_0-IsKsuid,
    (
      id_a-IsKsuid,
      (
        id_a-IsKsuid,
        (id_0-IsKsuid, (id_0-IsKsuid, (id_a-IsKsuid, (id_0-IsKsuid, (id_a-IsKsuid, tt))))),
      ),
    ),
  ),
)

abbrev room : List ℕ
room = replicate 250 0

ksuid_string_batch-texts_example :
    (ksuid_string_batch host trampoline nine room).0
    ≡ some (texts nine ++ drop (27 * length nine) room)
ksuid_string_batch-texts_example =
    ksuid_string_batch-texts host trampoline nine room nine-IsKsuid (omega arith)

ksuid_string_batch_avx2-ksuid_string_batch_scalar_example :
    (s : List ℕ) × (ksuid_string_batch_avx2 nine room ≡ some s)
    × (ksuid_string_batch_scalar nine room ≡ some s)
ksuid_string_batch_avx2-ksuid_string_batch_scalar_example =
    ksuid_string_batch_avx2-ksuid_string_batch_scalar nine room nine-IsKsuid (omega arith)

abbrev lanes : List ℕ
lanes = 0xffffffffffffffff ∷ 61 ∷ 62 ∷ 0x8000000000000000 ∷ []

divmod62_avx2_lem_example :
    divmod62_avx2 lanes (set1_epi64x div62_m) ≡ (map (λ x. x / 62) lanes, map (λ x. x % 62) lanes)
divmod62_avx2_lem_example = divmod62_avx2_lem lanes refl (AllBelow-tested (2 ^ 64) lanes refl)

abbrev calls : List (Host × List Ksuid × List ℕ)
calls = (host, nine, room) ∷ (forced, nine, room) ∷ []

string_batch-resolve_example :
    after ksuid_string_batch_scalar ksuid_string_batch_avx2 trampoline
      ((forced, nine, room) ∷ calls)
    ≡ resolve forced
string_batch-resolve_example =
    string_batch-resolve ksuid_string_batch_scalar ksuid_string_batch_avx2 forced nine room calls
      (omega arith)

string_batch-Chooses_example :
    (Chooses host
      × (after ksuid_string_batch_scalar ksuid_string_batch_avx2 trampoline
            ((host, nine, room) ∷ calls)
          ≡ avx2))
    ⊎ ((¬ Chooses host)
        × (after ksuid_string_batch_scalar ksuid_string_batch_avx2 trampoline
              ((host, nine, room) ∷ calls)
            ≡ scalar))
string_batch-Chooses_example =
    string_batch-Chooses ksuid_string_batch_scalar ksuid_string_batch_avx2 host nine room calls
      (omega arith)

-- Two threads that make the first calls at the same time, with different surroundings.
abbrev at_once : ℕ → Host × List Ksuid × List ℕ
at_once i = if i == 0 then (host, nine, room) else (forced, nine, room)

abbrev schedule : List ℕ
schedule = 0 ∷ 1 ∷ 1 ∷ 0 ∷ 0 ∷ 1 ∷ []

turns : 3 ≤ count 0 schedule
unfolding count
turns = omega arith

run_interleaved-texts_example :
    (run_interleaved ksuid_string_batch_scalar ksuid_string_batch_avx2 at_once schedule trampoline
        (λ _. waiting)).1
      0
    ≡ returned (some (texts nine ++ drop (27 * length nine) room))
run_interleaved-texts_example =
    run_interleaved-texts at_once 0 schedule trampoline nine-IsKsuid (omega arith) turns

-- Five UUIDs, one more than the AVX2 kernel takes at once.
abbrev five : List Uuidv7
five = uuid_a ∷ uuid_0 ∷ uuid_a ∷ uuid_a ∷ uuid_0 ∷ []

five-IsUuidv7 : All IsUuidv7 five
five-IsUuidv7 = (
  uuid_a-IsUuidv7,
  (uuid_0-IsUuidv7, (uuid_a-IsUuidv7, (uuid_a-IsUuidv7, (uuid_0-IsUuidv7, tt)))),
)

uuidv7_string_batch-texts_example :
    (uuidv7_string_batch sse2 (replicate 128 0) host trampoline five room).0
    ≡ some (Kernels.texts five ++ drop (36 * length five) room)
uuidv7_string_batch-texts_example =
    uuidv7_string_batch-texts sse2 (replicate 128 0) five room refl five-IsUuidv7 (omega arith) host
      trampoline
