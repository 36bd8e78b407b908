-- ===== src/Tests/Samples.antt =====
-- Identifiers, buffers and surroundings for the tests.
use libchronoid.Prelude.{
  ℕ, suc, ◌+◌, ◌%◌, ◌<◌, ◌≢◌, refl, some, arith, length-replicate, replicate, IsArray,
}
use libchronoid.Prelude.Int.{pos, negsuc}
use libchronoid.Prelude.Tables.{count_from, AllBelow-tested, AllBelow-replicate}
use libchronoid.Platform.{Platform}
use libchronoid.Ksuid.Types.{Ksuid, IsKsuid}
use libchronoid.Uuidv7.Types.{Uuidv7, IsUuidv7}
use libchronoid.Uuidv7.Sequence.{Sequence}
use libchronoid.Uuidv7.Sequence.Step.{IsSequence}

-- 07 08 .. 1a, and 20 zero bytes.
abbrev pub id_a : Ksuid
id_a = record { b = count_from 7 20 }

abbrev pub id_0 : Ksuid
id_0 = record { b = replicate 20 0 }

pub id_a-IsKsuid : IsKsuid id_a
id_a-IsKsuid = record { size = refl; bytes = AllBelow-tested 256 (count_from 7 20) refl }

pub id_0-IsKsuid : IsKsuid id_0
id_0-IsKsuid = record { size = refl; bytes = AllBelow-tested 256 (replicate 20 0) refl }

-- 09 0a .. 18, and 16 zero bytes.
abbrev pub uuid_a : Uuidv7
uuid_a = record { b = count_from 9 16 }

abbrev pub uuid_0 : Uuidv7
uuid_0 = record { b = replicate 16 0 }

pub uuid_a-IsUuidv7 : IsUuidv7 uuid_a
uuid_a-IsUuidv7 = record { size = refl; bytes = AllBelow-tested 256 (count_from 9 16) refl }

pub uuid_0-IsUuidv7 : IsUuidv7 uuid_0
uuid_0-IsUuidv7 = record { size = refl; bytes = AllBelow-tested 256 (replicate 16 0) refl }

pub bytes : (n k : ℕ) → k < 256 → IsArray n (replicate n k)
bytes n k h = record { size = length-replicate n k; bytes = AllBelow-replicate 256 n k h }

-- Surroundings whose state counts the calls: a source of one byte, repeated, a clock that goes on
-- by a millisecond with each call, and a calendar clock.
abbrev pub steady : Platform ℕ
steady = record {
  fill_random = λ buf n w. (pos 0, replicate n (w % 256), suc w);
  now_ms = λ w. (pos (1700000000000 + w), suc w);
  timespec_get = λ w. (some (record { tv_sec = pos 1700000000; tv_nsec = 0 }), suc w);
  fills = λ buf n w size rc. bytes n (w % 256) (omega arith);
}

pub not_zero : negsuc 0 ≢ pos 0
not_zero e = ground (arith, e)

-- Surroundings in which everything fails.
abbrev pub broken : Platform ℕ
broken = record {
  fill_random = λ buf n w. (negsuc 0, buf, suc w);
  now_ms = λ w. (negsuc 0, suc w);
  timespec_get = λ w. (some (record { tv_sec = pos 0; tv_nsec = 0 }), suc w);
  fills = λ buf n w size rc. absurd (not_zero rc);
}

abbrev pub sequence_a : Sequence
sequence_a = record { last_ms = pos 1700000000000; counter = 17; rand_b = replicate 8 3 }

abbrev pub sequence_a-IsSequence : IsSequence sequence_a
sequence_a-IsSequence = record {
  ms = 1700000000000;
  time = refl;
  range = omega arith;
  counted = omega arith;
  tail = bytes 8 3 (omega arith);
}
