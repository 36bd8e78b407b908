-- ===== src/Ksuid/Batch/Race.antt =====
-- `chronoid_ksuid_string_batch` called by several threads at the same time.
use libchronoid.Prelude.{ℕ, ◌*◌, ◌≤◌, ◌≡◌, refl, List, some, length, drop, ◌++◌, All}
use libchronoid.Dispatch.{Kernel, Host}
use libchronoid.Dispatch.Race.{waiting, returned, run_interleaved, count, run_interleaved-returned}
use libchronoid.Ksuid.Types.{Ksuid, IsKsuid}
use libchronoid.Ksuid.Batch.{ksuid_string_batch_scalar, ksuid_string_batch_avx2}
use libchronoid.Ksuid.Batch.Agree.{texts, ksuid_string_batch_scalar-texts}
use libchronoid.Ksuid.Batch.Kernels.{ksuid_string_batch_avx2-texts}

-- Where several threads call `chronoid_ksuid_string_batch` at the same time, whatever the pointer
-- holds, whatever each finds in its surroundings, and however their loads and stores of the pointer
-- fall, a call with valid identifiers and room for their texts has returned after three steps of
-- its own, with their base62 digits in turn in its output and the rest of it left alone.
pub run_interleaved-texts :
    (calls : ℕ → Host × List Ksuid × List ℕ) (i : ℕ) (schedule : List ℕ) (impl : Kernel)
    → All IsKsuid (calls i).1
    → 27 * length (calls i).1 ≤ length (calls i).2
    → 3 ≤ count i schedule
    → (run_interleaved ksuid_string_batch_scalar ksuid_string_batch_avx2 calls schedule impl
          (λ _. waiting)).1
        i
      ≡ returned (some (texts (calls i).1 ++ drop (27 * length (calls i).1) (calls i).2))
unfolding ksuid_string_batch_scalar
run_interleaved-texts calls i schedule impl h size steps =
    run_interleaved-returned ksuid_string_batch_scalar ksuid_string_batch_avx2 calls i _
      (λ out. refl) (ksuid_string_batch_scalar-texts (calls i).1 (calls i).2 h size)
      (ksuid_string_batch_avx2-texts (calls i).1 (calls i).2 h size) schedule impl (λ _. waiting) tt
      steps
