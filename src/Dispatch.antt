-- ===== src/Dispatch.antt =====
-- The choice of a batch kernel at run time, as chronoid/ksuid/encode_batch.c makes it, and
-- chronoid/uuidv7/hex_batch.c with the same code.
pub mod Laws
pub mod Choice
pub mod Race
use libchronoid.Prelude.{
  ℕ, List, [], ◌∷◌, Bool, true, false, not, Option, none, some, ◌==◌, ◌&&◌, ◌||◌, if◌then◌else◌,
  length, bit_and,
}
use libchronoid.Prelude.Tables.{codes}
use libchronoid.Memory.{strcmp_is_zero}

-- The kernel that the atomic pointer holds; at first the trampoline.
pub data Kernel : Type 0 where
  trampoline scalar avx2 : Kernel

-- What the compiler's detection gives: with `__builtin_cpu_supports` the result of this and the
-- register EBX of leaf 7, if the leaf is there; with MSVC the register EBX and the result of XGETBV.
pub data Cpu : Type 0 where
  gnu : Bool → Option ℕ → Cpu
  msvc : ℕ → ℕ → Cpu
  other : Cpu

-- The surroundings of a call: whether the build has the kernel, the environment variable
-- CHRONOID_FORCE_SCALAR, and the processor.
pub record Host : Type 0 where
  pub has_avx2 : Bool
  pub force_scalar : Option (List ℕ)
  pub cpu : Cpu

unfoldable pub cpu_supports_avx2 : Cpu → Bool
cpu_supports_avx2 (gnu false leaf) = false
cpu_supports_avx2 (gnu true none) = false
cpu_supports_avx2 (gnu true (some ebx)) = not (bit_and ebx 0x20 == 0)
cpu_supports_avx2 (msvc ebx xcr) = if bit_and ebx 0x20 == 0 then false else bit_and xcr 6 == 6
cpu_supports_avx2 other = false

-- The variable's value, without its NUL.
unfoldable pub force_scalar_env : Option (List ℕ) → Bool
force_scalar_env none = false
force_scalar_env (some []) = false
force_scalar_env (some (c ∷ v)) =
    if strcmp_is_zero (c ∷ v) (codes "0")
      || (strcmp_is_zero (c ∷ v) (codes "false") || strcmp_is_zero (c ∷ v) (codes "FALSE"))
    then false
    else true

-- What the trampoline stores.
unfoldable pub resolve : Host → Kernel
resolve host =
    if host.has_avx2
    then if not (force_scalar_env host.force_scalar) && cpu_supports_avx2 host.cpu
      then avx2
      else scalar
    else scalar

module _ {Item : Type 0} (run_scalar run_avx2 : List Item → List ℕ → Option (List ℕ)) where
  -- A call through a pointer that is resolved.
  abbrev pub run : Kernel → List Item → List ℕ → Option (List ℕ)
  run avx2 = run_avx2
  run _ = run_scalar

  unfoldable pub init_trampoline : Host → List Item → List ℕ → Option (List ℕ) × Kernel
  init_trampoline host ids out = (run (resolve host) ids out, resolve host)

  -- The output, and what the pointer holds after the call.
  unfoldable pub string_batch : Host → Kernel → List Item → List ℕ → Option (List ℕ) × Kernel
  string_batch host impl ids out = if length ids == 0 then (some out, impl) else elim impl [
    | trampoline ↦ init_trampoline host ids out
    | scalar ↦ (run scalar ids out, scalar)
    | avx2 ↦ (run avx2 ids out, avx2)
  ]
