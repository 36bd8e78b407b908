-- ===== src/Dispatch/Choice.antt =====
-- When the dispatcher chooses the AVX2 kernel.
use libchronoid.Prelude.{
  ℕ, ◌/◌, ◌%◌, ◌<◌, ◌≡◌, ◌≢◌, refl, subst, ◌⊎◌, ◌↔◌, ◌∙◌, List, [], ◌∷◌, true, false, Option, none,
  some, length, arith, inl, inr,
}
use libchronoid.Prelude.Bits.{bit_and_0x20, bit_and_6}
use libchronoid.Prelude.Tables.{codes}
use libchronoid.Memory.{strcmp_is_zero, strcmp_is_zero-same, same-strcmp_is_zero}
use libchronoid.Dispatch.{
  Kernel, trampoline, scalar, avx2, Cpu, gnu, msvc, other, Host, resolve, force_scalar_env,
  cpu_supports_avx2,
}
use libchronoid.Dispatch.Laws.{Call, after, string_batch-resolve}

-- The variable is unset, empty, or one of three words.
abbrev pub IsLeft : Option (List ℕ) → Type 0
IsLeft none = Unit
IsLeft (some v) = (v ≡ []) ⊎ ((v ≡ codes "0") ⊎ ((v ≡ codes "false") ⊎ (v ≡ codes "FALSE")))

-- The compiler's detection says so and bit 5 of EBX is set; or bit 5 of EBX, and bits 1 and 2 of what
-- XGETBV gives.
abbrev pub HasAvx2 : Cpu → Type 0
HasAvx2 (gnu detected none) = ⊥
HasAvx2 (gnu detected (some ebx)) = (detected ≡ true) × (ebx / 32 % 2 ≡ 1)
HasAvx2 (msvc ebx xcr) = (ebx / 32 % 2 ≡ 1) × (xcr / 2 % 4 ≡ 3)
HasAvx2 other = ⊥

cpu_supports_avx2-HasAvx2 : (cpu : Cpu) → (cpu_supports_avx2 cpu ≡ true) ↔ HasAvx2 cpu
unfolding cpu_supports_avx2
cpu_supports_avx2-HasAvx2 (gnu true none) = ground arith
cpu_supports_avx2-HasAvx2 (gnu false none) = ground arith
cpu_supports_avx2-HasAvx2 (gnu false (some ebx)) = ground arith
cpu_supports_avx2-HasAvx2 (gnu true (some ebx)) = ground (arith, bit_and_0x20 ebx)
cpu_supports_avx2-HasAvx2 (msvc ebx xcr) = ground (arith, bit_and_0x20 ebx, bit_and_6 xcr)
cpu_supports_avx2-HasAvx2 other = ground arith

word : (v w : List ℕ) → (strcmp_is_zero v w ≡ true) ↔ (v ≡ w)
word v w =
    (same-strcmp_is_zero v w, λ e. subst (λ w. strcmp_is_zero v w ≡ true) e (strcmp_is_zero-same v))

force_scalar_env-IsLeft : (v : Option (List ℕ)) → (force_scalar_env v ≡ false) ↔ IsLeft v
unfolding force_scalar_env
force_scalar_env-IsLeft none = ground arith
force_scalar_env-IsLeft (some []) = (λ _. inl refl, λ _. refl)
force_scalar_env-IsLeft (some (c ∷ v)) =
    ground
      (arith, word (c ∷ v) (codes "0"), word (c ∷ v) (codes "false"), word (c ∷ v) (codes "FALSE"))

abbrev pub Chooses : Host → Type 0
Chooses host = (host.has_avx2 ≡ true) × IsLeft host.force_scalar × HasAvx2 host.cpu

resolve-Chooses : (host : Host) → (resolve host ≡ avx2) ↔ Chooses host
unfolding resolve
resolve-Chooses host =
    ground (arith, cpu_supports_avx2-HasAvx2 host.cpu, force_scalar_env-IsLeft host.force_scalar)

avx2_or_scalar : (host : Host) → (resolve host ≡ avx2) ⊎ (resolve host ≡ scalar)
unfolding resolve
avx2_or_scalar host = ground arith

other_kernel : {kernel : Kernel} → kernel ≡ scalar → kernel ≢ avx2
other_kernel e f = ground (arith, e, f)

module _ {Item : Type 0} (run_scalar run_avx2 : List Item → List ℕ → Option (List ℕ)) where
  -- After a first call with identifiers and any further ones the pointer holds the AVX2 kernel if,
  -- for the first call, the build has it, CHRONOID_FORCE_SCALAR is unset, empty, 0, false or FALSE,
  -- and the processor has AVX2: the compiler's detection says so and bit 5 of EBX is set, or, by
  -- the other detection, bit 5 of EBX and bits 1 and 2 of the result of XGETBV are set. Otherwise
  -- it holds the scalar kernel.
  pub string_batch-Chooses :
      (host : Host) (ids : List Item) (out : List ℕ) (calls : List (Call run_scalar run_avx2))
      → 0 < length ids
      → (Chooses host × (after run_scalar run_avx2 trampoline ((host, ids, out) ∷ calls) ≡ avx2))
        ⊎ ((¬ Chooses host)
            × (after run_scalar run_avx2 trampoline ((host, ids, out) ∷ calls) ≡ scalar))
  string_batch-Chooses host ids out calls h =
      let held = string_batch-resolve run_scalar run_avx2 host ids out calls h in
      elim (avx2_or_scalar host) [
        | inl e ↦ inl ((resolve-Chooses host).0 e, held ∙ e)
        | inr e ↦ inr ((λ c. other_kernel e ((resolve-Chooses host).1 c)), held ∙ e)
      ]
