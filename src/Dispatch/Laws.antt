-- ===== src/Dispatch/Laws.antt =====
-- The dispatcher's texts do not depend on the kernel, and its choice is made once.
use libchronoid.Prelude.{
  ℕ, suc, ◌<◌, ◌≡◌, ◌≢◌, refl, ap, sym, ◌∙◌, List, [], ◌∷◌, false, Option, some, ◌==◌, length,
  arith,
}
use libchronoid.Dispatch.{
  Kernel, trampoline, scalar, avx2, Host, resolve, run, init_trampoline, string_batch,
}

some_ids : (n : ℕ) → (suc n == 0) ≡ false
some_ids n = ground arith

module _ {Item : Type 0} (run_scalar run_avx2 : List Item → List ℕ → Option (List ℕ)) where
  -- A call with what stands around it.
  abbrev pub Call : Type 0
  Call = Host × List Item × List ℕ

  -- The pointer after calls in a row.
  abbrev pub after : Kernel → List Call → Kernel
  after impl [] = impl
  after impl ((host, ids, out) ∷ calls) =
      after (string_batch run_scalar run_avx2 host impl ids out).1 calls

  run-result :
      (kernel : Kernel) (ids : List Item) (out : List ℕ) {s : List ℕ}
      → run_scalar ids out ≡ some s
      → run_avx2 ids out ≡ some s
      → run run_scalar run_avx2 kernel ids out ≡ some s
  run-result trampoline ids out e f = e
  run-result scalar ids out e f = e
  run-result avx2 ids out e f = f

  -- Where both kernels agree, a call leaves what they leave, whatever the pointer holds.
  pub string_batch-run :
      (host : Host) (impl : Kernel) (ids : List Item) (out : List ℕ) {s : List ℕ}
      → run_scalar [] out ≡ some out
      → run_scalar ids out ≡ some s
      → run_avx2 ids out ≡ some s
      → (string_batch run_scalar run_avx2 host impl ids out).0 ≡ some s
  unfolding string_batch init_trampoline
  string_batch-run host impl [] out empty e f = sym empty ∙ e
  string_batch-run host trampoline (id ∷ ids) out empty e f =
      rw (some_ids (length ids)) (run-result (resolve host) (id ∷ ids) out e f)
  string_batch-run host scalar (id ∷ ids) out empty e f = rw (some_ids (length ids)) e
  string_batch-run host avx2 (id ∷ ids) out empty e f = rw (some_ids (length ids)) f

  kept :
      (host : Host) (impl : Kernel) (ids : List Item) (out : List ℕ)
      → impl ≢ trampoline
      → (string_batch run_scalar run_avx2 host impl ids out).1 ≡ impl
  unfolding string_batch
  kept host impl [] out h = refl
  kept host trampoline (id ∷ ids) out h = absurd (h refl)
  kept host scalar (id ∷ ids) out h = rw (some_ids (length ids)) refl
  kept host avx2 (id ∷ ids) out h = rw (some_ids (length ids)) refl

  after-kept : (impl : Kernel) (calls : List Call) → impl ≢ trampoline → after impl calls ≡ impl
  after-kept impl [] h = refl
  after-kept impl ((host, ids, out) ∷ calls) h =
      ap (λ k. after k calls) (kept host impl ids out h) ∙ after-kept impl calls h

  resolve-ne-trampoline : (host : Host) → resolve host ≢ trampoline
  unfolding resolve
  resolve-ne-trampoline host = ground arith

  first :
      (host : Host) (ids : List Item) (out : List ℕ)
      → 0 < length ids
      → (string_batch run_scalar run_avx2 host trampoline ids out).1 ≡ resolve host
  unfolding string_batch init_trampoline
  first host [] out h = absurd (omega arith)
  first host (id ∷ ids) out h = rw (some_ids (length ids)) refl

  -- The first call with identifiers chooses the kernel from its surroundings, and no later call,
  -- whatever its surroundings, changes the choice.
  pub string_batch-resolve :
      (host : Host) (ids : List Item) (out : List ℕ) (calls : List Call)
      → 0 < length ids
      → after trampoline ((host, ids, out) ∷ calls) ≡ resolve host
  string_batch-resolve host ids out calls h =
      ap (λ k. after k calls) (first host ids out h)
      ∙ after-kept (resolve host) calls (resolve-ne-trampoline host)
