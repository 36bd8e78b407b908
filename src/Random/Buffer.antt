-- ===== src/Random/Buffer.antt =====
-- A buffer that chronoid/rand_os.c fills from the front.
use libchronoid.Prelude.{
  ℕ, ◌+◌, ◌≤◌, ◌≡◌, subst, sym, ap, ◌∙◌, List, ◌++◌, false, some, ltb, arith, length, take, drop,
  length-append, length-take, length-drop, take-append, take-length, AllBelow, AllBelow-append,
}
use libchronoid.Random.Entropy.{done, Calls, store}

-- The calls write bytes, and no more of them than they were asked for.
pub record IsLawful {W : Type 0} (calls : Calls W) : Type 0 where
  pub getrandom :
      (n : ℕ) (w : W) (bytes : List ℕ)
      → (calls.getrandom n w).0 ≡ done bytes
      → (length bytes ≤ n) × AllBelow 256 bytes
  pub getentropy :
      (n : ℕ) (w : W) (bytes : List ℕ)
      → (calls.getentropy n w).0 ≡ some bytes
      → (length bytes ≡ n) × AllBelow 256 bytes
  pub read :
      (fd n : ℕ) (w : W) (bytes : List ℕ)
      → (calls.read fd n w).0 ≡ done bytes
      → (length bytes ≤ n) × AllBelow 256 bytes

-- A buffer of `n` cells of which the first `off` hold bytes.
abbrev pub Partly : ℕ → ℕ → List ℕ → Type 0
Partly n off buf = (length buf ≡ n) × (off ≤ n) × AllBelow 256 (take off buf)

pub store-Partly :
    (n off : ℕ) (buf bytes : List ℕ)
    → Partly n off buf
    → off + length bytes ≤ n
    → AllBelow 256 bytes
    → Partly n (off + length bytes) (store buf off bytes)
unfolding store
store-Partly n off buf bytes (size, le, below) fits h = (
  omega (
    arith,
    length-append (take off buf ++ bytes) (drop (off + length bytes) buf),
    joined,
    length-drop (off + length bytes) buf,
    size,
  ),
  fits,
  subst (AllBelow 256)
      (sym (
        take-append (take off buf ++ bytes) (drop (off + length bytes) buf) (off + length bytes)
          joined))
      (AllBelow-append 256 (take off buf) bytes below h),
)
  where
    joined : length (take off buf ++ bytes) ≡ off + length bytes
    joined = omega (arith, length-append (take off buf) bytes, length-take off buf, size)

pub full : (n off : ℕ) (buf : List ℕ) → Partly n off buf → ltb off n ≡ false → AllBelow 256 buf
full n off buf (size, le, below) e =
    subst (AllBelow 256) (ap (λ k. take k buf) {y = n} (ground arith) ∙ take-length buf n size)
      below
