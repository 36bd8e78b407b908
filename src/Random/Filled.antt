-- ===== src/Random/Filled.antt =====
-- chronoid/rand_os.c fills its buffer, or fails.
use libchronoid.Prelude.{
  ℕ, zero, suc, ◌+◌, ◌-◌, ◌≤◌, ◌<◌, ◌≡◌, refl, subst, ap, List, [], ◌∷◌, Bool, true, false, Option,
  none, some, some_eq, ◌>>=◌, not, ltb, ◌==◌, if◌then◌else◌, arith, length, AllBelow, IsArray,
}
use libchronoid.Prelude.Int.{ℤ, pos, negsuc}
use libchronoid.Random.Entropy.{
  Reply, done, interrupted, failed, Calls, store, getrandom_loop, getentropy_loop, open_loop,
  read_loop, via_urandom, or_else, os_random_bytes, on_getrandom, on_getentropy, on_read, on_open,
  next_unless_zero,
}
use libchronoid.Random.Buffer.{IsLawful, Partly, store-Partly, full}

module _ {W : Type 0} (calls : Calls W) (lawful : IsLawful calls) where
  -- What a source may leave: a buffer of the size, and bytes in it where the code is 0.
  abbrev Fills : ℕ → Option (ℤ × List ℕ × W) → Type 0
  Fills n none = Unit
  Fills n (some (rc, buf, w)) = (length buf ≡ n) × (rc ≡ pos 0 → AllBelow 256 buf)

  Fills-if :
      (n : ℕ) (b : Bool) (x y : Option (ℤ × List ℕ × W))
      → (b ≡ true → Fills n x)
      → (b ≡ false → Fills n y)
      → Fills n (if b then x else y)
  Fills-if n true x y h k = h refl
  Fills-if n false x y h k = k refl

  out_of_rounds :
      (n off : ℕ) (buf : List ℕ) (w : W)
      → Partly n off buf
      → Fills n (if ltb off n then none else some (pos 0, buf, w))
  out_of_rounds n off buf w p =
      Fills-if n (ltb off n) none (some (pos 0, buf, w)) (λ _. tt)
        (λ e. (p.0, λ _. full n off buf p e))

  not_failed : negsuc 0 ≡ pos 0 → ⊥
  not_failed e = ground (arith, e)

  refused :
      (n off : ℕ) (buf : List ℕ) (w : W) → Partly n off buf → Fills n (some (negsuc 0, buf, w))
  refused n off buf w p = (p.0, λ e. absurd (not_failed e))

  more : (off n : ℕ) → not (ltb off n) ≡ false → off < n
  more off n e = ground (arith, e)

  finished :
      (n off : ℕ) (buf : List ℕ) (w : W)
      → Partly n off buf
      → not (ltb off n) ≡ true
      → Fills n (some (pos 0, buf, w))
  finished n off buf w p e = (p.0, λ _. full n off buf p (ground (arith, e)))

  -- A loop that runs on from a longer part of the buffer.
  abbrev GoesOn : ℕ → (List ℕ → ℕ → Option (ℤ × List ℕ × W)) → Type 0
  GoesOn n again = (buf : List ℕ) (off : ℕ) → Partly n off buf → Fills n (again buf off)

  on_getrandom-Fills :
      (again : List ℕ → ℕ → Option (ℤ × List ℕ × W)) (buf : List ℕ) (off n : ℕ)
      (reply : Reply (List ℕ) × W)
      → GoesOn n again
      → Partly n off buf
      → ((bytes : List ℕ) → reply.0 ≡ done bytes → (length bytes ≤ n - off) × AllBelow 256 bytes)
      → Fills n (on_getrandom calls again buf off reply)
  on_getrandom-Fills again buf off n (done bytes, w) h p law =
      let (le, below) = law bytes refl in
      h (store buf off bytes) (off + length bytes)
        (store-Partly n off buf bytes p (omega (arith, p.1, le)) below)
  on_getrandom-Fills again buf off n (interrupted, w) h p law = h buf off p
  on_getrandom-Fills again buf off n (failed, w) h p law = refused n off buf w p

  getrandom-Fills :
      (rounds n : ℕ) (w : W) → GoesOn n (λ buf off. getrandom_loop calls rounds buf off n w)
  unfolding getrandom_loop
  getrandom-Fills zero n w buf off p = out_of_rounds n off buf w p
  getrandom-Fills (suc rounds) n w buf off p =
      Fills-if n (not (ltb off n)) _ _ (finished n off buf w p) (λ _.
        on_getrandom-Fills _ buf off n (calls.getrandom (n - off) w)
          (getrandom-Fills rounds n (calls.getrandom (n - off) w).1) p
          (lawful.getrandom (n - off) w))

  on_getentropy-Fills :
      (again : List ℕ → ℕ → Option (ℤ × List ℕ × W)) (buf : List ℕ) (off n chunk : ℕ)
      (reply : Option (List ℕ) × W)
      → GoesOn n again
      → Partly n off buf
      → off + chunk ≤ n
      → ((bytes : List ℕ) → reply.0 ≡ some bytes → (length bytes ≡ chunk) × AllBelow 256 bytes)
      → Fills n (on_getentropy calls again buf off chunk reply)
  on_getentropy-Fills again buf off n chunk (none, w) h p le law = refused n off buf w p
  on_getentropy-Fills again buf off n chunk (some bytes, w) h p le law =
      let (size, below) = law bytes refl in
      h (store buf off bytes) (off + chunk) (
        subst (λ k. Partly n k (store buf off bytes)) (ap (λ k. off + k) size)
          (store-Partly n off buf bytes p (omega (arith, size, le)) below))

  getentropy-Fills :
      (rounds n : ℕ) (w : W) → GoesOn n (λ buf off. getentropy_loop calls rounds buf off n w)
  unfolding getentropy_loop
  getentropy-Fills zero n w buf off p = out_of_rounds n off buf w p
  getentropy-Fills (suc rounds) n w buf off p =
      let chunk = if ltb 256 (n - off) then 256 else n - off in
      Fills-if n (not (ltb off n)) _ _ (finished n off buf w p) (λ e.
        on_getentropy-Fills _ buf off n chunk (calls.getentropy chunk w)
          (getentropy-Fills rounds n (calls.getentropy chunk w).1) p (ground (arith, more off n e))
          (lawful.getentropy chunk w))

  on_read-Fills :
      (again : List ℕ → ℕ → Option (ℤ × List ℕ × W)) (buf : List ℕ) (off n : ℕ)
      (reply : Reply (List ℕ) × W)
      → GoesOn n again
      → Partly n off buf
      → ((bytes : List ℕ) → reply.0 ≡ done bytes → (length bytes ≤ n - off) × AllBelow 256 bytes)
      → Fills n (on_read calls again buf off reply)
  on_read-Fills again buf off n (done [], w) h p law = refused n off buf w p
  on_read-Fills again buf off n (done (x ∷ xs), w) h p law =
      let (le, below) = law (x ∷ xs) refl in
      h (store buf off (x ∷ xs)) (off + length (x ∷ xs))
        (store-Partly n off buf (x ∷ xs) p (omega (arith, p.1, le)) below)
  on_read-Fills again buf off n (interrupted, w) h p law = h buf off p
  on_read-Fills again buf off n (failed, w) h p law = refused n off buf w p

  read-Fills :
      (rounds fd n : ℕ) (w : W) → GoesOn n (λ buf off. read_loop calls rounds fd buf off n w)
  unfolding read_loop
  read-Fills zero fd n w buf off p = out_of_rounds n off buf w p
  read-Fills (suc rounds) fd n w buf off p =
      Fills-if n (not (ltb off n)) _ _ (finished n off buf w p) (λ _.
        on_read-Fills _ buf off n (calls.read fd (n - off) w)
          (read-Fills rounds fd n (calls.read fd (n - off) w).1) p (lawful.read fd (n - off) w))

  closed :
      (n fd : ℕ) (m : Option (ℤ × List ℕ × W))
      → Fills n m
      → Fills n (m >>= (λ (e : ℤ × List ℕ × W). some (e.0, e.1, calls.close fd e.2)))
  closed n fd none h = tt
  closed n fd (some e) h = h

  untouched : (n : ℕ) (buf : List ℕ) → length buf ≡ n → Partly n 0 buf
  untouched n buf size = (size, omega arith, tt)

  opened-Fills :
      (rounds n : ℕ) (buf : List ℕ) (m : Option (Option ℕ × W))
      → length buf ≡ n
      → Fills n (m >>= on_open calls rounds buf n)
  opened-Fills rounds n buf none size = tt
  opened-Fills rounds n buf (some (none, w)) size = refused n 0 buf w (untouched n buf size)
  opened-Fills rounds n buf (some (some fd, w)) size =
      closed n fd (read_loop calls rounds fd buf 0 n w)
        (read-Fills rounds fd n w buf 0 (untouched n buf size))

  urandom-Fills :
      (rounds n : ℕ) (buf : List ℕ) (w : W)
      → length buf ≡ n
      → Fills n (via_urandom calls rounds buf n w)
  unfolding via_urandom
  urandom-Fills rounds n buf w size = opened-Fills rounds n buf (open_loop calls rounds w) size

  abbrev Source : Type 0
  Source = List ℕ → W → Option (ℤ × List ℕ × W)

  abbrev FillsAll : ℕ → Source → Type 0
  FillsAll n source = (buf : List ℕ) (w : W) → length buf ≡ n → Fills n (source buf w)

  next-Fills :
      (n : ℕ) (next : Source) (m : Option (ℤ × List ℕ × W))
      → FillsAll n next
      → Fills n m
      → Fills n (m >>= next_unless_zero calls next)
  next-Fills n next none h k = tt
  next-Fills n next (some (pos zero, buf, w)) h k = k
  next-Fills n next (some (pos (suc _), buf, w)) h k = h buf w k.0
  next-Fills n next (some (negsuc _, buf, w)) h k = h buf w k.0

  or_else-Fills :
      (n : ℕ) (has : Bool) (source next : Source)
      → FillsAll n source
      → FillsAll n next
      → FillsAll n (or_else calls has source next)
  unfolding or_else
  or_else-Fills n false source next h k buf w size = k buf w size
  or_else-Fills n true source next h k buf w size =
      next-Fills n next (source buf w) k (h buf w size)

  posix-Fills :
      (has_getrandom has_getentropy : Bool) (rounds n : ℕ) (buf : List ℕ) (w : W)
      → length buf ≡ n
      → Fills n (os_random_bytes calls has_getrandom has_getentropy rounds buf n w)
  unfolding os_random_bytes
  posix-Fills has_getrandom has_getentropy rounds n buf w size =
      Fills-if n (n == 0) _ _ (λ e. (size, λ _. empty buf (ground (arith, size, e))))
        (λ _.
          or_else-Fills n has_getrandom _ _
            (λ buf w size. getrandom-Fills rounds n w buf 0 (untouched n buf size))
            (or_else-Fills n has_getentropy _ _
              (λ buf w size. getentropy-Fills rounds n w buf 0 (untouched n buf size))
              (λ buf w size. urandom-Fills rounds n buf w size))
            buf w size)
    where
      empty : (buf : List ℕ) → length buf ≡ 0 → AllBelow 256 buf
      empty [] e = tt
      empty (x ∷ buf) e = absurd (omega arith)

  ended :
      (n : ℕ) (m : Option (ℤ × List ℕ × W)) {b : List ℕ} {w : W}
      → Fills n m
      → m ≡ some (pos 0, b, w)
      → IsArray n b
  ended n none h q = cc
  ended n (some r) h q =
      let same = some_eq q in
      subst (IsArray n) (ap (λ t. t.1) same)
        (record { size = h.0; bytes = h.1 (ap (λ t. t.0) same) })

  -- On POSIX, whichever sources the build has and however often a call is interrupted or writes less
  -- than it was asked for, a run of `chronoid_os_random_bytes` that returns 0 has filled the whole
  -- buffer with bytes.
  pub os_random_bytes-IsArray :
      (has_getrandom has_getentropy : Bool) (rounds n : ℕ) (buf filled : List ℕ) (w w' : W)
      → length buf ≡ n
      → os_random_bytes calls has_getrandom has_getentropy rounds buf n w ≡ some (pos 0, filled, w')
      → IsArray n filled
  os_random_bytes-IsArray has_getrandom has_getentropy rounds n buf filled w w' size ran =
      ended n (os_random_bytes calls has_getrandom has_getentropy rounds buf n w)
        (posix-Fills has_getrandom has_getentropy rounds n buf w size) ran
