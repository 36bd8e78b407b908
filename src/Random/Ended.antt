-- ===== src/Random/Ended.antt =====
-- chronoid/rand_os.c ends when no call is interrupted or writes nothing.
use libchronoid.Prelude.{
  ℕ, zero, suc, ◌+◌, ◌-◌, ◌≤◌, ◌<◌, ◌≡◌, ◌≢◌, refl, ap, ◌∙◌, ◌⊎◌, inl, inr, List, [], ◌∷◌, Bool,
  true, false, Option, none, some, ◌>>=◌, not, ltb, ◌==◌, if◌then◌else◌, arith, length, IsArray,
}
use libchronoid.Prelude.Int.{ℤ, pos, negsuc}
use libchronoid.Random.Entropy.{
  Reply, done, interrupted, failed, Calls, store, getrandom_loop, getentropy_loop, open_loop,
  read_loop, via_urandom, or_else, os_random_bytes, on_getrandom, on_getentropy, on_read, on_open,
  next_unless_zero,
}
use libchronoid.Random.Buffer.{IsLawful}
use libchronoid.Random.Filled.{os_random_bytes-IsArray}

-- No call is interrupted, and `getrandom` writes at least one byte.
pub record IsPrompt {W : Type 0} (calls : Calls W) : Type 0 where
  pub getrandom : (n : ℕ) (w : W) → (calls.getrandom n w).0 ≢ interrupted
  pub wrote :
      (n : ℕ) (w : W) (bytes : List ℕ)
      → 0 < n
      → (calls.getrandom n w).0 ≡ done bytes
      → 0 < length bytes
  pub open_urandom : (w : W) → (calls.open_urandom w).0 ≢ interrupted
  pub read : (fd n : ℕ) (w : W) → (calls.read fd n w).0 ≢ interrupted

module _ {W : Type 0} (calls : Calls W) (prompt : IsPrompt calls) where
  abbrev Result : Type 0
  Result = Option (ℤ × List ℕ × W)

  abbrev IsSome : {A : Type 0} → Option A → Type 0
  IsSome none = ⊥
  IsSome (some a) = Unit

  IsSome-if :
      (b : Bool) (x y : Result)
      → (b ≡ true → IsSome x)
      → (b ≡ false → IsSome y)
      → IsSome (if b then x else y)
  IsSome-if true x y h k = h refl
  IsSome-if false x y h k = k refl

  no_rounds :
      (off n : ℕ) (buf : List ℕ) (w : W)
      → n ≤ off
      → IsSome {A = ℤ × List ℕ × W} (if ltb off n then none else some (pos 0, buf, w))
  no_rounds off n buf w le =
      IsSome-if (ltb off n) none (some (pos 0, buf, w)) (λ e. absurd (ground (arith, e))) (λ _. tt)

  more : (off n : ℕ) → not (ltb off n) ≡ false → off < n
  more off n e = ground (arith, e)

  -- The rest of a loop with `rounds` rounds left.
  abbrev GoesOn : ℕ → ℕ → (List ℕ → ℕ → Result) → Type 0
  GoesOn rounds n again = (buf : List ℕ) (off : ℕ) → n ≤ off + rounds → IsSome (again buf off)

  on_getrandom-IsSome :
      (rounds n : ℕ) (again : List ℕ → ℕ → Result) (buf : List ℕ) (off : ℕ)
      (reply : Reply (List ℕ) × W)
      → GoesOn rounds n again
      → n ≤ off + suc rounds
      → reply.0 ≢ interrupted
      → ((bytes : List ℕ) → reply.0 ≡ done bytes → 0 < length bytes)
      → IsSome (on_getrandom calls again buf off reply)
  on_getrandom-IsSome rounds n again buf off (done bytes, w) h le q law =
      h (store buf off bytes) (off + length bytes) (omega (arith, le, law bytes refl))
  on_getrandom-IsSome rounds n again buf off (interrupted, w) h le q law = absurd (q refl)
  on_getrandom-IsSome rounds n again buf off (failed, w) h le q law = tt

  getrandom-IsSome :
      (rounds n : ℕ) (w : W) → GoesOn rounds n (λ buf off. getrandom_loop calls rounds buf off n w)
  unfolding getrandom_loop
  getrandom-IsSome zero n w buf off le = no_rounds off n buf w (omega arith)
  getrandom-IsSome (suc rounds) n w buf off le =
      IsSome-if (not (ltb off n)) _ _ (λ _. tt)
        (λ e.
          on_getrandom-IsSome rounds n _ buf off (calls.getrandom (n - off) w)
            (getrandom-IsSome rounds n (calls.getrandom (n - off) w).1) le
            (prompt.getrandom (n - off) w)
            (λ bytes. prompt.wrote (n - off) w bytes (omega (arith, more off n e))))

  on_getentropy-IsSome :
      (rounds n : ℕ) (again : List ℕ → ℕ → Result) (buf : List ℕ) (off chunk : ℕ)
      (reply : Option (List ℕ) × W)
      → GoesOn rounds n again
      → n ≤ off + suc rounds
      → 0 < chunk
      → IsSome (on_getentropy calls again buf off chunk reply)
  on_getentropy-IsSome rounds n again buf off chunk (none, w) h le some_byte = tt
  on_getentropy-IsSome rounds n again buf off chunk (some bytes, w) h le some_byte =
      h (store buf off bytes) (off + chunk) (omega arith)

  getentropy-IsSome :
      (rounds n : ℕ) (w : W) → GoesOn rounds n (λ buf off. getentropy_loop calls rounds buf off n w)
  unfolding getentropy_loop
  getentropy-IsSome zero n w buf off le = no_rounds off n buf w (omega arith)
  getentropy-IsSome (suc rounds) n w buf off le =
      let chunk = if ltb 256 (n - off) then 256 else n - off in
      IsSome-if (not (ltb off n)) _ _ (λ _. tt)
        (λ e.
          on_getentropy-IsSome rounds n _ buf off chunk (calls.getentropy chunk w)
            (getentropy-IsSome rounds n (calls.getentropy chunk w).1) le
            (ground (arith, more off n e)))

  on_read-IsSome :
      (rounds n : ℕ) (again : List ℕ → ℕ → Result) (buf : List ℕ) (off : ℕ)
      (reply : Reply (List ℕ) × W)
      → GoesOn rounds n again
      → n ≤ off + suc rounds
      → reply.0 ≢ interrupted
      → IsSome (on_read calls again buf off reply)
  on_read-IsSome rounds n again buf off (done [], w) h le q = tt
  on_read-IsSome rounds n again buf off (done (x ∷ xs), w) h le q =
      h (store buf off (x ∷ xs)) (off + length (x ∷ xs)) (omega arith)
  on_read-IsSome rounds n again buf off (interrupted, w) h le q = absurd (q refl)
  on_read-IsSome rounds n again buf off (failed, w) h le q = tt

  read-IsSome :
      (rounds fd n : ℕ) (w : W) → GoesOn rounds n (λ buf off. read_loop calls rounds fd buf off n w)
  unfolding read_loop
  read-IsSome zero fd n w buf off le = no_rounds off n buf w (omega arith)
  read-IsSome (suc rounds) fd n w buf off le =
      IsSome-if (not (ltb off n)) _ _ (λ _. tt)
        (λ _.
          on_read-IsSome rounds n _ buf off (calls.read fd (n - off) w)
            (read-IsSome rounds fd n (calls.read fd (n - off) w).1) le (prompt.read fd (n - off) w))

  IsSome-bind :
      {A : Type 0} (m : Option A) (f : A → Result)
      → IsSome m
      → ((a : A) → IsSome (f a))
      → IsSome (m >>= f)
  IsSome-bind none f h k = absurd h
  IsSome-bind (some a) f h k = k a

  on_open-IsSome :
      (rounds n : ℕ) (buf : List ℕ) (r : Option ℕ × W)
      → n ≤ rounds
      → IsSome (on_open calls rounds buf n r)
  on_open-IsSome rounds n buf (none, w) le = tt
  on_open-IsSome rounds n buf (some fd, w) le =
      IsSome-bind (read_loop calls rounds fd buf 0 n w) _
        (read-IsSome rounds fd n w buf 0 (omega arith)) (λ _. tt)

  opened : (rounds : ℕ) (w : W) → 0 < rounds → IsSome (open_loop calls rounds w)
  unfolding open_loop
  opened zero w h = absurd (omega arith)
  opened (suc rounds) w h = ground (arith, prompt.open_urandom w)

  urandom-IsSome :
      (rounds n : ℕ) (buf : List ℕ) (w : W)
      → n ≤ rounds
      → 0 < rounds
      → IsSome (via_urandom calls rounds buf n w)
  unfolding via_urandom
  urandom-IsSome rounds n buf w le h =
      IsSome-bind (open_loop calls rounds w) _ (opened rounds w h)
        (λ r. on_open-IsSome rounds n buf r le)

  abbrev Ends : (List ℕ → W → Result) → Type 0
  Ends source = (buf : List ℕ) (w : W) → IsSome (source buf w)

  next-IsSome :
      (next : List ℕ → W → Result) (r : ℤ × List ℕ × W)
      → Ends next
      → IsSome (next_unless_zero calls next r)
  next-IsSome next (pos zero, buf, w) h = tt
  next-IsSome next (pos (suc _), buf, w) h = h buf w
  next-IsSome next (negsuc _, buf, w) h = h buf w

  or_else-Ends :
      (has : Bool) (source next : List ℕ → W → Result)
      → Ends source
      → Ends next
      → Ends (or_else calls has source next)
  unfolding or_else
  or_else-Ends false source next h k buf w = k buf w
  or_else-Ends true source next h k buf w =
      IsSome-bind (source buf w) _ (h buf w) (λ r. next-IsSome next r k)

  posix-IsSome :
      (has_getrandom has_getentropy : Bool) (rounds n : ℕ) (buf : List ℕ) (w : W)
      → n ≤ rounds
      → 0 < rounds
      → IsSome (os_random_bytes calls has_getrandom has_getentropy rounds buf n w)
  unfolding os_random_bytes
  posix-IsSome has_getrandom has_getentropy rounds n buf w le h =
      IsSome-if (n == 0) _ _ (λ _. tt)
        (λ _.
          or_else-Ends has_getrandom _ _ (λ buf w. getrandom-IsSome rounds n w buf 0 (omega arith))
            (or_else-Ends has_getentropy _ _
              (λ buf w. getentropy-IsSome rounds n w buf 0 (omega arith))
              (λ buf w. urandom-IsSome rounds n buf w le h))
            buf w)

  result : (m : Result) → IsSome m → (rc : ℤ) × (b : List ℕ) × (w : W) × (m ≡ some (rc, b, w))
  result none h = absurd h
  result (some (rc, b, w)) h = (rc, b, w, refl)

  filled_or_failed : (rc : ℤ) {A : Type 0} → (rc ≡ pos 0 → A) → ((rc ≡ pos 0) × A) ⊎ (rc ≢ pos 0)
  filled_or_failed (pos zero) h = inl (refl, h refl)
  filled_or_failed (pos (suc n)) h = inr (λ e. ground (arith, e))
  filled_or_failed (negsuc n) h = inr (λ e. ground (arith, e))

  -- On POSIX, where the system's calls write bytes and no more than they were asked for, none of
  -- them is interrupted, and `getrandom` writes at least one byte where some are asked for,
  -- `chronoid_os_random_bytes` ends within as many rounds of each loop as bytes are asked for, and
  -- at least one: with 0 and the buffer full of bytes, or with another result.
  pub os_random_bytes-fills :
      (has_getrandom has_getentropy : Bool) (rounds n : ℕ) (buf : List ℕ) (w : W)
      → IsLawful calls
      → length buf ≡ n
      → n ≤ rounds
      → 0 < rounds
      → (rc : ℤ) × (filled : List ℕ) × (w' : W) × (os_random_bytes calls has_getrandom
            has_getentropy rounds buf n w
          ≡ some (rc, filled, w'))
        × (((rc ≡ pos 0) × IsArray n filled) ⊎ (rc ≢ pos 0))
  os_random_bytes-fills has_getrandom has_getentropy rounds n buf w lawful size le h =
      let (rc, filled, w', ran) =
        result (os_random_bytes calls has_getrandom has_getentropy rounds buf n w)
          (posix-IsSome has_getrandom has_getentropy rounds n buf w le h) in
      (
        rc,
        filled,
        w',
        ran,
        filled_or_failed rc (λ e.
            os_random_bytes-IsArray calls lawful has_getrandom has_getentropy rounds n buf filled w
              w' size (ran ∙ ap (λ rc. some (rc, filled, w')) e)),
      )
