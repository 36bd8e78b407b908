-- ===== src/Random/Entropy.antt =====
-- chronoid/rand_os.c: the entropy source. The system's calls are the interface `Calls`.
use libchronoid.Prelude.{
  ℕ, zero, suc, ◌+◌, ◌-◌, List, [], ◌∷◌, ◌++◌, Bool, true, false, Option, none, some, ◌>>=◌, ◌==◌,
  not, ltb, if◌then◌else◌, take, drop, length,
}
use libchronoid.Prelude.Int.{ℤ, pos, negsuc}

-- What a call has returned: a result, a failure with EINTR, or another failure.
pub data Reply {ℓ} (A : Type ℓ) : Type ℓ where
  done : A → Reply A
  interrupted : Reply A
  failed : Reply A

-- The calls that write `n` bytes give what they wrote, `getrandom` and `read` perhaps less of it.
pub record Calls (W : Type 0) : Type 0 where
  pub bcrypt_gen_random : ℕ → W → Option (List ℕ) × W
  pub getrandom : ℕ → W → Reply (List ℕ) × W
  pub getentropy : ℕ → W → Option (List ℕ) × W
  pub open_urandom : W → Reply ℕ × W
  pub read : ℕ → ℕ → W → Reply (List ℕ) × W
  pub close : ℕ → W → W

-- `buf` after a call has written `bytes` at `buf + off`.
unfoldable pub store : List ℕ → ℕ → List ℕ → List ℕ
store buf off bytes = take off buf ++ bytes ++ drop (off + length bytes) buf

-- Every loop runs for at most `rounds` rounds, and is `none` when it has not ended by then.
module _ {W : Type 0} (calls : Calls W) where
  unfoldable pub bcrypt_loop : ℕ → List ℕ → ℕ → ℕ → W → Option (ℤ × List ℕ × W)
  bcrypt_loop zero buf off n w = if ltb 0 n then none else some (pos 0, buf, w)
  bcrypt_loop (suc rounds) buf off n w =
      let chunk = if ltb 0xffffffff n then 0xffffffff else n in
      let (s, w') = calls.bcrypt_gen_random chunk w in
      if not (ltb 0 n) then some (pos 0, buf, w) else elim s [
        | none ↦ some (negsuc 0, buf, w')
        | some bytes ↦ bcrypt_loop rounds (store buf off bytes) (off + chunk) (n - chunk) w'
      ]

  unfoldable pub via_bcrypt : ℕ → List ℕ → ℕ → W → Option (ℤ × List ℕ × W)
  via_bcrypt rounds buf n w = bcrypt_loop rounds buf 0 n w

  -- What a loop does with a reply, given the rest of the loop.
  abbrev pub on_getrandom :
      (List ℕ → ℕ → Option (ℤ × List ℕ × W))
      → List ℕ
      → ℕ
      → Reply (List ℕ) × W
      → Option (ℤ × List ℕ × W)
  on_getrandom again buf off (done bytes, w) = again (store buf off bytes) (off + length bytes)
  on_getrandom again buf off (interrupted, w) = again buf off
  on_getrandom again buf off (failed, w) = some (negsuc 0, buf, w)

  unfoldable pub getrandom_loop : ℕ → List ℕ → ℕ → ℕ → W → Option (ℤ × List ℕ × W)
  getrandom_loop zero buf off n w = if ltb off n then none else some (pos 0, buf, w)
  getrandom_loop (suc rounds) buf off n w =
      let reply = calls.getrandom (n - off) w in
      if not (ltb off n)
      then some (pos 0, buf, w)
      else on_getrandom (λ buf off. getrandom_loop rounds buf off n reply.1) buf off reply

  abbrev pub on_getentropy :
      (List ℕ → ℕ → Option (ℤ × List ℕ × W))
      → List ℕ
      → ℕ
      → ℕ
      → Option (List ℕ) × W
      → Option (ℤ × List ℕ × W)
  on_getentropy again buf off chunk (none, w) = some (negsuc 0, buf, w)
  on_getentropy again buf off chunk (some bytes, w) = again (store buf off bytes) (off + chunk)

  unfoldable pub getentropy_loop : ℕ → List ℕ → ℕ → ℕ → W → Option (ℤ × List ℕ × W)
  getentropy_loop zero buf off n w = if ltb off n then none else some (pos 0, buf, w)
  getentropy_loop (suc rounds) buf off n w =
      let chunk = if ltb 256 (n - off) then 256 else n - off in
      let reply = calls.getentropy chunk w in
      if not (ltb off n)
      then some (pos 0, buf, w)
      else on_getentropy (λ buf off. getentropy_loop rounds buf off n reply.1) buf off chunk reply

  -- The loop that opens the device, with its descriptor where it could be opened.
  unfoldable pub open_loop : ℕ → W → Option (Option ℕ × W)
  open_loop zero w = none
  open_loop (suc rounds) w =
      let (r, w') = calls.open_urandom w in
      elim r [
        | done fd ↦ some (some fd, w')
        | interrupted ↦ open_loop rounds w'
        | failed ↦ some (none, w')
      ]

  abbrev pub on_read :
      (List ℕ → ℕ → Option (ℤ × List ℕ × W))
      → List ℕ
      → ℕ
      → Reply (List ℕ) × W
      → Option (ℤ × List ℕ × W)
  on_read again buf off (done [], w) = some (negsuc 0, buf, w)
  on_read again buf off (done (x ∷ xs), w) = again (store buf off (x ∷ xs)) (off + length (x ∷ xs))
  on_read again buf off (interrupted, w) = again buf off
  on_read again buf off (failed, w) = some (negsuc 0, buf, w)

  unfoldable pub read_loop : ℕ → ℕ → List ℕ → ℕ → ℕ → W → Option (ℤ × List ℕ × W)
  read_loop zero fd buf off n w = if ltb off n then none else some (pos 0, buf, w)
  read_loop (suc rounds) fd buf off n w =
      let reply = calls.read fd (n - off) w in
      if not (ltb off n)
      then some (pos 0, buf, w)
      else on_read (λ buf off. read_loop rounds fd buf off n reply.1) buf off reply

  abbrev pub on_open : ℕ → List ℕ → ℕ → Option ℕ × W → Option (ℤ × List ℕ × W)
  on_open rounds buf n (none, w) = some (negsuc 0, buf, w)
  on_open rounds buf n (some fd, w) =
      read_loop rounds fd buf 0 n w
      >>= (λ (e : ℤ × List ℕ × W). some (e.0, e.1, calls.close fd e.2))

  unfoldable pub via_urandom : ℕ → List ℕ → ℕ → W → Option (ℤ × List ℕ × W)
  via_urandom rounds buf n w = open_loop rounds w >>= on_open rounds buf n

  -- `chronoid_os_random_bytes` of a Windows build.
  unfoldable pub os_random_bytes_windows : ℕ → List ℕ → ℕ → W → Option (ℤ × List ℕ × W)
  os_random_bytes_windows rounds buf n w =
      if n == 0 then some (pos 0, buf, w) else via_bcrypt rounds buf n w

  -- A source, where the build has it, and the next one where it fails.
  abbrev pub next_unless_zero :
      (List ℕ → W → Option (ℤ × List ℕ × W)) → ℤ × List ℕ × W → Option (ℤ × List ℕ × W)
  next_unless_zero next (pos zero, buf, w) = some (pos 0, buf, w)
  next_unless_zero next (rc, buf, w) = next buf w

  unfoldable pub or_else :
      Bool
      → (List ℕ → W → Option (ℤ × List ℕ × W))
      → (List ℕ → W → Option (ℤ × List ℕ × W))
      → List ℕ
      → W
      → Option (ℤ × List ℕ × W)
  or_else false source next buf w = next buf w
  or_else true source next buf w = source buf w >>= next_unless_zero next

  -- `chronoid_os_random_bytes` of a POSIX build, which may have `getrandom` and `getentropy`.
  unfoldable pub os_random_bytes : Bool → Bool → ℕ → List ℕ → ℕ → W → Option (ℤ × List ℕ × W)
  os_random_bytes has_getrandom has_getentropy rounds buf n w =
      if n == 0
      then some (pos 0, buf, w)
      else or_else has_getrandom (λ buf w. getrandom_loop rounds buf 0 n w)
          (or_else has_getentropy (λ buf w. getentropy_loop rounds buf 0 n w)
            (λ buf w. via_urandom rounds buf n w))
          buf w
