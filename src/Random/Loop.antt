-- ===== src/Random/Loop.antt =====
-- The loop of `chronoid_random_bytes` ends, and fills the buffer.
use libchronoid.Prelude.{
  ℕ, zero, suc, ◌+◌, ◌-◌, ◌*◌, ◌≤◌, ◌<◌, ◌≡◌, refl, subst, ap, ◌∙◌, List, [], ◌∷◌, ◌++◌, some,
  arith, length, take, drop, replicate, length-append, length-take, length-drop, length-replicate,
  length-set, AllBelow-append, AllBelow-take, AllBelow-drop, IsArray, Bool, Bool-cases, inl, inr,
  true, false, ◌==◌, if◌then◌else◌, ◌>>=◌,
}
use libchronoid.Prelude.Tables.{AllBelow-replicate}
use libchronoid.Memory.{memset}
use libchronoid.Random.{Rng, refill, consume, chunk_of, random_loop}
use libchronoid.Random.ChaCha20.{qr_step, qr, double_rounds, serialize, count_block, chacha20_block}

length-qr_step : (x : List ℕ) (a b d n : ℕ) → length (qr_step x a b d n) ≡ length x
unfolding qr_step
length-qr_step x a b d n = length-set _ d _ ∙ length-set x a _

length-qr : (x : List ℕ) (a b c d : ℕ) → length (qr x a b c d) ≡ length x
unfolding qr
length-qr x a b c d =
    length-qr_step _ c d b 7
    ∙ length-qr_step _ a b d 8
    ∙ length-qr_step _ c d b 12
    ∙ length-qr_step x a b d 16

length-double_rounds : (i : ℕ) (x : List ℕ) → length (double_rounds i x) ≡ length x
unfolding double_rounds
length-double_rounds zero x = refl
length-double_rounds (suc i) x =
    length-double_rounds i _
    ∙ length-qr _ 3 4 9 14
    ∙ length-qr _ 2 7 8 13
    ∙ length-qr _ 1 6 11 12
    ∙ length-qr _ 0 5 10 15
    ∙ length-qr _ 3 7 11 15
    ∙ length-qr _ 2 6 10 14
    ∙ length-qr _ 1 5 9 13
    ∙ length-qr x 0 4 8 12

serialize-IsArray :
    (xs state : List ℕ) → length xs ≡ length state → IsArray (4 * length state) (serialize xs state)
unfolding serialize
serialize-IsArray [] [] e = record { size = refl; bytes = tt }
serialize-IsArray [] (s ∷ state) e = absurd (omega arith)
serialize-IsArray (x ∷ xs) [] e = absurd (omega arith)
serialize-IsArray (x ∷ xs) (s ∷ state) e =
    let rest = serialize-IsArray xs state (omega arith) in
    record {
      size = omega (arith, rest.size);
      bytes = (omega arith, (omega arith, (omega arith, (omega arith, rest.bytes))));
    }

length-if :
    (b : Bool) (xs ys : List ℕ) → length xs ≡ length ys → length (if b then xs else ys) ≡ length ys
length-if true xs ys e = e
length-if false xs ys e = refl

length-count_block : (state : List ℕ) → length (count_block state) ≡ length state
unfolding count_block
length-count_block state = length-if _ _ _ (length-set _ 13 _) ∙ length-set state 12 _

-- A state of 16 words, a window of 64 bytes and a position in it.
pub record IsRng (r : Rng) : Type 0 where
  pub words : length r.state ≡ 16
  pub window : IsArray 64 r.buf
  pub pos : r.buf_pos ≤ 64

memset-IsArray :
    (dst : List ℕ) (off n : ℕ) → IsArray 64 dst → off + n ≤ 64 → IsArray 64 (memset dst off 0 n)
memset-IsArray dst off n h le = record {
  size = omega (
    arith,
    length-append (take off dst) (replicate n 0 ++ drop (off + n) dst),
    length-append (replicate n 0) (drop (off + n) dst),
    length-take off dst,
    length-replicate {A = ℕ} n 0,
    length-drop (off + n) dst,
    h.size,
  );
  bytes = AllBelow-append 256 (take off dst) _ (AllBelow-take 256 off dst h.bytes) (
      AllBelow-append 256 (replicate n 0) _ (AllBelow-replicate 256 n 0 (omega arith))
        (AllBelow-drop 256 (off + n) dst h.bytes));
}

refill-IsRng : (r : Rng) → IsRng r → IsRng (refill r) × ((refill r).buf_pos < 64)
unfolding refill chacha20_block
refill-IsRng r h = elim (Bool-cases (r.buf_pos == 64)) [
  | inl full ↦ rw full (
    record {
      words = length-count_block r.state ∙ h.words;
      window =
          subst (λ n. IsArray n (serialize (double_rounds 10 r.state) r.state))
            (omega (arith, h.words))
            (serialize-IsArray (double_rounds 10 r.state) r.state
              (length-double_rounds 10 r.state));
      pos = omega arith;
    },
    omega arith,
  )
  | inr open_window ↦ rw open_window (h, ground (arith, h.pos, open_window))
]

chunk_bounds :
    (n avail : ℕ)
    → 0 < n
    → 0 < avail
    → (0 < chunk_of n avail) × (chunk_of n avail ≤ n) × (chunk_of n avail ≤ avail)
unfolding chunk_of
chunk_bounds n avail p q = ground arith

consume-IsRng : (r : Rng) (chunk : ℕ) → IsRng r → r.buf_pos + chunk ≤ 64 → IsRng (consume r chunk)
unfolding consume
consume-IsRng r chunk h le = record {
  words = h.words;
  window = memset-IsArray r.buf r.buf_pos chunk h.window le;
  pos = le;
}

copied-IsArray :
    (r : Rng) (chunk m : ℕ) (rest : List ℕ)
    → IsRng r
    → r.buf_pos + chunk ≤ 64
    → IsArray m rest
    → IsArray (chunk + m) (take chunk (drop r.buf_pos r.buf) ++ rest)
copied-IsArray r chunk m rest h le tail = record {
  size = omega (
    arith,
    length-append (take chunk (drop r.buf_pos r.buf)) rest,
    length-take chunk (drop r.buf_pos r.buf),
    length-drop r.buf_pos r.buf,
    h.window.size,
    tail.size,
  );
  bytes =
      AllBelow-append 256 (take chunk (drop r.buf_pos r.buf)) rest
        (AllBelow-take 256 chunk (drop r.buf_pos r.buf)
          (AllBelow-drop 256 r.buf_pos r.buf h.window.bytes))
        tail.bytes;
}

-- For a valid generator and a buffer of `n` bytes, the loop of `chronoid_random_bytes` ends within
-- `n` rounds, fills the buffer with bytes, and leaves a valid generator.
pub random_loop-fills :
    (rounds n : ℕ) (buf : List ℕ) (r : Rng)
    → n ≤ rounds
    → length buf ≡ n
    → IsRng r
    → (filled : List ℕ) × (r' : Rng) × (random_loop rounds n buf r ≡ some (filled, r'))
      × IsArray n filled
      × IsRng r'
unfolding random_loop
random_loop-fills rounds zero [] r le size h = ([], r, refl, record { size = refl; bytes = tt }, h)
random_loop-fills rounds zero (x ∷ buf) r le size h = absurd (omega arith)
random_loop-fills zero (suc n) buf r le size h = absurd (omega arith)
random_loop-fills (suc rounds) (suc n) buf r le size h =
    let (valid, room) = refill-IsRng r h in
    let pos = (refill r).buf_pos in
    let chunk = chunk_of (suc n) (64 - pos) in
    let (some_bytes, fits, inside) =
      chunk_bounds (suc n) (64 - pos) (omega arith) (omega (arith, room)) in
    let kept : pos + chunk ≤ 64 = omega (arith, inside, room) in
    let (rest, r', ran, array, valid') =
      random_loop-fills rounds (suc n - chunk) (drop chunk buf) (consume (refill r) chunk)
        (omega (arith, some_bytes, le)) (length-drop chunk buf ∙ ap (λ t. t - chunk) size)
        (consume-IsRng (refill r) chunk valid kept) in
    (
      take chunk (drop pos (refill r).buf) ++ rest,
      r',
      ap
          (λ o.
            o >>= (λ (e : List ℕ × Rng). some (take chunk (drop pos (refill r).buf) ++ e.0, e.1)))
          ran,
      subst (λ m. IsArray m (take chunk (drop pos (refill r).buf) ++ rest)) (omega (arith, fits))
          (copied-IsArray (refill r) chunk (suc n - chunk) rest valid kept array),
      valid',
    )
