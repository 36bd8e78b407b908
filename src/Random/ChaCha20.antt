-- ===== src/Random/ChaCha20.antt =====
-- chronoid/chacha20.c. The wipe of the working words at the end has no effect that the model sees.
use libchronoid.Prelude.{
  ℕ, zero, suc, ◌+◌, ◌-◌, List, [], ◌∷◌, ◌==◌, if◌then◌else◌, get_or, set, u8, u32, ◌<<◌, ◌>>◌,
  bit_or, bit_xor,
}

-- The four words of "expand 32-byte k".
abbrev pub chacha20_c : List ℕ
chacha20_c = 0x61707865 ∷ 0x3320646e ∷ 0x79622d32 ∷ 0x6b206574 ∷ []

-- ROTL32.
unfoldable pub rotl32 : ℕ → ℕ → ℕ
rotl32 x n = bit_or (u32 (x << n)) (x >> (32 - n))

-- One line of QR's four: `a += b; d ^= a; d = ROTL32 (d, n)`.
unfoldable pub qr_step : List ℕ → ℕ → ℕ → ℕ → ℕ → List ℕ
qr_step x a b d n =
    let x = set x a (u32 (get_or x a 0 + get_or x b 0)) in
    set x d (rotl32 (bit_xor (get_or x d 0) (get_or x a 0)) n)

-- QR.
unfoldable pub qr : List ℕ → ℕ → ℕ → ℕ → ℕ → List ℕ
qr x a b c d =
    let x = qr_step x a b d 16 in
    let x = qr_step x c d b 12 in let x = qr_step x a b d 8 in qr_step x c d b 7

-- The iterations of the round loop, of which `i` are left.
unfoldable pub double_rounds : ℕ → List ℕ → List ℕ
double_rounds zero x = x
double_rounds (suc i) x =
    let x = qr x 0 4 8 12 in
    let x = qr x 1 5 9 13 in
    let x = qr x 2 6 10 14 in
    let x = qr x 3 7 11 15 in
    let x = qr x 0 5 10 15 in
    let x = qr x 1 6 11 12 in let x = qr x 2 7 8 13 in let x = qr x 3 4 9 14 in double_rounds i x

-- The loop that adds the input and stores the words, little-endian.
unfoldable pub serialize : List ℕ → List ℕ → List ℕ
serialize (x ∷ xs) (s ∷ state) =
    let v = u32 (x + s) in u8 v ∷ u8 (v >> 8) ∷ u8 (v >> 16) ∷ u8 (v >> 24) ∷ serialize xs state
serialize xs state = []

unfoldable pub count_block : List ℕ → List ℕ
count_block state =
    let state = set state 12 (u32 (get_or state 12 0 + 1)) in
    if get_or state 12 0 == 0 then set state 13 (u32 (get_or state 13 0 + 1)) else state

-- The 64 bytes written, and `state` afterwards.
unfoldable pub chacha20_block : List ℕ → List ℕ × List ℕ
chacha20_block state = (serialize (double_rounds 10 state) state, count_block state)
