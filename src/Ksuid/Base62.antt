-- ===== src/Ksuid/Base62.antt =====
-- chronoid/ksuid/base62.c: the encoder and the decoder.
pub mod Translate
pub mod Tables
pub mod Kernels
pub mod Encode
pub mod Decode
pub mod RoundTrip
use libchronoid.Prelude.{
  ℕ, zero, suc, ◌+◌, ◌*◌, ◌/◌, ◌%◌, List, [], ◌∷◌, ◌++◌, Option, none, some, not, ◌||◌, ◌==◌, ◌>>◌,
  if◌then◌else◌, length, get_or, set, take, drop, u8, u32, u64,
}
use libchronoid.Prelude.Int.{pos, negsuc}
use libchronoid.Memory.{memset}
use libchronoid.ByteOrder.{be32_load}
use libchronoid.Arch.{Arch}
use libchronoid.Ksuid.Types.{KsuidErr, ok, err_str_value}
use Translate.{kb62_alphabet, kb62_value, translate16}

-- One pass of the inner loop of `chronoid_base62_encode`, from a digit on: `bq[0 .. bq_len)` and
-- the remainder.
unfoldable pub encode_divide : List ℕ → List ℕ → ℕ → List ℕ × ℕ
encode_divide [] bq remainder = (bq, remainder)
encode_divide (x ∷ bp) bq remainder =
    let value = u64 (x + u64 (remainder * 4294967296)) in
    let digit = value / 62 in
    encode_divide bp
      (if not (length bq == 0) || not (digit == 0) then bq ++ (u32 digit ∷ []) else bq) (value % 62)

-- The outer loop, with `n` characters of `out` left to write. `none` is a write before its start.
unfoldable pub encode_loop : ℕ → List ℕ → List ℕ → Option (List ℕ)
encode_loop n [] out = some (memset out 0 b'0' n)
encode_loop zero (x ∷ bp) out = none
encode_loop (suc n) (x ∷ bp) out =
    let (bq, remainder) = encode_divide (x ∷ bp) [] 0 in
    encode_loop n bq (set out n (u8 (get_or kb62_alphabet remainder 0)))

-- `chronoid_base62_encode`: `out` is what the caller's buffer held.
unfoldable pub base62_encode : List ℕ → List ℕ → Option (List ℕ)
base62_encode out input =
    encode_loop 27
      (be32_load input
        ∷ be32_load (drop 4 input)
        ∷ be32_load (drop 8 input)
        ∷ be32_load (drop 12 input)
        ∷ be32_load (drop 16 input)
        ∷ [])
      out

-- The inner loop of `chronoid_base62_decode`.
unfoldable pub decode_divide : List ℕ → List ℕ → ℕ → List ℕ × ℕ
decode_divide [] bq remainder = (bq, remainder)
decode_divide (x ∷ bp) bq remainder =
    let value = u64 (x + u64 (remainder * 62)) in
    let digit = value / 4294967296 in
    decode_divide bp
      (if not (length bq == 0) || not (digit == 0) then bq ++ (u8 digit ∷ []) else bq)
      (value % 4294967296)

-- The four bytes of a limb, written from `out + n` on.
unfoldable pub put_limb : List ℕ → ℕ → ℕ → List ℕ
put_limb out n remainder =
    let out = set out n (u8 (remainder >> 24)) in
    let out = set out (n + 1) (u8 (remainder >> 16)) in
    let out = set out (n + 2) (u8 (remainder >> 8)) in set out (n + 3) (u8 remainder)

-- Its outer loop, with `n` bytes of `out` left to write. What a failing call wrote stays in `out`.
unfoldable pub decode_loop : ℕ → List ℕ → List ℕ → KsuidErr × List ℕ
decode_loop n [] out = (ok, memset out 0 0 n)
decode_loop (suc (suc (suc (suc n)))) (x ∷ bp) out =
    let (bq, remainder) = decode_divide (x ∷ bp) [] 0 in decode_loop n bq (put_limb out n remainder)
decode_loop n (x ∷ bp) out = (err_str_value, out)

-- The loop over the characters behind the sixteenth: their values, or `none` at the early return.
unfoldable pub decode_tail : List ℕ → Option (List ℕ)
decode_tail [] = some []
decode_tail (c ∷ cs) =
    let v = get_or kb62_value c 0 in
    let rest = decode_tail cs in
    if v == 0xff then none else elim rest [ none ↦ none | some vs ↦ some (v ∷ vs) ]

-- `chronoid_base62_decode`.
unfoldable pub base62_decode : Arch → List ℕ → List ℕ → KsuidErr × List ℕ
base62_decode arch out input =
    let (bp, rc) = translate16 arch (take 16 input) in
    elim rc [
      | negsuc _ ↦ (err_str_value, out)
      | pos _ ↦ elim (decode_tail (drop 16 input)) [
        | none ↦ (err_str_value, out)
        | some rest ↦ decode_loop 20 (bp ++ rest) out
      ]
    ]
