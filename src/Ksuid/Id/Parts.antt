-- ===== src/Ksuid/Id/Parts.antt =====
-- `chronoid_ksuid_from_parts` against the accessors.
use libchronoid.Prelude.{
  ℕ, ◌+◌, ◌-◌, ◌^◌, ◌<◌, ◌≡◌, ap, ◌∙◌, List, [], ◌++◌, none, some, arith, take, drop, length-append,
  length-drop, take-append, take-length, drop-length, drop-append, append-nil, Bool-cases, inl, inr,
  AllBelow-append, IsArray, if◌then◌else◌, true, false, ◌==◌,
}
use libchronoid.Prelude.Int.{ℤ, pos, negsuc, ◌-ℤ◌, ◌≤ℤ◌, InI64, sub_i64, to_u32}
use libchronoid.Digits.{value, digits, length-digits, digits-AllBelow, value-digits}
use libchronoid.ByteOrder.{be32_store}
use libchronoid.ByteOrder.Laws.{be32_load-value, be32_store-digits}
use libchronoid.Ksuid.Types.{
  Ksuid, IsKsuid, ok, err_payload_size, err_time_range, ksuid_epoch_seconds,
}
use libchronoid.Ksuid.Id.{
  ksuid_from_parts, ksuid_timestamp, ksuid_time_unix, ksuid_payload, out_of_range, write_parts,
}

-- The identifier of a timestamp and a payload.
abbrev pub ksuid_of : ℕ → List ℕ → Ksuid
ksuid_of timestamp payload = record { b = digits 256 4 timestamp ++ payload }

module _ (c : ℕ) (payload : List ℕ) (h : IsArray 16 payload) where
  pub ksuid_of-IsKsuid : IsKsuid (ksuid_of c payload)
  ksuid_of-IsKsuid = record {
    size = omega (arith, length-append (digits 256 4 c) payload, length-digits 256 4 c, h.size);
    bytes =
        AllBelow-append 256 (digits 256 4 c) payload (digits-AllBelow 256 4 c (omega arith))
          h.bytes;
  }

  pub ksuid_timestamp-ksuid_of : c < 2 ^ 32 → ksuid_timestamp (ksuid_of c payload) ≡ c
  unfolding ksuid_timestamp
  ksuid_timestamp-ksuid_of lt =
      be32_load-value (digits 256 4 c ++ payload) (omega (arith, ksuid_of-IsKsuid.size))
        ksuid_of-IsKsuid.bytes
      ∙ ap (value 256) (take-append (digits 256 4 c) payload 4 (length-digits 256 4 c))
      ∙ value-digits 256 4 c (omega arith) lt

  pub write_parts-ksuid_of :
      (out : Ksuid)
      → IsKsuid out
      → c < 2 ^ 32
      → write_parts out (pos c) payload ≡ ksuid_of c payload
  write_parts-ksuid_of out k lt =
      rw (stored, before, taken, after)
        (ap (λ t. record { b = digits 256 4 c ++ t }) (append-nil payload))
    where
      stored : be32_store out.b (to_u32 (pos c)) ≡ digits 256 4 c ++ drop 4 out.b
      stored =
          ap (be32_store out.b) (omega arith) ∙ be32_store-digits out.b c (omega (arith, k.size))

      before : take 4 (digits 256 4 c ++ drop 4 out.b) ≡ digits 256 4 c
      before = take-append (digits 256 4 c) (drop 4 out.b) 4 (length-digits 256 4 c)

      taken : take 16 payload ≡ payload
      taken = take-length payload 16 h.size

      after : drop 20 (digits 256 4 c ++ drop 4 out.b) ≡ []
      after = drop-length (digits 256 4 c ++ drop 4 out.b) 20 (
          omega (
            arith,
            length-append (digits 256 4 c) (drop 4 out.b),
            length-digits 256 4 c,
            length-drop 4 out.b,
            k.size,
          ))

-- `unix_seconds` is a timestamp of the KSUID epoch.
abbrev pub InEpoch : ℤ → Type 0
InEpoch t = (pos ksuid_epoch_seconds ≤ℤ t) × (t ≤ℤ pos (ksuid_epoch_seconds + 2 ^ 32 - 1))

pub sub_epoch :
    (t : ℕ)
    → InEpoch (pos t)
    → sub_i64 (pos t) (pos ksuid_epoch_seconds) ≡ some (pos (t - ksuid_epoch_seconds))
unfolding sub_i64
sub_epoch t h = ground arith

pub in_epoch : (t : ℕ) → InEpoch (pos t) → out_of_range (pos (t - ksuid_epoch_seconds)) ≡ false
in_epoch t h = ground arith

pub ksuid_of-time :
    (t : ℕ) (payload : List ℕ)
    → IsArray 16 payload
    → InEpoch (pos t)
    → let id = ksuid_of (t - ksuid_epoch_seconds) payload in
      IsKsuid id × (ksuid_time_unix id ≡ pos t) × (ksuid_payload id ≡ payload)
unfolding ksuid_time_unix ksuid_payload
ksuid_of-time t payload h e = (
  ksuid_of-IsKsuid (t - ksuid_epoch_seconds) payload h,
  rw (ksuid_timestamp-ksuid_of (t - ksuid_epoch_seconds) payload h (omega (arith, e)))
      (ground arith),
  drop-append (digits 256 4 (t - ksuid_epoch_seconds)) payload 4
      (length-digits 256 4 (t - ksuid_epoch_seconds)),
)

-- Outside the epoch the difference, where it is defined, is refused.
pub not-InEpoch :
    (t : ℤ)
    → InI64 t
    → negsuc (2 ^ 63 - ksuid_epoch_seconds - 1) ≤ℤ t
    → ¬ InEpoch t
    → (c : ℤ) × (sub_i64 t (pos ksuid_epoch_seconds) ≡ some c) × (out_of_range c ≡ true)
unfolding sub_i64
not-InEpoch t i d h = (t -ℤ pos ksuid_epoch_seconds, ground arith, ground arith)

module _ (out : Ksuid) (payload : List ℕ) (size : IsKsuid out) (h : IsArray 16 payload) where
  -- For a time of the KSUID epoch, that is from 1400000000 s up to 2 ^ 32 - 1 s later, and 16 bytes
  -- of payload, `chronoid_ksuid_from_parts` succeeds with a valid identifier whose time, timestamp
  -- and payload are the ones given.
  pub ksuid_from_parts-accessors :
      (t : ℕ)
      → InEpoch (pos t)
      → let id = ksuid_of (t - ksuid_epoch_seconds) payload in
        (ksuid_from_parts out (pos t) payload 16 ≡ some (ok, id))
        × (ksuid_timestamp id ≡ t - ksuid_epoch_seconds)
        × IsKsuid id
        × (ksuid_time_unix id ≡ pos t)
        × (ksuid_payload id ≡ payload)
  unfolding ksuid_from_parts
  ksuid_from_parts-accessors t e =
      let (valid, time, rest) = ksuid_of-time t payload h e in
      (
        rw (sub_epoch t e, in_epoch t e)
            (ap (λ id. some (ok, id))
              (write_parts-ksuid_of (t - ksuid_epoch_seconds) payload h out size (omega arith))),
        ksuid_timestamp-ksuid_of (t - ksuid_epoch_seconds) payload h (omega (arith, e)),
        valid,
        time,
        rest,
      )

-- `chronoid_ksuid_from_parts` refuses a time outside the epoch with `*out` untouched, as
-- ERR_TIME_RANGE, or as ERR_PAYLOAD_SIZE if the payload is not 16 bytes; the time must not be so
-- far back that the subtraction of the epoch overflows.
pub ksuid_from_parts-refuses :
    (out : Ksuid) (t : ℤ) (payload : List ℕ) (n : ℕ)
    → InI64 t
    → negsuc (2 ^ 63 - ksuid_epoch_seconds - 1) ≤ℤ t
    → ¬ InEpoch t
    → ksuid_from_parts out t payload n
      ≡ some ((if n == 16 then err_time_range else err_payload_size), out)
unfolding ksuid_from_parts
ksuid_from_parts-refuses out t payload n i d outside = elim (Bool-cases (n == 16)) [
  | inr other ↦ rw other
  | inl same ↦ let (c, defined, refused) = not-InEpoch t i d outside in rw (same, defined, refused)
]

-- For a time less than 1400000000 s above the least `int64_t`, and a payload of 16 bytes, the
-- subtraction of the epoch in `chronoid_ksuid_from_parts` overflows: the run is undefined.
pub ksuid_from_parts-overflow :
    (out : Ksuid) (t : ℤ) (payload : List ℕ)
    → InI64 t
    → t ≤ℤ negsuc (2 ^ 63 - ksuid_epoch_seconds)
    → ksuid_from_parts out t payload 16 ≡ none
unfolding ksuid_from_parts sub_i64
ksuid_from_parts-overflow out t payload i d = ground arith
