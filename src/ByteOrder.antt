-- ===== src/ByteOrder.antt =====
-- chronoid/byteorder.h: big-endian loads and stores by shifts. A pointer is the list of the bytes
-- from it on, and a store returns the list that it leaves.
pub mod Laws
use libchronoid.Prelude.{ℕ, List, get_or, set, bit_or, u8, u32, u64, ◌<<◌, ◌>>◌}

unfoldable pub be32_load : List ℕ → ℕ
be32_load p =
    bit_or
      (bit_or (bit_or (u32 (get_or p 0 0 << 24)) (u32 (get_or p 1 0 << 16)))
        (u32 (get_or p 2 0 << 8)))
      (get_or p 3 0)

unfoldable pub be32_store : List ℕ → ℕ → List ℕ
be32_store p v =
    let p = set p 0 (u8 (v >> 24)) in
    let p = set p 1 (u8 (v >> 16)) in let p = set p 2 (u8 (v >> 8)) in set p 3 (u8 v)

unfoldable pub be64_load : List ℕ → ℕ
be64_load p =
    bit_or
      (bit_or
        (bit_or
          (bit_or
            (bit_or
              (bit_or (bit_or (u64 (get_or p 0 0 << 56)) (u64 (get_or p 1 0 << 48)))
                (u64 (get_or p 2 0 << 40)))
              (u64 (get_or p 3 0 << 32)))
            (u64 (get_or p 4 0 << 24)))
          (u64 (get_or p 5 0 << 16)))
        (u64 (get_or p 6 0 << 8)))
      (get_or p 7 0)

unfoldable pub be64_store : List ℕ → ℕ → List ℕ
be64_store p v =
    let p = set p 0 (u8 (v >> 56)) in
    let p = set p 1 (u8 (v >> 48)) in
    let p = set p 2 (u8 (v >> 40)) in
    let p = set p 3 (u8 (v >> 32)) in
    let p = set p 4 (u8 (v >> 24)) in
    let p = set p 5 (u8 (v >> 16)) in let p = set p 6 (u8 (v >> 8)) in set p 7 (u8 v)
