-- ===== src/Ksuid.antt =====
-- chronoid/ksuid: 20-byte time-ordered identifiers, a 32-bit timestamp before 16 random bytes.
pub mod Types
pub mod Base62
pub mod Compare
pub mod Id
pub mod Sequence
pub mod Batch
