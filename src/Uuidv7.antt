-- ===== src/Uuidv7.antt =====
-- chronoid/uuidv7: identifiers of RFC 9562, version 7.
pub mod Types
pub mod Hex
pub mod Id
pub mod Sequence
pub mod Batch
