-- ===== src/Tests.antt =====
-- The theorems at concrete inputs. No code of the repository is modelled here.
pub mod Samples
pub mod Codec
pub mod Ksuid
pub mod Uuidv7
pub mod Monotonic
pub mod Random
pub mod Batch
pub mod Gen
