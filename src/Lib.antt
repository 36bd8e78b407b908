-- ===== src/Lib.antt =====
-- libchronoid: time-ordered identifiers, KSUID and UUIDv7.
--
-- The repository is a C library. `chronoid/ksuid` holds the 20-byte KSUID: a 32-bit timestamp and 16
-- random bytes, a base62 text of 27 characters, a comparison, a sequence of 65536 identifiers from one
-- seed. `chronoid/uuidv7` holds the 16-byte UUID of version 7: a 48-bit time, a 12-bit and a 62-bit
-- random field, a hexadecimal text of 36 characters, and a monotonic sequence. Both draw random bytes
-- through `chronoid_internal_fill_random` and read a clock. Where the build offers it, a kernel of
-- vector instructions takes the place of the scalar code; the encoders of whole arrays choose theirs at
-- the first call. `examples/chronoid-gen` is a command line tool that makes and prints identifiers.
--
--   Prelude      numbers, lists, machine words, signed 64-bit numbers, bit fields, tables
--   Digits       numbers as lists of digits, the independent description of all codecs
--   Memory       memcpy, memset and memcmp, and the order that memcmp makes
--   ByteOrder    chronoid/byteorder.h
--   Arch         the kernels that a build selects
--   Simd         the vector instructions that the kernels use, on lists of byte lanes
--   Platform     the random source, the clock and timespec_get, as an interface with one law
--   Ksuid        Types: chronoid/ksuid.h; Base62: chronoid/ksuid/base62.c, base62_sse2.c, base62_neon.c;
--                Compare: chronoid/ksuid/compare_scalar.c, compare_sse2.c, compare_neon.c;
--                Id: chronoid/ksuid/ksuid.c; Sequence: chronoid/ksuid/sequence.c;
--                Batch: chronoid/ksuid/encode_batch.c, encode_avx2.c, divisor_magic.h
--   Uuidv7       Types: chronoid/uuidv7.h; Hex: chronoid/uuidv7/hex.c, hex_ssse3.c;
--                Id: chronoid/uuidv7/uuidv7.c; Sequence: chronoid/uuidv7/uuidv7_sequence.c;
--                Batch: chronoid/uuidv7/hex_batch.c, hex_avx2.c
--   Random       chronoid/rand_tls.c: the generator of a thread; ChaCha20: chronoid/chacha20.c;
--                Entropy: chronoid/rand_os.c, Buffer, Filled and Ended on it; Overrides: `chronoid_set_rand`,
--                `chronoid_now_ms`; Reseed: its reseed policy; Reach: the generators that a thread can have; Thread and Fresh:
--                a thread as a `Platform`
--   Dispatch     the choice of a batch kernel at run time, in chronoid/ksuid/encode_batch.c and, with the
--                same code, in chronoid/uuidv7/hex_batch.c; Choice: when it is AVX2; Race: calls of it at the same time
--   Gen          examples/chronoid-gen.c: Options its option parser, Print its output formats, Main its
--                two modes, Stdio what it uses of the C library
--   Tests        the theorems at concrete inputs
--
-- A function keeps its C name, less the prefix `chronoid_` and, within a component, the component's. A
-- byte array is a list of numbers below 256, and a function that writes through a pointer takes what
-- stood there and returns what stands there afterwards. Unsigned arithmetic wraps by `%`; a signed
-- overflow, and a write outside a buffer, is `none`. A result of `memcmp` is known by its sign. The
-- surroundings are a state that the functions of `Platform` pass on; of a call that fills a buffer and
-- returns 0 nothing is assumed but that the buffer then holds bytes.
--
-- The loops of the base62 codec run over the list of limbs that is left, with the number of characters
-- or bytes still to write: a limb list shrinks to nothing by then because it holds a number that fits,
-- which the theorems on the encoder and the decoder show. The other loops of the two components are over
-- lists of a fixed length. A sequence is a record; a run of calls on one, from any state of the surroundings and with
-- any results, is the data type `Run`.
--
-- `chronoid_random_bytes` runs its loop for as many rounds as bytes are asked for, since every round
-- delivers at least one. The loops of the entropy source, which retry a system call for as long as it is
-- interrupted, take the number of rounds as an argument: as many as bytes are asked for are enough where
-- no call is interrupted, and no bound is enough for every system. The bulk loops of the AVX2 kernels run
-- for as many rounds as the array holds whole groups, and the loops of the command line tool over its
-- arguments, or the count that they give.
--
-- The output of an array encoder is what stands behind the pointer, and a kernel's write beyond it is no
-- part of the list that comes back, which is as long as before. A function of the command line tool that
-- prints gives the bytes that it prints; the exit of the program is its code with both outputs. What its
-- local variables held before they were written is the record `Stack`.
--
-- Two computations on times are taken as exact, where the C code has signed 64-bit ones: the age of a
-- seed, a difference of two readings of the clock, and the milliseconds of `chronoid_now_ms`. They
-- overflow only for a clock beyond any that a system gives, as the comments in chronoid/rand_tls.c say of
-- the second.
--
-- Not modelled: chronoid/wipe.h, beyond its stores; an overflow of these two computations; in
-- chronoid/rand_tls.c the reading of a generator's raw bytes for tests; orders of memory weaker than
-- interleaving; the ARMv7 reductions of the NEON kernels; a `long` of 32 bits in
-- examples/chronoid-gen.c, a failure of its outputs, and the bytes behind the end of an argument;
-- tools/derive-magic.py and the tests.
pub mod Prelude
pub mod Digits
pub mod Memory
pub mod ByteOrder
pub mod Arch
pub mod Simd
pub mod Platform
pub mod Gen
pub mod Random
pub mod Dispatch
pub mod Ksuid
pub mod Uuidv7
pub mod Tests
