-- ===== src/Util.antt =====
-- The helpers of src/util and include/libnodecc/util.
pub mod Power
pub mod Digits
pub mod Sample
mod Tests
pub mod Uri
pub mod Bits
pub mod Base64
pub mod Fnv
pub mod Crc32c
