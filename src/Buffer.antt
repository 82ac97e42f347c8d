-- ===== src/Buffer.antt =====
-- The buffers of src/buffer and include/libnodecc/buffer.
pub mod Number
pub mod Mutable
pub mod Shared
pub mod Hashed
pub mod View
