-- ===== src/Http.antt =====
-- The HTTP messages of src/http and include/libnodecc/http.
pub mod Headers
pub mod Chunked
pub mod Outgoing
pub mod Request
pub mod Url
pub mod Incoming
pub mod DateBuffer
pub mod Server
