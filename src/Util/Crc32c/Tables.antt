-- ===== src/Util/Crc32c/Tables.antt =====
-- The tables of src/util/crc32c_8x256_tables.cc.
pub mod Low
pub mod High
