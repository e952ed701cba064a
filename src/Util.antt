-- ===== src/Util.antt =====
-- src/util.c and include/util.h, one module for each group of helpers.
pub mod Buf
pub mod Hex
pub mod Json
pub mod Strings
