-- ===== src/Util.antt =====
-- src/util.c and src/util.h: the hexadecimal converters, the type and the extension of a shared
-- file, and the token bucket that limits a client's requests.
pub mod Hex
pub mod FileType
pub mod Extension
pub mod Bucket
