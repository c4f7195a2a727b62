-- ===== src/Proto/Cap.antt =====
-- src/ed2k_proto.h: enum client_caps.
use ed2kd.Base.{ℕ}

abbrev pub zlib : ℕ
zlib = 0x1

abbrev pub unicode : ℕ
unicode = 0x10

abbrev pub largefiles : ℕ
largefiles = 0x100
