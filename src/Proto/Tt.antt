-- ===== src/Proto/Tt.antt =====
-- src/ed2k_proto.h: enum tag_type.
use ed2kd.Base.{ℕ}

abbrev pub string : ℕ
string = 0x02

abbrev pub uint32 : ℕ
uint32 = 0x03

abbrev pub uint16 : ℕ
uint16 = 0x08

abbrev pub uint8 : ℕ
uint8 = 0x09

abbrev pub uint64 : ℕ
uint64 = 0x0b

abbrev pub str5 : ℕ
str5 = 0x15
