-- ===== src/Proto/Tn.antt =====
-- src/ed2k_proto.h: enum tag_name.
use ed2kd.Base.{ℕ}

abbrev pub name : ℕ
name = 0x01

abbrev pub port : ℕ
port = 0x0f

abbrev pub version : ℕ
version = 0x11

abbrev pub server_flags : ℕ
server_flags = 0x20

abbrev pub emule_version : ℕ
emule_version = 0xfb

abbrev pub filename : ℕ
filename = 0x01

abbrev pub filesize : ℕ
filesize = 0x02

abbrev pub filetype : ℕ
filetype = 0x03

abbrev pub fileformat : ℕ
fileformat = 0x04

abbrev pub sources : ℕ
sources = 0x15

abbrev pub complete_sources : ℕ
complete_sources = 0x30

abbrev pub filesize_hi : ℕ
filesize_hi = 0x3a

abbrev pub filerating : ℕ
filerating = 0xf7

abbrev pub servername : ℕ
servername = 0x01

abbrev pub description : ℕ
description = 0x0b
