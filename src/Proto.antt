-- ===== src/Proto.antt =====
-- src/ed2k_proto.h and the limits of src/server.h, src/client.h and src/db.h.
pub mod Cap
pub mod Op
pub mod Tt
pub mod Tn
pub mod Tns
pub mod Fts
pub mod Ft
use ed2kd.Base.{ℕ, ◌*◌, List, [], ◌∷◌}

abbrev pub max_lowid : ℕ
max_lowid = 0x1000000

abbrev pub edonkeyversion : ℕ
edonkeyversion = 0x3c

abbrev pub ed2k_hash_size : ℕ
ed2k_hash_size = 16

abbrev pub srv_tcpflg_compression : ℕ
srv_tcpflg_compression = 0x1

abbrev pub srv_tcpflg_typetaginteger : ℕ
srv_tcpflg_typetaginteger = 0x80

abbrev pub srv_tcpflg_largefiles : ℕ
srv_tcpflg_largefiles = 0x100

-- enum packet_proto
abbrev pub proto_edonkey : ℕ
proto_edonkey = 0xe3

abbrev pub proto_packed : ℕ
proto_packed = 0xd4

abbrev pub max_nick_len : ℕ
max_nick_len = 255

abbrev pub max_found_sources : ℕ
max_found_sources = 200

abbrev pub max_search_files : ℕ
max_search_files = 200

abbrev pub max_filename_len : ℕ
max_filename_len = 255

abbrev pub max_mcodec_len : ℕ
max_mcodec_len = 64

abbrev pub max_fileext_len : ℕ
max_fileext_len = 16

abbrev pub max_uncompressed_packet_size : ℕ
max_uncompressed_packet_size = 300 * 1024
