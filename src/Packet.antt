-- ===== src/Packet.antt =====
-- src/packet.c: the packets that the server sends, byte for byte, and the tags of a search result.
-- A packed structure is the list of its fields' bytes, integers in little-endian order.
pub mod SearchFile
pub mod Framing
pub mod Skip
pub mod Tags
pub mod Entry
pub mod Bitrate
use ed2kd.Base.{
  ℕ, ◌+◌, ◌-◌, ◌*◌, ◌%◌, Bool, true, false, List, [], ◌∷◌, ◌++◌, le16, le32, le64, ltb, to_bit,
  if◌then◌else◌, take, length, u8, u16, u32,
}
use ed2kd.Proto.{proto_edonkey, proto_packed}
use ed2kd.Proto.Op
use ed2kd.Proto.Tt
use ed2kd.Proto.Tn
use ed2kd.State.{Config, Server}

-- struct packet_header
abbrev pub header : ℕ → List ℕ
header len = proto_edonkey ∷ le32 len

-- send_id_change: struct packet_id_change
unfoldable pub id_change : Config → ℕ → List ℕ
id_change cfg id = header (14 - 5) ++ Op.idchange ∷ le32 id ++ le32 cfg.srv_tcp_flags

-- send_server_message: struct packet_server_message, then `len` bytes of the message.
unfoldable pub server_message : List ℕ → ℕ → List ℕ
server_message msg len = header (8 - 5 + len) ++ Op.servermessage ∷ le16 len ++ take len msg

-- send_server_status: struct packet_server_status
unfoldable pub server_status : Server → List ℕ
server_status srv = header (14 - 5) ++ Op.serverstatus ∷ le32 srv.user_count ++ le32 srv.file_count

-- A tag with a one-byte name: struct tag_header.
abbrev pub tag_header : ℕ → ℕ → List ℕ
tag_header type name = type ∷ le16 1 ++ name ∷ []

-- struct tag_strval with `len` bytes of text.
abbrev pub tag_strval : List ℕ → ℕ → List ℕ
tag_strval str len = le16 len ++ take len str

-- The fields of struct packet_server_ident behind its header, and the tags of the server's name
-- and description. (The opcode is the one that the source assigns.)
unfoldable pub server_ident_body : Config → List ℕ
server_ident_body cfg =
    Op.serverstatus ∷ cfg.hash
    ++ le32 cfg.listen_addr_inaddr
    ++ le16 cfg.listen_port
    ++ le32 (to_bit (ltb 0 cfg.server_name_len) + to_bit (ltb 0 cfg.server_descr_len))
    ++ (if ltb 0 cfg.server_name_len
        then tag_header Tt.string Tn.servername ++ tag_strval cfg.server_name cfg.server_name_len
        else [])
    ++ (if ltb 0 cfg.server_descr_len
        then tag_header Tt.string Tn.description ++ tag_strval cfg.server_descr cfg.server_descr_len
        else [])

-- send_server_ident: with tags the length is that of the buffer, without it is that of the structure.
unfoldable pub server_ident : Config → List ℕ
unfolding server_ident_body
server_ident cfg =
    header (
      if ltb 0 (to_bit (ltb 0 cfg.server_name_len) + to_bit (ltb 0 cfg.server_descr_len))
      then length (server_ident_body cfg)
      else 32 - 5)
    ++ server_ident_body cfg

-- send_reject
unfoldable pub reject : List ℕ
reject = proto_edonkey ∷ 1 ∷ 0 ∷ 0 ∷ 0 ∷ Op.reject ∷ []

-- send_callback_fail
unfoldable pub callback_fail : List ℕ
callback_fail = proto_edonkey ∷ 1 ∷ 0 ∷ 0 ∷ 0 ∷ Op.callback_fail ∷ []

-- struct file_source, for each source.
pub file_sources : List (ℕ × ℕ) → List ℕ
file_sources [] = []
file_sources ((ip, port) ∷ sources) = (le32 ip ++ le16 port) ++ file_sources sources

-- send_found_sources: struct packet_found_sources and `count` sources of 6 bytes each.
unfoldable pub found_sources : List ℕ → List (ℕ × ℕ) → List ℕ
unfolding file_sources
found_sources hash sources =
    header (23 - 5 + length sources * 6)
    ++ Op.foundsources ∷ hash
    ++ u8 (length sources) ∷ file_sources sources

-- send_search_result, and the packet that client_search_files makes: struct packet_search_result
-- in front of the entries.
unfoldable pub search_result : List ℕ → ℕ → List ℕ
search_result result count =
    header (10 - 5 + length result) ++ Op.searchresult ∷ le32 count ++ result
