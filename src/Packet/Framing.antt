-- ===== src/Packet/Framing.antt =====
-- src/packet.c: the headers of its packets.
use ed2kd.Base.{
  ℕ, ◌+◌, ◌*◌, ◌-◌, ◌≤◌, ◌≡◌, refl, Bool, true, false, List, [], ◌∷◌, ◌++◌, arith, le16, le32,
  length, length-append, length-take, take, drop, u8, ltb, if◌then◌else◌, to_bit, ap,
}
use ed2kd.Proto.{proto_edonkey}
use ed2kd.Proto.Op
use ed2kd.State.{Config, Server}
use ed2kd.Packet.{
  header, id_change, server_message, server_status, server_ident, server_ident_body, reject,
  callback_fail, file_sources, found_sources, search_result,
}

-- A packet: the protocol's byte, the length of the body in four bytes, and the body.
abbrev pub IsFramed : List ℕ → Type 0
IsFramed packet = packet ≡ proto_edonkey ∷ le32 (length (drop 5 packet)) ++ drop 5 packet

-- The packets of fixed size are framed.
pub fixed-IsFramed :
    (cfg : Config) (srv : Server) (id : ℕ)
    → IsFramed (id_change cfg id)
      × IsFramed (server_status srv)
      × IsFramed reject
      × IsFramed callback_fail
unfolding id_change server_status reject callback_fail
fixed-IsFramed cfg srv id = (refl, refl, refl, refl)

-- A server message is framed if the length given is at most that of the text.
pub server_message-IsFramed :
    (msg : List ℕ) (len : ℕ) → len ≤ length msg → IsFramed (server_message msg len)
unfolding server_message
server_message-IsFramed msg len h =
    ap (λ (n : ℕ). header n ++ Op.servermessage ∷ le16 len ++ take len msg)
      (omega (arith, length-take len msg))

length-file_sources : (sources : List (ℕ × ℕ)) → length (file_sources sources) ≡ length sources * 6
unfolding file_sources
length-file_sources [] = refl
length-file_sources ((ip, port) ∷ sources) = omega (arith, length-file_sources sources)

-- A list of found sources is framed, if the hash has its 16 bytes.
pub found_sources-IsFramed :
    (hash : List ℕ) (sources : List (ℕ × ℕ))
    → length hash ≡ 16
    → IsFramed (found_sources hash sources)
unfolding found_sources
found_sources-IsFramed hash sources h =
    ap (λ (n : ℕ). header n ++ Op.foundsources ∷ hash ++ u8 (length sources) ∷ file_sources sources)
      (omega (
        arith,
        h,
        length-append hash (u8 (length sources) ∷ file_sources sources),
        length-file_sources sources,
      ))

pub search_result-IsFramed : (result : List ℕ) (count : ℕ) → IsFramed (search_result result count)
unfolding search_result
search_result-IsFramed result count =
    ap (λ (n : ℕ). header n ++ Op.searchresult ∷ le32 count ++ result) (omega arith)

-- The fields of an identity, whatever tags follow.
abbrev ident_fields : List ℕ → ℕ → ℕ → Bool → Bool → List ℕ → List ℕ → List ℕ
ident_fields hash ip port name descr n d =
    Op.serverstatus ∷ hash
    ++ le32 ip
    ++ le16 port
    ++ le32 (to_bit name + to_bit descr)
    ++ (if name then n else [])
    ++ (if descr then d else [])

ident_size :
    (hash : List ℕ) (ip port : ℕ) (name descr : Bool) (n d : List ℕ)
    → length hash ≡ 16
    → (if ltb 0 (to_bit name + to_bit descr)
        then length (ident_fields hash ip port name descr n d)
        else 32 - 5)
      ≡ length (ident_fields hash ip port name descr n d)
ident_size hash ip port true true n d h = refl
ident_size hash ip port true false n d h = refl
ident_size hash ip port false true n d h = refl
ident_size hash ip port false false n d h = simp (length-append {0}) (omega arith)

-- The server's identity is framed, with any combination of a name and a description, if the hash
-- has its 16 bytes.
pub server_ident-IsFramed : (cfg : Config) → length cfg.hash ≡ 16 → IsFramed (server_ident cfg)
unfolding server_ident server_ident_body
server_ident-IsFramed cfg h =
    ap (λ (n : ℕ). header n ++ server_ident_body cfg)
      (ident_size _ _ _ (ltb 0 cfg.server_name_len) (ltb 0 cfg.server_descr_len) _ _ h)
