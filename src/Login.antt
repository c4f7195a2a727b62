-- ===== src/Login.antt =====
-- src/server.c: process_login_request.
pub mod Reads
pub mod Keeping
pub mod Fields
use ed2kd.Base.{
  ℕ, zero, suc, ◌+◌, ◌*◌, ◌/◌, ◌%◌, Bool, true, false, List, ◌==◌, ◌<◌, if◌then◌else◌, length,
}
use ed2kd.Proto.{edonkeyversion, max_nick_len, ed2k_hash_size}
use ed2kd.Proto.Tt
use ed2kd.Proto.Tn
use ed2kd.State.{Client, World, System, M, ok, fault}
use ed2kd.Db.{Sqlite}
use ed2kd.Client.{client_portcheck_start}
use ed2kd.Wire.{
  P, Out, go, malformed, ◌>>=◌, ◌>>◌, pure, modify, check, here, seek, memcpy_into, read16_into,
  read32_into, read32, read_string_into, skip_taghdr, tag_type, tag_name_len, tag_name_at,
}

-- The fields that a login sets.
abbrev pub set_hash : List ℕ → Client → Client
set_hash bytes c = record c { hash = bytes }

abbrev pub set_port : ℕ → Client → Client
set_port v c = record c { port = v }

abbrev pub set_nick : List ℕ → Client → Client
set_nick bytes c = record c { nick = bytes; nick_len = length bytes }

abbrev pub set_tcp_flags : ℕ → Client → Client
set_tcp_flags v c = record c { tcp_flags = v }

-- The header of a tag: an old-style type (type & 0x80 is 0) and a name of one byte. The result is
-- the type and the name.
unfoldable pub login_taghdr : (ℕ → ℕ) → ℕ → P Client (ℕ × ℕ)
unfolding check skip_taghdr
login_taghdr m e = do
  at ← here
  check (tag_type m at / 128 % 2 == 0)
  check (1 == tag_name_len m at)
  skip_taghdr m e at
  pure (tag_type m at, m (tag_name_at at))

-- The cases of the switch.
unfoldable pub nick_value : (ℕ → ℕ) → ℕ → ℕ → P Client (Unit {0})
unfolding check read_string_into
nick_value m e type = do
  check (Tt.string == type)
  modify (λ c. record c { nick_len = max_nick_len })
  read_string_into m e max_nick_len set_nick

unfoldable pub port_value : (ℕ → ℕ) → ℕ → ℕ → P Client (Unit {0})
unfolding check read16_into
port_value m e type = do check (Tt.uint16 == type); read16_into m e set_port

unfoldable pub version_value : (ℕ → ℕ) → ℕ → ℕ → P Client (Unit {0})
unfolding check read32
version_value m e type = do
  check (Tt.uint32 == type)
  ver ← read32 m e
  check (edonkeyversion == ver)

unfoldable pub flags_value : (ℕ → ℕ) → ℕ → ℕ → P Client (Unit {0})
unfolding check read32_into
flags_value m e type = do check (Tt.uint32 == type); read32_into m e set_tcp_flags

unfoldable pub emule_value : (ℕ → ℕ) → ℕ → ℕ → P Client (Unit {0})
unfolding check read32
emule_value m e type = do check (Tt.uint32 == type); emule_ver ← read32 m e; pure tt

unfoldable pub login_value : (ℕ → ℕ) → ℕ → ℕ → ℕ → P Client (Unit {0})
unfolding nick_value port_value version_value flags_value emule_value
login_value m e type name =
    if name == Tn.name
    then nick_value m e type
    else if name == Tn.port
    then port_value m e type
    else if name == Tn.version
    then version_value m e type
    else if name == Tn.server_flags
    then flags_value m e type
    else if name == Tn.emule_version
    then emule_value m e type
    else check false

unfoldable pub login_tag : (ℕ → ℕ) → ℕ → P Client (Unit {0})
unfolding login_taghdr login_value
login_tag m e = login_taghdr m e >>= λ t. login_value m e t.0 t.1

-- for (; tag_count > 0; --tag_count)
unfoldable pub login_tags : (ℕ → ℕ) → ℕ → ℕ → P Client (Unit {0})
unfolding login_tag
login_tags m e zero p c = go p c tt
login_tags m e (suc n) p c = elim (login_tag m e p c) [
  | go p' c' _ ↦ login_tags m e n p' c'
  | malformed c' ↦ malformed c'
]

-- The statements up to client_portcheck_start.
unfoldable pub parse_login : (ℕ → ℕ) → ℕ → P Client (Unit {0})
unfolding memcpy_into seek read16_into read32 login_tags
parse_login m e = do
  memcpy_into m e ed2k_hash_size set_hash
  seek e 4
  read16_into m e set_port
  tag_count ← read32 m e
  login_tags m e tag_count

-- process_login_request, with the packet at address 0; what it returns is 1 or 0.
unfoldable pub process_login_request : {D : Type 0} → Sqlite D → System → (ℕ → ℕ) → ℕ → M D Bool
unfolding parse_login client_portcheck_start
process_login_request q sys m e w = elim (parse_login m e 0 w.clnt) [
  | go p c _ ↦ elim (client_portcheck_start q sys (record w { clnt = c })) [
    | ok (_, w') ↦ ok (true, w')
    | fault f ↦ fault f
  ]
  | malformed c ↦ ok (false, record w { clnt = c })
]
