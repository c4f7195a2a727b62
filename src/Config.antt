-- ===== src/Config.antt =====
-- src/config.c: the configuration file, as libconfig reads it.
pub mod Load
use ed2kd.Base.{
  ℕ, zero, suc, ◌+◌, ◌-◌, ◌*◌, ◌/◌, ◌%◌, ◌^◌, Bool, true, false, not, ◌&&◌, List, [], ◌∷◌, ◌++◌,
  Option, none, some, if◌then◌else◌, ltb, ◌==◌, u16, place, length, take, codes,
}
use ed2kd.Base.Int.{ℤ, pos, sub_ℕ}
use ed2kd.Proto.{
  ed2k_hash_size, srv_tcpflg_compression, srv_tcpflg_typetaginteger, srv_tcpflg_largefiles,
}
use ed2kd.State.{Config}
use ed2kd.Util.Hex.{hex2bin}

abbrev pub max_welcomemsg_len : ℕ
max_welcomemsg_len = 1024

abbrev pub max_server_name_len : ℕ
max_server_name_len = 64

abbrev pub max_server_descr_len : ℕ
max_server_descr_len = 64

-- What libconfig says of a file: whether it could be parsed, and the settings of a name that are a
-- text, without its null byte, or an integer, as the 32 bits of an int. `pton` is
-- evutil_inet_pton, and `beyond` the memory behind a text.
pub record Settings : Type 0 where
  pub parsed : Bool
  pub lookup_string : List ℕ → Option (List ℕ)
  pub lookup_int : List ℕ → Option ℕ
  pub pton : List ℕ → Option ℕ
  pub beyond : ℕ → ℕ

-- srv_ver, without its null byte
abbrev pub srv_ver : List ℕ
srv_ver = codes "server version17.15 (ed2kd)"

-- An int that is stored as a size_t.
unfoldable pub to_size : ℕ → ℕ
to_size int_val = if ltb int_val (2 ^ 31) then int_val else int_val + 2 ^ 64 - 2 ^ 32

-- Milliseconds, as an int, to the seconds and microseconds of a timeval; C rounds towards 0.
unfoldable pub to_timeval : ℕ → ℤ × ℤ
to_timeval int_val =
    if ltb int_val (2 ^ 31)
    then (pos (int_val / 1000), pos (int_val % 1000 * 1000))
    else (sub_ℕ 0 ((2 ^ 32 - int_val) / 1000), sub_ℕ 0 ((2 ^ 32 - int_val) % 1000 * 1000))

-- An array of `n` bytes that starts with a text; the rest is 0, as memset has left it.
unfoldable pub fill : ℕ → List ℕ → List ℕ
fill zero xs = []
fill (suc n) [] = 0 ∷ fill n []
fill (suc n) (x ∷ xs) = x ∷ fill n xs

-- The welcome message: its length, and the array. evutil_snprintf writes at most
-- MAX_WELCOMEMSG_LEN bytes and a null byte.
unfoldable pub load_welcome : Option (List ℕ) → ℕ × List ℕ
unfolding fill
load_welcome none = (length srv_ver, fill (max_welcomemsg_len + 1) srv_ver)
load_welcome (some str_val) = (
  length srv_ver + 1 + length str_val + 1,
  fill (max_welcomemsg_len + 1) (take max_welcomemsg_len (srv_ver ++ b'\n' ∷ str_val)),
)

-- The server's name, and its description: the length, of a size_t one less than strlen, and the
-- array, into which strncpy copies one byte more.
unfoldable pub load_text : ℕ → Option (List ℕ) → ℕ × List ℕ
unfolding fill
load_text max_len none = (0, fill (max_len + 1) [])
load_text max_len (some str_val) =
    let len = (length str_val + 2 ^ 64 - 1) % 2 ^ 64 in
    let text_len = if ltb len max_len then len else max_len in
    (text_len, fill (max_len + 1) (take (text_len + 1) str_val))

-- hex2bin into the array that memset has cleared; its result is not looked at.
unfoldable pub load_hash : (ℕ → ℕ) → List ℕ → List ℕ
unfolding hex2bin fill place
load_hash beyond str_val =
    fill ed2k_hash_size (hex2bin (place (str_val ++ 0 ∷ []) beyond) ed2k_hash_size).1

-- struct server_config as it is used behind this file, with the fields that only the timers and the
-- listener read.
pub record Loaded : Type 0 where
  pub cfg : Config
  pub listen_addr : List ℕ
  pub portcheck_timeout_tv : ℤ × ℤ
  pub status_notify_tv : ℤ × ℤ

-- A setting that must be there: the code sets `ret` to 0 and goes on; the value is then not used.
infixl 5 ◌needs◌
abbrev pub ◌needs◌ {ℓ} : {A : Type 0} {B : Type ℓ} → Option A → (A → Option B) → Option B
o needs f = elim o [ none ↦ none | some a ↦ f a ]

-- server_load_config: the configuration that g_srv gets if the result is 1.
unfoldable pub server_load_config : Settings → Option Loaded
unfolding to_size to_timeval load_welcome load_text load_hash
server_load_config s =
    if not s.parsed
    then none
    else (s.lookup_string (codes "listen_addr") needs λ addr.
        s.lookup_int (codes "listen_port") needs λ port.
        s.lookup_int (codes "listen_backlog") needs λ backlog.
        s.lookup_string (codes "server_hash") needs λ hash.
        s.lookup_int (codes "allow_lowid") needs λ lowid.
        s.lookup_int (codes "portcheck_timeout") needs λ timeout.
        s.lookup_int (codes "status_notify_interval") needs λ interval.
        s.lookup_int (codes "max_clients") needs λ clients.
        s.lookup_int (codes "max_files") needs λ files.
        s.lookup_int (codes "max_files_per_client") needs λ per_client.
        s.lookup_int (codes "max_offers_limit") needs λ offers.
        s.lookup_int (codes "max_searches_limit") needs λ searches.
        let (welcome_len, welcome) = load_welcome (s.lookup_string (codes "welcome_message")) in
        let (name_len, name) =
          load_text max_server_name_len (s.lookup_string (codes "server_name")) in
        let (descr_len, descr) =
          load_text max_server_descr_len (s.lookup_string (codes "server_descr")) in
        some (record {
          cfg = record {
            listen_addr_inaddr = elim (s.pton addr) [ none ↦ 0 | some a ↦ a ];
            listen_port = u16 port;
            listen_backlog = backlog;
            hash = load_hash s.beyond hash;
            srv_tcp_flags =
                srv_tcpflg_compression + srv_tcpflg_typetaginteger + srv_tcpflg_largefiles;
            welcome_msg_len = welcome_len;
            welcome_msg = welcome;
            server_name_len = name_len;
            server_name = name;
            server_descr_len = descr_len;
            server_descr = descr;
            max_clients = to_size clients;
            max_files = to_size files;
            max_files_per_client = to_size per_client;
            max_offers_limit = to_size offers;
            max_searches_limit = to_size searches;
            allow_lowid = not (lowid == 0);
          };
          listen_addr = addr;
          portcheck_timeout_tv = to_timeval timeout;
          status_notify_tv = to_timeval interval;
        }))

-- server_free_config: g_srv has no configuration any more.
unfoldable pub server_free_config : Option Loaded → Option Loaded
server_free_config cfg = none
