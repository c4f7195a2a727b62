-- ===== src/Eb/Main.antt =====
-- eb/src/main.c: main, from the command line to the event loop.
pub mod Run
use ed2kd.Base.{
  ℕ, zero, suc, ◌+◌, ◌*◌, ◌/◌, ◌%◌, Bool, true, false, ◌&&◌, List, [], ◌∷◌, Option, none, some,
  if◌then◌else◌, ltb, ◌==◌,
}
use ed2kd.Base.Int.{ℤ, pos, negsuc, pos_part, neg_part}
use ed2kd.Eb.{EbInstance}
use ed2kd.Eb.Instance.{select_actions}

-- What getopt_long makes of an argument, with optarg; `unknown` is any other one.
pub data EbOpt : Type 0 where
  version help unknown offer query source : EbOpt
  server concurrency spawn_pause repeat action_pause : List ℕ → EbOpt

-- The C library: atoi, and whether evutil_parse_sockaddr_port takes an address.
pub record Libc : Type 0 where
  pub atoi : List ℕ → ℤ
  pub parse_sockaddr_port : List ℕ → Bool

-- A timeval: seconds and microseconds.
abbrev pub Timeval : Type 0
Timeval = ℤ × ℤ

-- The variables of main and the fields of g_eb that options set.
pub record Line : Type 0 where
  pub server_addr : Option (List ℕ)
  pub tv_action : Timeval
  pub tv_spawn : Timeval
  pub client_cnt : ℤ
  pub repeat_cnt : ℤ
  pub offer_flag : Bool
  pub query_flag : Bool
  pub source_flag : Bool

abbrev pub no_options : Line
no_options = record {
  server_addr = none;
  tv_action = (pos 0, pos 0);
  tv_spawn = (pos 0, pos 0);
  client_cnt = pos 0;
  repeat_cnt = pos 0;
  offer_flag = false;
  query_flag = false;
  source_flag = false;
}

abbrev neg : ℕ → ℤ
neg zero = pos 0
neg (suc n) = negsuc n

-- val / 1000 and (val % 1000) * 1000, which C rounds towards 0.
unfoldable pub msecs : ℤ → Timeval
msecs (pos n) = (pos (n / 1000), pos (n % 1000 * 1000))
msecs (negsuc n) = (neg (suc n / 1000), neg (suc n % 1000 * 1000))

abbrev pub is_zero : ℤ → Bool
is_zero z = pos_part z == 0 && neg_part z == 0

-- Where no pause was given, or 0, the default.
unfoldable pub or_default : ℕ → Timeval → Timeval
or_default msec tv =
    if is_zero tv.0 && is_zero tv.1 then (pos (msec / 1000), pos (msec % 1000 * 1000)) else tv

-- The end of main: EXIT_SUCCESS, EXIT_FAILURE, or the event loop with the instance, the pause
-- between clients and that between actions.
pub data EbOutcome : Type 0 where
  success failure : EbOutcome
  runs : EbInstance → Timeval → Timeval → EbOutcome

pub data Options : Type 0 where
  ends : Bool → Options
  goes : Line → Options

-- The loop over the command line; the flag is that of EXIT_SUCCESS.
unfoldable pub read_options : Libc → List EbOpt → Line → Options
unfolding msecs
read_options libc [] l = goes l
read_options libc (version ∷ opts) l = ends true
read_options libc (help ∷ opts) l = ends true
read_options libc (unknown ∷ opts) l = ends false
read_options libc (server addr ∷ opts) l =
    read_options libc opts (record l { server_addr = some addr })
read_options libc (action_pause arg ∷ opts) l =
    read_options libc opts (record l { tv_action = msecs (libc.atoi arg) })
read_options libc (concurrency arg ∷ opts) l =
    read_options libc opts (record l { client_cnt = libc.atoi arg })
read_options libc (spawn_pause arg ∷ opts) l =
    read_options libc opts (record l { tv_spawn = msecs (libc.atoi arg) })
read_options libc (repeat arg ∷ opts) l =
    read_options libc opts (record l { repeat_cnt = libc.atoi arg })
read_options libc (offer ∷ opts) l = read_options libc opts (record l { offer_flag = true })
read_options libc (query ∷ opts) l = read_options libc opts (record l { query_flag = true })
read_options libc (source ∷ opts) l = read_options libc opts (record l { source_flag = true })

abbrev has_server : Libc → Option (List ℕ) → Bool
has_server libc none = false
has_server libc (some addr) = libc.parse_sockaddr_port addr

-- Behind the options, with the answers of evutil_secure_rng_init and event_base_new.
unfoldable pub start_up : Libc → Bool → Bool → Line → EbOutcome
unfolding select_actions or_default
start_up libc seeded base l =
    if has_server libc l.server_addr
      && (ltb 0 (pos_part l.repeat_cnt) && ltb 0 (pos_part l.client_cnt))
    then (let (actions, repeat_cnt) =
          select_actions l.offer_flag l.query_flag l.source_flag (pos_part l.repeat_cnt) in
        if seeded && base
        then runs
            (record {
              client_cnt = pos_part l.client_cnt;
              repeat_cnt = repeat_cnt;
              running_cnt = 0;
              actions = actions;
              broken = false;
            })
            (or_default 100 l.tv_spawn) (or_default 500 l.tv_action)
        else failure)
    else failure

-- main
unfoldable pub main : Libc → Bool → Bool → List EbOpt → EbOutcome
unfolding read_options start_up
main libc seeded base opts = elim (read_options libc opts no_options) [
  | ends well ↦ if well then success else failure
  | goes l ↦ start_up libc seeded base l
]
