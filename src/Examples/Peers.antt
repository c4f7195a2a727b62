-- ===== src/Examples/Peers.antt =====
-- The benchmark client and its packets, and configuration files.
use ed2kd.Base.{
  ℕ, ◌≤◌, ◌≡◌, ◌↔◌, refl, true, false, List, [], ◌∷◌, ◌++◌, Option, none, some, arith, length, take,
  codes, eqb, if◌then◌else◌,
}
use ed2kd.Base.Int.{pos}
use ed2kd.Wire.{malformed}
use ed2kd.Login.{parse_login}
use ed2kd.Eb.{Action, EbClient, EbInstance, read_cb}
use ed2kd.Eb.Login.{login_memory, parse_login-login_body}
use ed2kd.Eb.Loop.{IsShort, read_cb-IsShort}
use ed2kd.Eb.Main as Eb
use ed2kd.Eb.Main.{Libc, EbOpt}
use ed2kd.Config.{Settings, server_load_config, load_welcome, srv_ver}
use ed2kd.Config.Load.{IsThere, IsComplete, server_load_config-IsComplete, load_welcome-take}
use ed2kd.Util.Hex.{parse_hex}
use ed2kd.Main.{genhash, help, success, Answers, main, get_random_user_hash}
use ed2kd.Main.Genhash.{main-genhash}
use ed2kd.Examples.{ones, some_client}

abbrev zeros : ℕ → ℕ
zeros i = 0

abbrev as_is : List ℕ → Option (List ℕ)
as_is bytes = some bytes

abbrev new_client : EbClient
new_client = record { id = 0; hash = ones; ev_action = false; is_connected = true }

parse_login-login_body_example :
    parse_login (login_memory ones 7 zeros) 60 0 some_client
    ≡ malformed (record some_client { hash = ones; port = 0; nick = codes "ebtst"; nick_len = 5 })
parse_login-login_body_example = parse_login-login_body zeros some_client 7 ones refl

read_cb-IsShort_example :
    (left : List ℕ) × (c' : EbClient) × (read_cb as_is zeros (1 ∷ 2 ∷ 3 ∷ []) new_client
      ≡ some (left, c'))
    × IsShort zeros left
read_cb-IsShort_example = read_cb-IsShort as_is zeros (1 ∷ 2 ∷ 3 ∷ []) new_client

abbrev libc : Libc
libc = record { atoi = λ arg. pos (length arg); parse_sockaddr_port = λ addr. true }

-- eb -s host -c xx -r x -O
abbrev two_clients : List EbOpt
two_clients =
    EbOpt.server (codes "host")
    ∷ EbOpt.concurrency (codes "xx")
    ∷ EbOpt.repeat (codes "x")
    ∷ EbOpt.offer
    ∷ []

abbrev two_to_go : EbInstance
two_to_go = record {
  client_cnt = 2;
  repeat_cnt = 1;
  running_cnt = 0;
  actions = Action.offer ∷ [];
  broken = false;
}

abbrev a_file : Settings
a_file = record {
  parsed = true;
  lookup_string = λ name. some (codes "abcdefabcdefabcdefabcdefabcdefabcd");
  lookup_int = λ name. if eqb name (codes "max_clients") then none else some 100;
  pton = λ text. some 1;
  beyond = zeros;
}

server_load_config-IsComplete_example : IsThere (server_load_config a_file) ↔ IsComplete a_file
server_load_config-IsComplete_example = server_load_config-IsComplete a_file

load_welcome-take_example :
    let (len, msg) = load_welcome (some (codes "hi")) in
    (length msg ≡ 1025)
    × ((len ≤ length msg) ↔ (length (codes "hi") ≤ 996))
    × (length (codes "hi") ≤ 996 → take len msg ≡ srv_ver ++ (b'\n' ∷ codes "hi") ++ 0 ∷ [])
load_welcome-take_example = load_welcome-take (codes "hi")

abbrev all_well : Answers
all_well = record {
  seeded = true;
  random = ones;
  threads = true;
  base_main = true;
  base_tcp = true;
  threadsafe = true;
  opened = true;
  executed = true;
}

main-genhash_example :
    (text : List ℕ) × (main all_well (genhash ∷ help ∷ []) a_file ≡ success (some text))
    × (parse_hex text ≡ get_random_user_hash all_well.random)
    × (length (get_random_user_hash all_well.random) ≡ 16)
main-genhash_example = main-genhash all_well (help ∷ []) a_file refl refl (
  omega arith,
  (
    omega arith,
    (
      omega arith,
      (
        omega arith,
        (
          omega arith,
          (
            omega arith,
            (
              omega arith,
              (
                omega arith,
                (
                  omega arith,
                  (
                    omega arith,
                    (
                      omega arith,
                      (omega arith, (omega arith, (omega arith, (omega arith, (omega arith, tt))))),
                    ),
                  ),
                ),
              ),
            ),
          ),
        ),
      ),
    ),
  ),
)
