-- ===== src/Examples.antt =====
-- Test data: a configuration, a client, and a database that holds the numbers of its sources.
pub mod Reading
pub mod Life
pub mod Text
pub mod Workers
pub mod Nights
pub mod Peers
pub mod Tables
pub mod Stores
use ed2kd.Base.{ℕ, Bool, true, false, List, [], ◌∷◌, Option, none, some, codes}
use ed2kd.Base.Int.{pos}
use ed2kd.State.{Config, Server, Client, World, System}
use ed2kd.Db.{PubFile, Sqlite}

abbrev pub ones : List ℕ
ones = 1 ∷ 1 ∷ 1 ∷ 1 ∷ 1 ∷ 1 ∷ 1 ∷ 1 ∷ 1 ∷ 1 ∷ 1 ∷ 1 ∷ 1 ∷ 1 ∷ 1 ∷ 1 ∷ []

abbrev pub small_config : Config
small_config = record {
  listen_addr_inaddr = 0;
  listen_port = 4661;
  listen_backlog = 5;
  hash = ones;
  srv_tcp_flags = 1;
  welcome_msg_len = 2;
  welcome_msg = codes "hi";
  server_name_len = 3;
  server_name = codes "srv";
  server_descr_len = 0;
  server_descr = [];
  max_clients = 3;
  max_files = 10;
  max_files_per_client = 5;
  max_offers_limit = 2;
  max_searches_limit = 2;
  allow_lowid = true;
}

abbrev pub busy_server : Server
busy_server = record { user_count = 3; file_count = 4; lowid_counter = 7; listening = false }

abbrev pub some_client : Client
some_client = record {
  hash = ones;
  ip = 0x7f000001;
  port = 4662;
  id = 0;
  nick = codes "me";
  nick_len = 2;
  tcp_flags = 0;
  file_count = 1;
  portcheck_finished = false;
  lowid = false;
  shared_files = ones ∷ [];
  bev = true;
  bev_pc = true;
  evtimer_portcheck = true;
  evtimer_status_notify = false;
  ref_cnt = 1;
  deleted = false;
  limit_offer = record { tokens = pos 2; last_update = 0 };
  limit_search = record { tokens = pos 2; last_update = 0 };
  freed = false;
}

abbrev pub sources : Sqlite (List ℕ)
sources = record {
  share_upd = λ f db. some (0, db);
  share_ins = λ f db. some db;
  share_src = λ fid sid complete rating db. some (sid ∷ db);
  remove_src = λ sid db. some [];
  get_src = λ fid count db. some (db, true);
  search = λ query values db. some ([], true);
}

abbrev pub quiet : System
quiet = record {
  clock = λ n. n;
  connects = λ n. true;
  local_addr = λ n. 0x7f000001;
  uncompress = λ bytes. some bytes;
  beyond = λ i. 0;
}

abbrev pub a_world : World (List ℕ)
a_world = record {
  cfg = small_config;
  srv = busy_server;
  clnt = some_client;
  db = 5 ∷ [];
  out = [];
  calls = 0;
}

-- The client after its port check, with its address for an id.
abbrev pub checked_world : World (List ℕ)
checked_world = record a_world {
  clnt = record some_client {
    id = 0x7f000001;
    portcheck_finished = true;
    bev_pc = false;
    evtimer_portcheck = false;
  };
}

abbrev pub a_file : PubFile
a_file = record {
  hash = ones;
  name_len = 5;
  name = codes "a.mp3";
  size = 100;
  rating = 0;
  type = 1;
  media_length = 0;
  media_bitrate = 0;
  media_codec_len = 0;
  media_codec = [];
  complete = true;
}
