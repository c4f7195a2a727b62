-- ===== src/Client.antt =====
-- src/client.c and the inline functions of src/client.h: the life of a client. Handlers run on a
-- World; the database is a parameter of Sqlite's answers, the rest of the system one of System's.
pub mod Lowid
pub mod Delete
pub mod Portcheck
pub mod Share
mod Sharing
unfoldable pub use Sharing.{
  shared, mark_files, client_limit_warning, server_limit_warning, send_text, publish,
  client_share_files, client_get_sources,
}
use ed2kd.Base.{codes}
use ed2kd.Base.{
  ℕ, zero, suc, ◌+◌, ◌-◌, ◌*◌, ◌%◌, ◌^◌, Bool, true, false, not, ◌&&◌, ◌||◌, List, [], ◌∷◌, ◌++◌,
  Option, none, some, u32, ltb, leb, ◌==◌, if◌then◌else◌, eqb, length, to_bit,
}
use ed2kd.Proto.{max_lowid, max_found_sources}
use ed2kd.State.{
  ok, Config, Server, Client, World, System, M, ◌>>=◌, ◌>>◌, pure, get, set_client, set_server, ask,
  write,
}
use ed2kd.Util.Bucket.{token_bucket_init}
use ed2kd.Db.{PubFile, Sqlite, make_sid, db_share_files, db_remove_source, db_get_sources}
use ed2kd.Packet.{id_change, server_message, found_sources}

-- One round of get_next_lowid: the new id for the value of the counter that was loaded.
unfoldable pub next_lowid : ℕ → ℕ
next_lowid old_id = if ltb max_lowid (u32 (old_id + 1)) then 1 else u32 (old_id + 1)

-- The loop: each round loads the counter and then compares and exchanges it. The list has, for
-- each round, what the counter is at the load and at the exchange, as other threads leave it. The
-- result is the id, which is also the counter's new value; `none` if no round succeeds.
unfoldable pub get_next_lowid : List (ℕ × ℕ) → Option ℕ
get_next_lowid [] = none
get_next_lowid ((loaded, current) ∷ rounds) = elim (loaded == current) [
  | true ↦ some (next_lowid loaded)
  | false ↦ get_next_lowid rounds
]

abbrev zero_hash : List ℕ
zero_hash = 0 ∷ 0 ∷ 0 ∷ 0 ∷ 0 ∷ 0 ∷ 0 ∷ 0 ∷ 0 ∷ 0 ∷ 0 ∷ 0 ∷ 0 ∷ 0 ∷ 0 ∷ 0 ∷ []

-- client_new: the client in its first state, and the counter of users, which stops the listener.
unfoldable pub client_new : Config → ℕ → ℕ → Server → Client × Server
unfolding token_bucket_init
client_new cfg now₁ now₂ srv =
    let count = u32 (srv.user_count + 1) in
    (
      record {
        hash = zero_hash;
        ip = 0;
        port = 0;
        id = 0;
        nick = [];
        nick_len = 0;
        tcp_flags = 0;
        file_count = 0;
        portcheck_finished = false;
        lowid = false;
        shared_files = [];
        bev = false;
        bev_pc = false;
        evtimer_portcheck = false;
        evtimer_status_notify = false;
        ref_cnt = 0;
        deleted = false;
        limit_offer = token_bucket_init now₁ cfg.max_offers_limit;
        limit_search = token_bucket_init now₂ cfg.max_searches_limit;
        freed = false;
      },
      record srv {
        user_count = count;
        listening = if leb cfg.max_clients count then false else srv.listening;
      },
    )

-- The last statement of client_delete.
unfoldable pub free_unreferenced : Client → Client
free_unreferenced c = if c.ref_cnt == 0 then record c { freed = true } else c

-- The end of client_delete: the count of users falls, and may let the listener in again.
unfoldable pub leave_server : Config → Server → Server
leave_server cfg srv =
    let count = u32 (srv.user_count + 2 ^ 32 - 1) in
    record srv {
      user_count = count;
      listening = if ltb count cfg.max_clients then true else srv.listening;
    }

-- What client_delete clears in the client; the timers and bufferevents are freed and set to NULL.
unfoldable pub release : Client → Client
release c = record c {
  deleted = true;
  bev = false;
  bev_pc = false;
  evtimer_portcheck = false;
  evtimer_status_notify = false;
  file_count = 0;
  shared_files = [];
}

module _ {D : Type 0} (q : Sqlite D) where
  -- The client's sources leave the database, if it has shared files.
  unfoldable pub forget_sources : World D → World D
  forget_sources w = if w.clnt.file_count == 0 then w else record w {
    db = (db_remove_source q (make_sid w.clnt.id w.clnt.port) w.db).1;
    srv = record (w.srv) { file_count = u32 (w.srv.file_count + 2 ^ 32 - w.clnt.file_count) };
  }

  -- The block of client_delete under its compare and exchange.
  unfoldable pub delete_live : World D → World D
  unfolding forget_sources release leave_server
  delete_live w =
      let w' = forget_sources w in
      record w' { clnt = release w'.clnt; srv = leave_server w'.cfg w'.srv }

  -- client_delete
  unfoldable pub client_delete : M D (Unit {0})
  unfolding delete_live free_unreferenced
  client_delete w = elim w.clnt.deleted [
    | true ↦ ok (tt, record w { clnt = free_unreferenced w.clnt })
    | false ↦ let w' = delete_live w in ok (tt, record w' { clnt = free_unreferenced w'.clnt })
  ]

  -- client_addref, and client_decref with its condition as C reads it: `!old - 1` is not 0 when
  -- the count was not 0 before.
  unfoldable pub client_addref : M D (Unit {0})
  client_addref = set_client (λ c. record c { ref_cnt = u32 (c.ref_cnt + 1) })

  unfoldable pub client_decref : M D (Unit {0})
  unfolding client_delete
  client_decref = do
    w ← get
    set_client (λ c. record c { ref_cnt = u32 (c.ref_cnt + 2 ^ 32 - 1) })
    if not (w.clnt.ref_cnt == 0) && w.clnt.deleted then client_delete else pure tt

abbrev pub lowid_warning : List ℕ
lowid_warning =
    codes "WARNING: You have a lowid. Please review your network config and/or your settings."

module _ {D : Type 0} (q : Sqlite D) where
  -- The id of a low-id client comes from the counter; its port is forgotten.
  unfoldable pub give_lowid : M D (Unit {0})
  unfolding next_lowid
  give_lowid w =
      let id = next_lowid w.srv.lowid_counter in
      ok (
        tt,
        record w {
          srv = record (w.srv) { lowid_counter = id };
          clnt = record (w.clnt) { id = id; port = 0 };
        },
      )

  -- The end of client_portcheck_finish: the client learns its id, and its timer starts.
  unfoldable pub announce_id : M D (Unit {0})
  unfolding write
  announce_id = do
    w ← get
    write (id_change w.cfg w.clnt.id)
    set_client (λ c. record c { evtimer_status_notify = true })

  -- client_portcheck_finish; the flag is `result == PORTCHECK_SUCCESS`.
  unfoldable pub client_portcheck_finish : Bool → M D (Unit {0})
  unfolding give_lowid announce_id client_delete write
  client_portcheck_finish success = do
    set_client (λ c. record c {
      bev_pc = false;
      evtimer_portcheck = false;
      portcheck_finished = true;
      lowid = not success;
    })
    w ← get
    elim success [
      | true ↦ set_client (λ c. record c { id = c.ip }) >> announce_id
      | false ↦
          send_text lowid_warning
          >> (elim w.cfg.allow_lowid [ true ↦ give_lowid >> announce_id | false ↦ client_delete q ])
    ]

  -- client_portcheck_start
  unfoldable pub client_portcheck_start : System → M D (Unit {0})
  unfolding client_portcheck_finish
  client_portcheck_start sys = do
    set_client (λ c. record c { bev_pc = true })
    started ← ask sys.connects
    elim started [
      | true ↦ set_client (λ c. record c { evtimer_portcheck = true })
      | false ↦ set_client (λ c. record c { bev_pc = false }) >> client_portcheck_finish false
    ]
