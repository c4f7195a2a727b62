-- ===== src/Examples/Life.antt =====
-- Runs of the handlers that change a client's life.
use ed2kd.Base.{none, ℕ, ◌+◌, ◌≤◌, ◌≡◌, ◌≢◌, refl, true, false, List, [], ◌∷◌, arith, ◌==◌}
use ed2kd.Proto.{proto_edonkey, max_lowid}
use ed2kd.Proto.Op
use ed2kd.State.{World, fault, use_after_free, Ensures, to_client}
use ed2kd.Db.{Sqlite, share_file, db_share_files, PubFile}
use ed2kd.Packet.{id_change}
use ed2kd.Client.{
  mark_files, shared, get_next_lowid, next_lowid, client_delete, delete_live, free_unreferenced,
  client_share_files,
}
use ed2kd.Client.Lowid.{Served, at_first, served, get_next_lowid-Served}
use ed2kd.Client.Delete.{IsGone, client_delete_live}
use ed2kd.Client.Share.{
  IsCounted, AllShared, client_share_files-IsCounted, client_share_files_failed,
}
use ed2kd.Dispatch
use ed2kd.Dispatch.Reject.{process_packet_rejected}
use ed2kd.Dispatch.Read.{InTime, server_read-InTime, server_read-disconnect}
use ed2kd.Examples.{small_config, some_client, sources, quiet, a_world, checked_world, a_file}

abbrev duplicate : PubFile
duplicate = record a_file { name_len = 0 }

abbrev one_source : List (ℕ × ℕ)
one_source = (0, 5) ∷ []

abbrev six : Served 5 1 6
unfolding get_next_lowid next_lowid
six = served at_first ((5, 5) ∷ []) (λ e. refl, tt) refl

-- Before this id was exchanged, another thread had moved the counter.
abbrev seven : Served 5 2 7
unfolding get_next_lowid next_lowid
seven = served six ((5, 6) ∷ (6, 6) ∷ []) (λ e. absurd (omega (arith, e)), (λ e. refl, tt)) refl

get_next_lowid-Served_example : (◌≢◌ {A = ℕ} 6 7) × (1 ≤ 7) × (7 ≤ max_lowid)
unfolding get_next_lowid next_lowid
get_next_lowid-Served_example =
    get_next_lowid-Served {n = 1} (omega arith) (omega arith) six seven (omega arith) (omega arith)

client_delete_live_example : Ensures (client_delete sources a_world) (λ _ w'.
    IsGone w'.clnt
    × (w'.clnt.freed ≡ (1 == 0))
    × (w'.srv.user_count + 1 ≡ 3)
    × (w'.srv.file_count + 1 ≡ 4))
client_delete_live_example =
    client_delete_live sources a_world refl refl (omega arith) (omega arith) (omega arith)
      (omega arith)

abbrev gone_world : World (List ℕ)
gone_world = record a_world {
  clnt = record some_client { deleted = true; bev = false; bev_pc = false };
}

abbrev strict_world : World (List ℕ)
strict_world = record a_world { cfg = record small_config { allow_lowid = false } }

abbrev new_file : PubFile
new_file = record a_file { hash = [] }

taken_one : (sid : ℕ) (f : PubFile) (db : List ℕ) → share_file sources sid f db ≡ (true, sid ∷ db)
unfolding share_file
taken_one sid f db = refl

all_taken :
    (sid : ℕ) (fs : List PubFile) (db : List ℕ) → (db_share_files sources sid fs db).0 ≡ true
unfolding db_share_files
all_taken sid [] db = refl
all_taken sid (f ∷ fs) db =
    ground (arith, taken_one sid f db, all_taken sid fs db, all_taken sid fs (sid ∷ db))

client_share_files-IsCounted_example :
    Ensures (client_share_files sources (a_file ∷ new_file ∷ []) a_world) (λ _ w'.
      IsCounted w'.clnt
      × (w'.srv.file_count + 1 ≡ 4 + w'.clnt.file_count)
      × AllShared w'.clnt.shared_files (a_file ∷ new_file ∷ []))
client_share_files-IsCounted_example =
    client_share_files-IsCounted sources (a_file ∷ new_file ∷ []) a_world (omega arith, omega arith)
      refl (omega arith) (omega arith) (λ sid fs. all_taken sid fs (5 ∷ []))

abbrev broken : Sqlite (List ℕ)
broken = record sources { share_upd = λ f db. none }

client_share_files_failed_example :
    Ensures (client_share_files broken (new_file ∷ []) a_world) (λ _ w'.
      AllShared w'.clnt.shared_files (new_file ∷ [])
      × (w'.clnt.file_count ≡ 1)
      × (w'.srv.file_count ≡ 4))
unfolding db_share_files share_file shared mark_files
client_share_files_failed_example =
    client_share_files_failed broken (new_file ∷ []) a_world (omega arith, omega arith) refl

-- What a right answer leaves.
abbrev answered_world : World (List ℕ)
answered_world = record a_world {
  clnt = record some_client {
    id = 0x7f000001;
    bev_pc = false;
    evtimer_portcheck = false;
    portcheck_finished = true;
    evtimer_status_notify = true;
  };
  out = to_client (id_change small_config 0x7f000001) ∷ [];
}

-- What an unknown packet leaves.
abbrev dropped_world : World (List ℕ)
dropped_world =
    let w = delete_live sources checked_world in record w { clnt = free_unreferenced w.clnt }

process_packet_rejected_example : dropped_world.clnt.deleted ≡ true
unfolding Dispatch.process_packet
process_packet_rejected_example =
    process_packet_rejected sources quiet (λ _. 0) 3 0xff checked_world dropped_world refl

server_read-InTime_example :
    InTime
      (Dispatch.server_read sources quiet (proto_edonkey ∷ 1 ∷ 0 ∷ 0 ∷ 0 ∷ 0xff ∷ []) checked_world)
server_read-InTime_example =
    server_read-InTime sources quiet (proto_edonkey ∷ 1 ∷ 0 ∷ 0 ∷ 0 ∷ 0xff ∷ []) checked_world

server_read-disconnect_example :
    Dispatch.server_read sources quiet
      (proto_edonkey ∷ 1 ∷ 0 ∷ 0 ∷ 0 ∷ Op.disconnect ∷ 5 ∷ [])
      checked_world
    ≡ fault use_after_free
server_read-disconnect_example =
    server_read-disconnect sources quiet (5 ∷ []) checked_world refl refl
