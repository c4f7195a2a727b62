-- ===== src/Client/Delete.antt =====
-- client_delete, the reference count, and the listener.
use ed2kd.Base.{ℕ, ◌+◌, ◌-◌, ◌^◌, ◌≤◌, ◌<◌, ◌≡◌, true, false, [], arith, ◌==◌, ltb}
use ed2kd.State.{Config, Server, Client, World, ok, ◌>>◌, Ensures}
use ed2kd.Db.{Sqlite}
use ed2kd.Client.{
  client_new, client_delete, client_addref, client_decref, leave_server, free_unreferenced,
  delete_live,
}

-- The listener runs exactly while there is room for another client.
abbrev pub IsListening : Config → Server → Type 0
IsListening cfg srv = srv.listening ≡ ltb srv.user_count cfg.max_clients

pub client_new-IsListening :
    (cfg : Config) (now₁ now₂ : ℕ) (srv : Server)
    → srv.user_count + 1 < 2 ^ 32
    → IsListening cfg srv
    → IsListening cfg (client_new cfg now₁ now₂ srv).1
unfolding client_new
client_new-IsListening cfg now₁ now₂ srv h l = ground arith

leave_server-IsListening :
    (cfg : Config) (srv : Server)
    → 0 < srv.user_count
    → srv.user_count < 2 ^ 32
    → IsListening cfg srv
    → IsListening cfg (leave_server cfg srv)
unfolding leave_server
leave_server-IsListening cfg srv p h l = ground arith

-- What is true of a client that was deleted: it has no connection, timer or shared file.
pub record IsGone (c : Client) : Type 0 where
  pub flag : c.deleted ≡ true
  pub no_bev : c.bev ≡ false
  pub no_bev_pc : c.bev_pc ≡ false
  pub no_portcheck_timer : c.evtimer_portcheck ≡ false
  pub no_status_timer : c.evtimer_status_notify ≡ false
  pub no_files : c.file_count ≡ 0
  pub no_hashes : c.shared_files ≡ []

module _ {D : Type 0} (q : Sqlite D) where
  released :
      (w : World D)
      → w.clnt.freed ≡ false
      → 0 < w.srv.user_count
      → w.srv.user_count < 2 ^ 32
      → w.clnt.file_count ≤ w.srv.file_count
      → w.srv.file_count < 2 ^ 32
      → let w' = delete_live q w in
        let c = free_unreferenced w'.clnt in
        IsGone c
        × (c.freed ≡ (w.clnt.ref_cnt == 0))
        × (w'.srv.user_count + 1 ≡ w.srv.user_count)
        × (w'.srv.file_count + w.clnt.file_count ≡ w.srv.file_count)
  unfolding delete_live free_unreferenced
  released w held u1 u2 f1 f2 = ground arith

  -- Deleting a client that was not deleted or freed, on a server whose 32-bit counters count it and
  -- its files, never faults. It leaves a client that is gone, freed
  -- exactly if nothing refers to it; the server has one user less and the client's files less.
  pub client_delete_live :
      (w : World D)
      → w.clnt.deleted ≡ false
      → w.clnt.freed ≡ false
      → 0 < w.srv.user_count
      → w.srv.user_count < 2 ^ 32
      → w.clnt.file_count ≤ w.srv.file_count
      → w.srv.file_count < 2 ^ 32
      → Ensures (client_delete q w) (λ _ w'.
        IsGone w'.clnt
        × (w'.clnt.freed ≡ (w.clnt.ref_cnt == 0))
        × (w'.srv.user_count + 1 ≡ w.srv.user_count)
        × (w'.srv.file_count + w.clnt.file_count ≡ w.srv.file_count))
  unfolding client_delete
  client_delete_live w live held u1 u2 f1 f2 =
      rw (live, client_delete) (released w held u1 u2 f1 f2)

  -- Deleting a client twice is deleting it once.
  pub client_delete_twice :
      (w : World D) → (client_delete q >> client_delete q) w ≡ client_delete q w
  unfolding client_delete
  client_delete_twice w = ground arith

  -- A job that takes a reference and gives it back leaves everything as it was, if the
  -- client was not deleted and the count of references does not overflow.
  pub client_addref-client_decref :
      (w : World D)
      → w.clnt.deleted ≡ false
      → w.clnt.ref_cnt + 1 < 2 ^ 32
      → (client_addref q >> client_decref q) w ≡ ok (tt, w)
  unfolding client_addref client_decref
  client_addref-client_decref w live h = ground arith

  -- Giving back a reference to a deleted client that is not freed, and has references, frees it exactly if it was the last one, and
  -- changes nothing else.
  pub client_decref_deleted :
      (w : World D)
      → w.clnt.deleted ≡ true
      → w.clnt.freed ≡ false
      → 0 < w.clnt.ref_cnt
      → w.clnt.ref_cnt < 2 ^ 32
      → client_decref q w
        ≡ ok (
          tt,
          record w {
            clnt = record (w.clnt) { ref_cnt = w.clnt.ref_cnt - 1; freed = w.clnt.ref_cnt == 1 };
          },
        )
  unfolding client_decref free_unreferenced
  client_decref_deleted w gone held p h = ground arith

  -- Deleting a client that was not deleted, on a server that counts it, keeps the listener in step
  -- with the number of users.
  pub client_delete-IsListening :
      (w : World D)
      → w.clnt.deleted ≡ false
      → 0 < w.srv.user_count
      → w.srv.user_count < 2 ^ 32
      → IsListening w.cfg w.srv
      → Ensures (client_delete q w) (λ _ w'. IsListening w'.cfg w'.srv)
  unfolding client_delete
  client_delete-IsListening w live p h l = rw (live, client_delete) (ground arith)
