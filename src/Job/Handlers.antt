-- ===== src/Job/Handlers.antt =====
-- src/client.c, src/server.c and src/portcheck.c: the handlers, and the switch of the workers.
use ed2kd.Base.{ℕ, ◌≡◌, refl, Bool, true, false, List, Option, none, some, arith}
use ed2kd.State.{Client, World, System, M, Res, ok, fault, pure, write}
use ed2kd.Db.{Sqlite, PubFile, make_sid}
use ed2kd.Db.Moves.{Moves-refl, shared_once, removed_once}
use ed2kd.Wire.{Out, go, malformed}
use ed2kd.Wire.Keeping.{Holds}
use ed2kd.Client.{
  client_delete, free_unreferenced, delete_live, forget_sources, release, give_lowid, announce_id,
  client_portcheck_finish, client_portcheck_start, publish, mark_files, client_share_files,
  client_get_sources,
}
use ed2kd.Login.{parse_login, process_login_request}
use ed2kd.Login.Keeping.{IsStable, parse_login-Keeps}
use ed2kd.Offer.{parse_offer, process_offer_files}
use ed2kd.Search.{parse_search}
use ed2kd.Search.Query.{client_search_files, db_search_files}
use ed2kd.Packet.{search_result}
use mathlib.Core.Path.{subst}
use ed2kd.Proto.{max_search_files}
use ed2kd.Search.{Node}
use ed2kd.Dispatch.{process_search_request}
use ed2kd.Job.Steady.{
  Stays, Alike-Stays, Kept, Steady, Stays-refl, Stays-trans, Kept-trans, Steady-write,
}

module _ {D : Type 0} (q : Sqlite D) (sys : System) where
  delete_stays : (w : World D) → Kept q w (client_delete q w)
  unfolding client_delete free_unreferenced delete_live forget_sources release
  delete_stays w =
      ground (arith, Moves-refl q w.db, removed_once q (make_sid w.clnt.id w.clnt.port) w.db)

  pub Steady-client_delete : Steady q (client_delete q)
  Steady-client_delete = record { steady = delete_stays }

  pub client_delete-Stays : (w w' : World D) → client_delete q w ≡ ok (tt, w') → Stays q w w'
  client_delete-Stays w w' h = subst (Kept q w) h (delete_stays w)

  finish_stays : (success : Bool) (w : World D) → Kept q w (client_portcheck_finish q success w)
  unfolding client_portcheck_finish give_lowid announce_id write client_delete free_unreferenced
      delete_live forget_sources release
  finish_stays success w =
      ground (arith, Moves-refl q w.db, removed_once q (make_sid w.clnt.id w.clnt.port) w.db)

  pub Steady-finish : (success : Bool) → Steady q (client_portcheck_finish q success)
  Steady-finish success = record { steady = finish_stays success }

  start_stays : (w : World D) → Kept q w (client_portcheck_start q sys w)
  unfolding client_portcheck_start client_portcheck_finish give_lowid announce_id write
      client_delete free_unreferenced delete_live forget_sources release
  start_stays w =
      ground (arith, Moves-refl q w.db, removed_once q (make_sid w.clnt.id w.clnt.port) w.db)

  share_stays :
      (files : List PubFile) (w : World D)
      → w.clnt.deleted ≡ false
      → Kept q w (client_share_files q files w)
  unfolding client_share_files publish write
  share_stays files w live_now =
      let marked = (mark_files w.clnt.shared_files files).0 in
      ground (arith, Moves-refl q w.db, shared_once q (make_sid w.clnt.id w.clnt.port) marked w.db)

  sources_stays : (hash : List ℕ) (w : World D) → Kept q w (client_get_sources q hash w)
  unfolding client_get_sources write
  sources_stays hash w = ground (arith, Moves-refl q w.db)

  pub Steady-sources : (hash : List ℕ) → Steady q (client_get_sources q hash)
  Steady-sources hash = record { steady = sources_stays hash }

  answered :
      (v : World D) (r : Res (Unit {0} × World D))
      → Kept q v r
      → Kept {A = Bool} q v (elim r [ ok (_, w') ↦ ok (true, w') | fault f ↦ fault f ])
  answered v (ok (_, w')) h = h
  answered v (fault f) h = tt

  pub Steady-login : (m : ℕ → ℕ) (e : ℕ) → Steady q (process_login_request q sys m e)
  unfolding process_login_request
  Steady-login m e = record {
    steady = λ w.
        go_on w (parse_login m e 0 w.clnt)
          ((parse_login-Keeps (IsStored w) (stores w) m e).keep 0 w.clnt (Stays-refl w));
  }
    where
      IsStored : World D → Client → Type 0
      IsStored w c = Stays q w (record w { clnt = c })

      same :
          {c d : Client} (w : World D)
          → IsStored w c
          → d.ref_cnt ≡ c.ref_cnt
          → d.freed ≡ c.freed
          → d.deleted ≡ c.deleted
          → d.file_count ≡ c.file_count
          → IsStored w d
      same w h refs freed deleted files = Stays-trans h (
          Alike-Stays (record {
            base = refl;
            config = refl;
            users = refl;
            server_files = refl;
            listens = refl;
            refs = refs;
            freed = freed;
            deleted = deleted;
            files = files;
          }))

      stores : (w : World D) → IsStable (IsStored w)
      stores w = record {
        hash = λ bytes d h. same w h refl refl refl refl;
        port = λ v d h. same w h refl refl refl refl;
        flags = λ v d h. same w h refl refl refl refl;
        limit = λ d h. same w h refl refl refl refl;
        nick = λ bytes d le h. same w h refl refl refl refl;
      }

      go_on :
          (w : World D) (o : Out Client (Unit {0}))
          → Holds (IsStored w) o
          → Kept {A = Bool} q w (elim o [
            | go p c _ ↦ elim (client_portcheck_start q sys (record w { clnt = c })) [
              | ok (_, w') ↦ ok (true, w')
              | fault f ↦ fault f
            ]
            | malformed c ↦ ok (false, record w { clnt = c })
          ])
      go_on w (go p c _) h = answered w _ (Kept-trans _ h (start_stays (record w { clnt = c })))
      go_on w (malformed c) h = h

  offer_parsed :
      (o : Out (Unit {0}) (List PubFile)) (w : World D)
      → w.clnt.deleted ≡ false
      → Kept {A = Bool} q w (elim o [
        | malformed _ ↦ ok (false, w)
        | go _ _ files ↦ elim (client_share_files q files w) [
          | ok (_, w') ↦ ok (true, w')
          | fault f ↦ fault f
        ]
      ])
  offer_parsed (malformed _) w live_now = Stays-refl w
  offer_parsed (go p s files) w live_now = answered w _ (share_stays files w live_now)

  pub offer_stays :
      (m : ℕ → ℕ) (e : ℕ) (w : World D)
      → w.clnt.deleted ≡ false
      → Kept q w (process_offer_files q m e w)
  unfolding process_offer_files
  offer_stays m e w live_now = offer_parsed (parse_offer m e 0 tt) w live_now

  query_sent :
      (o : Option (List ℕ × ℕ)) (w : World D)
      → let send : M D (Unit {0}) = elim o [
        | none ↦ pure tt
        | some (result, count) ↦ write (search_result result count)
      ] in
        Kept q w (send w)
  query_sent none w = Stays-refl w
  query_sent (some (result, count)) w = (Steady-write q (search_result result count)).steady w

  query_stays : (root : Node) (w : World D) → Kept q w (client_search_files q root w)
  unfolding client_search_files
  query_stays root w = query_sent (db_search_files q root max_search_files w.db) w

  search_parsed :
      (o : Option (Out (Unit {0}) Node)) (w : World D)
      → Kept {A = Bool} q w (elim o [
        | some (go _ _ root) ↦ elim (client_search_files q root w) [
          | ok (_, w') ↦ ok (true, w')
          | fault f ↦ fault f
        ]
        | some (malformed _) ↦ ok (false, w)
        | none ↦ ok (false, w)
      ])
  search_parsed none w = Stays-refl w
  search_parsed (some (malformed _)) w = Stays-refl w
  search_parsed (some (go p s root)) w = answered w _ (query_stays root w)

  pub search_stays :
      (m : ℕ → ℕ) (e : ℕ) (w : World D) → Kept q w (process_search_request q sys m e w)
  unfolding process_search_request
  search_stays m e w = search_parsed (parse_search m e) w
