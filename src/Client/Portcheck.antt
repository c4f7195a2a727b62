-- ===== src/Client/Portcheck.antt =====
-- client_portcheck_finish: what becomes of a client when its port has been checked.
use ed2kd.Base.{◌≤◌, ◌≡◌, Bool, true, false, [], ◌∷◌, ◌++◌, arith, length}
use ed2kd.Proto.{max_lowid}
use ed2kd.State.{Client, World, to_client, fault, Ensures, null_bev}
use ed2kd.Db.{Sqlite}
use ed2kd.Packet.{id_change, server_message}
use ed2kd.Client.{client_portcheck_finish, lowid_warning}
use ed2kd.Client.Lowid.{next_lowid_range}

-- The check is over: neither its connection nor its timer is left.
abbrev pub IsChecked : Client → Type 0
IsChecked c = (c.portcheck_finished ≡ true) × (c.bev_pc ≡ false) × (c.evtimer_portcheck ≡ false)

module _ {D : Type 0} (q : Sqlite D) where
  -- A connected client whose port answers gets its address for an id, which it is told; it keeps
  -- its port, and the check is over.
  pub client_portcheck_finish_highid :
      (w : World D)
      → w.clnt.bev ≡ true
      → Ensures (client_portcheck_finish q true w) (λ _ w'.
        IsChecked w'.clnt
        × (w'.clnt.lowid ≡ false)
        × (w'.clnt.id ≡ w.clnt.ip)
        × (w'.clnt.port ≡ w.clnt.port)
        × (w'.clnt.evtimer_status_notify ≡ true)
        × (w'.out ≡ w.out ++ to_client (id_change w.cfg w.clnt.ip) ∷ []))
  unfolding client_portcheck_finish
  client_portcheck_finish_highid w b = rw (b, client_portcheck_finish) (ground arith)

  -- A connected client whose port does not answer, where such clients are allowed and the counter
  -- of low ids is at most MAX_LOWID, gets the next low id in 1 .. MAX_LOWID, is warned, told its id,
  -- and loses its port; the check is over.
  client_portcheck_finish_lowid :
      (w : World D)
      → w.clnt.bev ≡ true
      → w.cfg.allow_lowid ≡ true
      → w.srv.lowid_counter ≤ max_lowid
      → Ensures (client_portcheck_finish q false w) (λ _ w'.
        IsChecked w'.clnt
        × (w'.clnt.lowid ≡ true)
        × (1 ≤ w'.clnt.id)
        × (w'.clnt.id ≤ max_lowid)
        × (w'.srv.lowid_counter ≡ w'.clnt.id)
        × (w'.clnt.port ≡ 0)
        × (w'.clnt.evtimer_status_notify ≡ true)
        × (w'.out
            ≡ (w.out ++ to_client (server_message lowid_warning (length lowid_warning)) ∷ [])
              ++ to_client (id_change w.cfg w'.clnt.id) ∷ []))
  unfolding client_portcheck_finish
  client_portcheck_finish_lowid w b allow counter =
      ground (arith, next_lowid_range w.srv.lowid_counter counter)

  -- Where clients with a low id are not allowed, a connected client that was not deleted and whose
  -- port does not answer is warned and deleted.
  pub client_portcheck_finish_refused :
      (w : World D)
      → w.clnt.bev ≡ true
      → w.clnt.deleted ≡ false
      → w.cfg.allow_lowid ≡ false
      → Ensures (client_portcheck_finish q false w) (λ _ w'.
        (w'.clnt.deleted ≡ true)
        × (w'.clnt.bev ≡ false)
        × (w'.out ≡ w.out ++ to_client (server_message lowid_warning (length lowid_warning)) ∷ []))
  unfolding client_portcheck_finish
  client_portcheck_finish_refused w b live refuse = ground arith

  -- On a client whose connection is gone it faults, whatever the result of the check.
  pub client_portcheck_finish_fault :
      (w : World D) (success : Bool)
      → w.clnt.bev ≡ false
      → client_portcheck_finish q success w ≡ fault null_bev
  unfolding client_portcheck_finish
  client_portcheck_finish_fault w success b = ground arith
