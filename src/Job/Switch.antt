-- ===== src/Job/Switch.antt =====
-- src/server.c and src/portcheck.c: what a job leaves alone in its client.
use ed2kd.Base.{
  drop, ℕ, ◌^◌, ◌-◌, u32, block, zero, suc, ◌+◌, ◌≡◌, Bool, false, not, List, Option, none, some,
  ◌==◌, ◌||◌, ◌&&◌, leb, ltb, length, load32, place,
}
use ed2kd.Proto.{proto_edonkey, proto_packed}
use mathlib.Core.Path.{subst}
use ed2kd.State.{World, System, M, ok, pure}
use ed2kd.Db.{Sqlite}
use ed2kd.Portcheck.{
  send_hello, process_packet, process_body, after_packet, read_loop, portcheck_read,
  portcheck_timeout, portcheck_event,
}
use ed2kd.Dispatch.{server_read, server_event}
use ed2kd.Job.{
  JobType, on_server_event, on_server_read, on_status_notify, on_portcheck_event, on_portcheck_read,
  on_portcheck_timeout, status_notify, switch_job, run_job,
}
use ed2kd.Job.Steady.{
  Stays, Kept, Steady, Stays-refl, Steady->>=, Steady-if, Steady-pure, Steady-get, Steady-ask,
  Steady-fault, Steady-write, Steady-write_pc,
}
use ed2kd.Job.Handlers.{Steady-client_delete, Steady-finish}
use ed2kd.Job.Packets.{Steady-read_loop, Kept-if}

module _ {D : Type 0} (q : Sqlite D) (sys : System) where
  Steady-send_hello : Steady q (send_hello q sys)
  unfolding send_hello
  Steady-send_hello = search (Steady->>=, Steady-get, Steady-ask, Steady-write_pc)

  Steady-answer : (m : ℕ → ℕ) (e opcode : ℕ) → Steady q (process_packet q sys m e opcode)
  unfolding process_packet
  Steady-answer m e opcode =
      search (Steady->>=, Steady-if, Steady-get, Steady-pure, Steady-finish) depth 9

  unpacked_stays :
      (o : Option (List ℕ)) (at : ℕ) (w : World D)
      → let body : M D Bool = elim o [
        | none ↦ pure false
        | some unpacked ↦ process_packet q sys (place unpacked sys.beyond) (length unpacked) at
      ] in
        Kept q w (body w)
  unpacked_stays none at w = Stays-refl w
  unpacked_stays (some unpacked) at w = (Steady-answer _ _ at).steady w

  Steady-body : (proto : ℕ) (body : List ℕ) (len : ℕ) → Steady q (process_body q sys proto body len)
  unfolding process_body
  Steady-body proto body len =
      let body_mem = λ (i : ℕ). place body sys.beyond (i + 1) in
      let body_len = u32 (len + 2 ^ 32 - 1) in
      Steady-if (proto == proto_packed) _ _
        (record {
          steady =
              unpacked_stays (sys.uncompress (block body_mem 0 body_len)) (place body sys.beyond 0);
        })
        (Steady-answer body_mem body_len (place body sys.beyond 0))

  Steady-after :
      (ret : Bool) (stop next : M D (Option (List ℕ)))
      → Steady q stop
      → Steady q next
      → Steady q (after_packet q sys ret stop next)
  unfolding after_packet
  Steady-after ret stop next hs hn =
      search (Steady->>=, Steady-if, Steady-get, Steady-finish, Steady-fault) depth 9

  Steady-loop : (fuel : ℕ) (input : List ℕ) → Steady q (read_loop q sys fuel input)
  unfolding read_loop
  Steady-loop zero input = record { steady = λ w. Stays-refl w }
  Steady-loop (suc fuel) input =
      let rest = Steady-loop fuel in
      record {
        steady = λ w. Kept-if q sys (w.clnt.deleted || leb (length input) 5) _ _ _ (Stays-refl w) (
            Kept-if q sys
              (not (proto_packed == place input sys.beyond 0)
                && not (proto_edonkey == place input sys.beyond 0))
              _ _ _
              ((Steady->>= _ _ (Steady-finish q sys false) (λ _. Steady-pure (some input))).steady
                w)
              (Kept-if q sys (ltb (length input) (load32 (place input sys.beyond) 1 + 5)) _ _ _
                (Stays-refl w)
                ((Steady->>= _ _
                    (Steady-body (place input sys.beyond 0) (drop 5 input)
                      (load32 (place input sys.beyond) 1))
                    (λ ret.
                      Steady-after ret _ _ (Steady-pure (some input))
                        (rest (drop (load32 (place input sys.beyond) 1 + 5) input)))).steady
                  w)));
      }

  Steady-portcheck_read : (input : List ℕ) → Steady q (portcheck_read q sys input)
  unfolding portcheck_read
  Steady-portcheck_read input =
      search (Steady->>=, Steady-if, Steady-get, Steady-pure, Steady-fault, Steady-loop) depth 9

  Steady-portcheck_timeout : Steady q (portcheck_timeout q sys)
  unfolding portcheck_timeout
  Steady-portcheck_timeout =
      search (Steady->>=, Steady-if, Steady-get, Steady-pure, Steady-finish) depth 9

  Steady-portcheck_event :
      (ended connected : Bool) → Steady q (portcheck_event q sys ended connected)
  unfolding portcheck_event
  Steady-portcheck_event ended connected =
      search (Steady->>=, Steady-if, Steady-get, Steady-pure, Steady-finish, Steady-send_hello)
        depth 9

  Steady-server_read : (input : List ℕ) → Steady q (server_read q sys input)
  unfolding server_read
  Steady-server_read input = Steady-read_loop q sys _ input

  Steady-server_event : (ended : Bool) → Steady q (server_event q sys ended)
  unfolding server_event
  Steady-server_event ended = Steady-if ended _ _ (Steady-client_delete q sys) (Steady-pure tt)

  Steady-switch : (type : JobType) (input : List ℕ) → Steady q (switch_job q sys type input)
  unfolding switch_job status_notify
  Steady-switch (on_server_event events) input = Steady-server_event events.ended
  Steady-switch on_server_read input =
      Steady->>= _ _ (Steady-server_read input) (λ _. Steady-pure tt)
  Steady-switch on_status_notify input = Steady->>= _ _ Steady-get (λ w. Steady-write q _)
  Steady-switch (on_portcheck_event events) input =
      Steady-portcheck_event events.ended events.connected
  Steady-switch on_portcheck_read input =
      Steady->>= _ _ (Steady-portcheck_read input) (λ _. Steady-pure tt)
  Steady-switch on_portcheck_timeout input = Steady-portcheck_timeout

  pub Steady-run_job : (type : JobType) (input : List ℕ) → Steady q (run_job q sys type input)
  unfolding run_job
  Steady-run_job type input =
      Steady->>= _ _ Steady-get
        (λ w. Steady-if w.clnt.deleted _ _ (Steady-pure tt) (Steady-switch type input))

  -- No job, whatever it is and whatever has been received, changes the count of references to its
  -- client, and none frees a client that is referred to; one that was deleted stays deleted. If the
  -- server's 32-bit counter counts the client, the counter falls exactly when the client is deleted,
  -- and the listener still runs exactly while there is room, if it did. The 32-bit counters of the
  -- server's and of the client's files change by the same number, and a deleted client has no file,
  -- if that was so before. The database is changed by db_share_files and db_remove_source only.
  pub run_job-Stays :
      (type : JobType) (input : List ℕ) (w w' : World D)
      → run_job q sys type input w ≡ ok (tt, w')
      → Stays q w w'
  run_job-Stays type input w w' h = subst (Kept q w) h ((Steady-run_job type input).steady w)
