-- ===== src/Pool.antt =====
-- src/server.c: the workers of server_job_worker over the queue of jobs, with the callbacks of
-- src/job.c and src/listener.c, interleaved in any order. A step is what happens between two points
-- where another thread can come in, but that a handler and accept_cb are one step each, and none
-- where a handler faults. So a state is one between handlers: what the handlers of different clients
-- share are counters, which each of them changes by atomic additions, and the database.
pub mod Count
pub mod References
pub mod Locks
pub mod Progress
pub mod Race
pub mod Users
pub mod Stored
pub mod Files
pub mod Sleep
pub mod Wake
use ed2kd.Base.{
  ℕ, ◌+◌, ◌-◌, ◌^◌, ◌<◌, ◌≡◌, Bool, true, false, not, List, [], ◌∷◌, ◌++◌, some, ◌==◌, ◌&&◌,
  if◌then◌else◌, u32,
}
use ed2kd.Base.Family.{set_at}
use ed2kd.State.{Config, Server, Client, Output, World, System, ok}
use ed2kd.Db.{Sqlite}
use ed2kd.Client.{client_addref, client_delete}
use ed2kd.Client.Delete.{IsListening}
use ed2kd.Listener.{accept_cb}
use ed2kd.Job.{Job, Seen, take_job, run_job}

-- Where a worker is in its loop: at the queue; with a job whose client it has locked, before and
-- after the switch; behind `locked = 0`; inside the client_delete of client_decref; or returned.
pub data Stage : Type 0 where
  waiting exited : Stage
  running done unlocked deleting : Job → Stage

-- struct server_instance with all clients; those from some number on have never been there. A slot
-- whose client is `freed` is memory that malloc may give out again.
pub record Pool (D : Type 0) : Type 0 where
  pub cfg : Config
  pub srv : Server
  pub db : D
  pub calls : ℕ
  pub clients : ℕ → Client
  pub sent : ℕ → List Output
  pub locked : ℕ → Bool
  pub queue : List Job
  pub workers : ℕ → Stage
  pub terminate : Bool

module _ {D : Type 0} where
  -- What a handler for a client runs on, and its outcome.
  abbrev pub world : Pool D → ℕ → World D
  world p c = record {
    cfg = p.cfg;
    srv = p.srv;
    clnt = p.clients c;
    db = p.db;
    out = p.sent c;
    calls = p.calls;
  }

  abbrev pub store : Pool D → ℕ → World D → Pool D
  store p c w = record p {
    cfg = w.cfg;
    srv = w.srv;
    db = w.db;
    calls = w.calls;
    clients = set_at p.clients c w.clnt;
    sent = set_at p.sent c w.out;
  }

-- client_decref in two: the decrement, and whether client_delete is called.
unfoldable pub drop_ref : Client → Client
drop_ref c = record c { ref_cnt = u32 (c.ref_cnt + 2 ^ 32 - 1) }

unfoldable pub after_drop : Client → Job → Stage
after_drop c j = if not (c.ref_cnt == 0) && c.deleted then deleting j else waiting

-- A step with `n` workers and at most `m` clients.
pub data Step {D : Type 0} (q : Sqlite D) (sys : System) (n m : ℕ) (p : Pool D)
    : Pool D → Type 0 where
  -- accept_cb in memory that is not in use; calloc leaves it unlocked.
  accept :
      (c now₁ now₂ s_addr : ℕ) {clnt : Client} {srv : Server}
      → c < m
      → (p.clients c).freed ≡ true
      → accept_cb p.cfg now₁ now₂ true s_addr p.srv ≡ ok (clnt, srv)
      → Step q sys n m p (record p {
        srv = srv;
        clients = set_at p.clients c clnt;
        sent = set_at p.sent c [];
        locked = set_at p.locked c false;
      })
  -- A callback and its server_add_job. libevent calls none for a connection or timer that was
  -- freed, and the 32-bit counter has room.
  add :
      (j : Job) {w : World D}
      → j.clnt < m
      → (p.clients j.clnt).freed ≡ false
      → (p.clients j.clnt).ref_cnt + 1 < 2 ^ 32
      → client_addref q (world p j.clnt) ≡ ok (tt, w)
      → Step q sys n m p (record (store p j.clnt w) { queue = p.queue ++ j ∷ [] })
  -- The scan of the queue under the lock of the queue, up to the exchange that succeeds. The earlier
  -- exchanges may have found clients locked that have been unlocked since.
  take :
      (i : ℕ) (busy : ℕ → Bool) {j : Job} {rest : List Job}
      → i < n
      → p.workers i ≡ waiting
      → p.terminate ≡ false
      → Seen p.locked busy p.queue
      → take_job busy p.queue ≡ some (j, rest)
      → Step q sys n m p (record p {
        locked = set_at p.locked j.clnt true;
        queue = rest;
        workers = set_at p.workers i (running j);
      })
  work :
      (i : ℕ) (input : List ℕ) {j : Job} {w : World D}
      → i < n
      → p.workers i ≡ running j
      → run_job q sys j.type input (world p j.clnt) ≡ ok (tt, w)
      → Step q sys n m p (record (store p j.clnt w) { workers = set_at p.workers i (done j) })
  unlock :
      (i : ℕ) {j : Job}
      → i < n
      → p.workers i ≡ done j
      → Step q sys n m p (record p {
        locked = set_at p.locked j.clnt false;
        workers = set_at p.workers i (unlocked j);
      })
  drop :
      (i : ℕ) {j : Job}
      → i < n
      → p.workers i ≡ unlocked j
      → Step q sys n m p (record p {
        clients = set_at p.clients j.clnt (drop_ref (p.clients j.clnt));
        workers = set_at p.workers i (after_drop (p.clients j.clnt) j);
      })
  delete :
      (i : ℕ) {j : Job} {w : World D}
      → i < n
      → p.workers i ≡ deleting j
      → client_delete q (world p j.clnt) ≡ ok (tt, w)
      → Step q sys n m p (record (store p j.clnt w) { workers = set_at p.workers i waiting })
  -- server_stop, and a worker's way out.
  stop : Step q sys n m p (record p { terminate = true })
  leave :
      (i : ℕ)
      → i < n
      → p.workers i ≡ waiting
      → p.terminate ≡ true
      → Step q sys n m p (record p { workers = set_at p.workers i exited })

-- main: no client, no job, every worker at the queue.
pub record Starts {D : Type 0} (p : Pool D) : Type 0 where
  pub empty : p.queue ≡ []
  pub ready : (i : ℕ) → p.workers i ≡ waiting
  pub open_locks : (c : ℕ) → p.locked c ≡ false
  pub unused :
      (c : ℕ)
      → ((p.clients c).freed ≡ true)
        × ((p.clients c).deleted ≡ true)
        × ((p.clients c).ref_cnt ≡ 0)
        × ((p.clients c).file_count ≡ 0)
  pub nobody : (p.srv.user_count ≡ 0) × (p.srv.file_count ≡ 0)
  pub listens : IsListening p.cfg p.srv

pub data Reach {D : Type 0} (q : Sqlite D) (sys : System) (n m : ℕ) : Pool D → Type 0 where
  start : {p : Pool D} → Starts p → Reach q sys n m p
  later : {p p' : Pool D} → Reach q sys n m p → Step q sys n m p p' → Reach q sys n m p'
