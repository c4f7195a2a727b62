-- ===== src/Job.antt =====
-- src/job.h and src/job.c, and of src/server.c the queue of jobs and the loop of its workers.
pub mod Steady
pub mod Alive
pub mod Handlers
pub mod Packets
pub mod Switch
use ed2kd.Base.{
  ℕ, zero, suc, ◌+◌, ◌≡◌, Bool, true, false, not, List, [], ◌∷◌, ◌++◌, Option, none, some, ◌==◌,
  ◌&&◌, if◌then◌else◌,
}
use ed2kd.State.{
  Config, Server, Client, Output, World, System, M, Res, ok, fault, ◌>>=◌, ◌>>◌, pure, get, write,
}
use ed2kd.Db.{Sqlite}
use ed2kd.Packet.{server_status}
use ed2kd.Client.{client_addref}
use ed2kd.Dispatch.{server_read, server_event}
use ed2kd.Portcheck.{portcheck_read, portcheck_event, portcheck_timeout}

-- The bits of the event mask that the code looks at: BEV_EVENT_EOF or BEV_EVENT_ERROR, and
-- BEV_EVENT_CONNECTED.
pub record Events : Type 0 where
  pub ended : Bool
  pub connected : Bool

-- enum job_type; the two kinds that are a struct job_event have its mask with them.
pub data JobType : Type 0 where
  on_server_event : Events → JobType
  on_server_read : JobType
  on_status_notify : JobType
  on_portcheck_event : Events → JobType
  on_portcheck_read : JobType
  on_portcheck_timeout : JobType

-- struct job; a client is known by a number in place of its address.
pub record Job : Type 0 where
  pub type : JobType
  pub clnt : ℕ

-- The callbacks of libevent, whose context is the client: the job that each one adds.
unfoldable pub server_read_cb : ℕ → Job
server_read_cb ctx = record { type = on_server_read; clnt = ctx }

unfoldable pub server_event_cb : Events → ℕ → Job
server_event_cb events ctx = record { type = on_server_event events; clnt = ctx }

unfoldable pub server_status_notify_cb : ℕ → Job
server_status_notify_cb ctx = record { type = on_status_notify; clnt = ctx }

unfoldable pub portcheck_read_cb : ℕ → Job
portcheck_read_cb ctx = record { type = on_portcheck_read; clnt = ctx }

unfoldable pub portcheck_timeout_cb : ℕ → Job
portcheck_timeout_cb ctx = record { type = on_portcheck_timeout; clnt = ctx }

unfoldable pub portcheck_event_cb : Events → ℕ → Job
portcheck_event_cb events ctx = record { type = on_portcheck_event events; clnt = ctx }

-- TAILQ_FOREACH_SAFE in server_job_worker: the first job whose compare-and-exchange succeeds, and
-- the queue without it. `busy` says of each place in the queue whether the exchange there finds the
-- client locked. The exchanges come one after the other, while other workers may unlock clients, so
-- that two jobs of one client may get different answers.
unfoldable pub take_job : (ℕ → Bool) → List Job → Option (Job × List Job)
take_job busy [] = none
take_job busy (j ∷ jobs) = elim (busy 0) [
  | false ↦ some (j, jobs)
  | true ↦ elim (take_job (λ k. busy (suc k)) jobs) [
    | none ↦ none
    | some (k, rest) ↦ some (k, j ∷ rest)
  ]
]

-- An exchange succeeds only if the client is not locked; where one failed, the client may be
-- unlocked by now.
abbrev pub Seen : (ℕ → Bool) → (ℕ → Bool) → List Job → Type 0
Seen locked busy [] = Unit
Seen locked busy (j ∷ jobs) =
    (busy 0 ≡ false → locked j.clnt ≡ false) × Seen locked (λ k. busy (suc k)) jobs

-- The answers if no client is unlocked during the scan.
abbrev pub at_once : (ℕ → Bool) → List Job → ℕ → Bool
at_once locked [] k = true
at_once locked (j ∷ jobs) zero = locked j.clnt
at_once locked (j ∷ jobs) (suc k) = at_once locked jobs k

module _ {D : Type 0} (q : Sqlite D) (sys : System) where
  -- case JOB_SERVER_STATUS_NOTIFY; event_add starts the timer anew, which the model does not show.
  unfoldable pub status_notify : M D (Unit {0})
  unfolding write
  status_notify = do w ← get; write (server_status w.srv)

  -- The switch of server_job_worker. The list is what the bufferevent's input buffer holds.
  unfoldable pub switch_job : JobType → List ℕ → M D (Unit {0})
  unfolding server_event server_read status_notify portcheck_event portcheck_read portcheck_timeout
  switch_job (on_server_event events) input = server_event q sys events.ended
  switch_job on_server_read input = server_read q sys input >>= λ _. pure tt
  switch_job on_status_notify input = status_notify
  switch_job (on_portcheck_event events) input = portcheck_event q sys events.ended events.connected
  switch_job on_portcheck_read input = portcheck_read q sys input >>= λ _. pure tt
  switch_job on_portcheck_timeout input = portcheck_timeout q sys

  -- if (!atomic_load(&job->clnt->deleted)) { switch ... }
  unfoldable pub run_job : JobType → List ℕ → M D (Unit {0})
  unfolding switch_job
  run_job type input = do w ← get; if w.clnt.deleted then pure tt else switch_job type input
