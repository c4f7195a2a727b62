-- ===== src/Pool/Progress.antt =====
-- src/server.c, server_job_worker: how far the workers get on their own.
use ed2kd.Base.{ℕ, ◌+◌, ◌*◌, ◌<◌, ◌≡◌, Bool, List, arith, length}
use ed2kd.Base.Family.{sum, sum-set_at}
use ed2kd.State.{Client, System}
use ed2kd.Db.{Sqlite}
use ed2kd.Job.{Job}
use ed2kd.Pool.{
  Stage, waiting, exited, running, done, unlocked, deleting, Pool, after_drop, Step, accept, add,
  take, work, unlock, drop, delete, stop, leave,
}
use ed2kd.Pool.Count.{Taken, first, behind, take_job-Taken}

-- The steps a worker has before it, up to its return.
abbrev pub rank : Stage → ℕ
rank exited = 0
rank waiting = 1
rank (deleting j) = 2
rank (unlocked j) = 3
rank (done j) = 4
rank (running j) = 5

abbrev pub steps_left : {D : Type 0} → ℕ → Pool D → ℕ
steps_left n p = 5 * length p.queue + sum rank n p.workers

-- A step of a worker, not of a callback or of server_stop.
abbrev pub IsWork :
    {D : Type 0} {q : Sqlite D} {sys : System} {n m : ℕ} {p p' : Pool D}
    → Step q sys n m p p'
    → Type 0
IsWork (accept c t u a lt free e) = ⊥
IsWork (add j lt there room e) = ⊥
IsWork stop = ⊥
IsWork _ = Unit

Taken-length :
    {locked : ℕ → Bool} {jobs rest : List Job} {k : Job}
    → Taken locked jobs k rest
    → length jobs ≡ length rest + 1
Taken-length (first free) = omega arith
Taken-length (behind t) = omega (arith, Taken-length t)

after_drop-rank : (c : Client) (j : Job) → rank (after_drop c j) < 3
unfolding after_drop
after_drop-rank c j = ground arith

-- Every step of a worker lowers the number of steps that are left, so that without new connections
-- and callbacks the workers come to a rest.
pub steps_left-falls :
    {D : Type 0} {q : Sqlite D} {sys : System} {n m : ℕ} {p p' : Pool D} (st : Step q sys n m p p')
    → IsWork st
    → steps_left n p' < steps_left n p
steps_left-falls {n = n} {p = p} (take i busy {j} {rest} lt at on seen e) w = ground (
  arith,
  Taken-length (take_job-Taken p.locked busy p.queue seen e),
  sum-set_at rank n p.workers i (running j) lt,
)
steps_left-falls {n = n} {p = p} (work i input {j} lt at e) w =
    ground (arith, sum-set_at rank n p.workers i (done j) lt)
steps_left-falls {n = n} {p = p} (unlock i {j} lt at) w =
    ground (arith, sum-set_at rank n p.workers i (unlocked j) lt)
steps_left-falls {n = n} {p = p} (drop i {j} lt at) w = ground (
  arith,
  after_drop-rank (p.clients j.clnt) j,
  sum-set_at rank n p.workers i (after_drop (p.clients j.clnt) j) lt,
)
steps_left-falls {n = n} {p = p} (delete i lt at e) w =
    ground (arith, sum-set_at rank n p.workers i waiting lt)
steps_left-falls {n = n} {p = p} (leave i lt at off) w =
    ground (arith, sum-set_at rank n p.workers i exited lt)
steps_left-falls (accept c t u a lt free e) w = absurd w
steps_left-falls (add j lt there room e) w = absurd w
steps_left-falls stop w = absurd w
