-- ===== src/Pool/Locks.antt =====
-- src/server.c, server_job_worker: the lock of a client.
use ed2kd.Base.{ℕ, zero, suc, ◌≤◌, ◌<◌, ◌≡◌, true, false, to_bit, arith}
use ed2kd.Base.Family.{sum, sum-set_at, sum-zero, sum-ge, sum-ge_two}
use ed2kd.State.{Client}
use ed2kd.Db.{Sqlite}
use ed2kd.State.{System}
use ed2kd.Job.{Job}
use ed2kd.Pool.{
  Stage, waiting, exited, running, done, unlocked, Pool, after_drop, Step, accept, add, take, work,
  unlock, drop, delete, stop, leave, Reach, start, later,
}
use ed2kd.Pool.Count.{holds, works, count, take_job-Taken, Taken-free, take_job-some, at_once-Seen}
use ed2kd.Pool.References.{Refs, Reach-Refs}

-- A client's lock is taken once for each worker that has a job of the client and has not unlocked it.
abbrev pub IsLocked : {D : Type 0} → ℕ → Pool D → Type 0
IsLocked n p = (c : ℕ) → to_bit (p.locked c) ≡ sum (works c) n p.workers

works-le-holds : (c : ℕ) (s : Stage) → works c s ≤ holds c s
works-le-holds c s = ground arith

module _ {D : Type 0} (p : Pool D) where
  sum-works-le : (c k : ℕ) → sum (works c) k p.workers ≤ sum (holds c) k p.workers
  unfolding sum
  sum-works-le c zero = omega arith
  sum-works-le c (suc k) = omega (arith, sum-works-le c k, works-le-holds c (p.workers k))

  locked_unused :
      (n m c : ℕ) → Refs n m p → IsLocked n p → (p.clients c).freed ≡ true → p.locked c ≡ false
  locked_unused n m c r inv free = ground (arith, inv c, r.held c, r.refs c, sum-works-le c n)

after_drop-works : (c : ℕ) (k : Client) (j : Job) → works c (after_drop k j) ≡ 0
unfolding after_drop
after_drop-works c k j = ground arith

module _ {n m : ℕ} {D : Type 0} where
  IsLocked-Step :
      {q : Sqlite D} {sys : System} {p p' : Pool D}
      → Step q sys n m p p'
      → Refs n m p
      → IsLocked n p
      → IsLocked n p'
  IsLocked-Step {p = p} (accept c t u a lt free e) r inv d =
      ground (arith, inv d, locked_unused p n m c r inv free)
  IsLocked-Step (add j lt there room e) r inv d = inv d
  IsLocked-Step {p = p} (take i busy {j} {rest} lt at on seen e) r inv d = ground (
    arith,
    inv d,
    Taken-free (take_job-Taken p.locked busy p.queue seen e),
    sum-set_at (works d) n p.workers i (running j) lt,
  )
  IsLocked-Step {p = p} (work i input {j} lt at e) r inv d =
      ground (arith, inv d, sum-set_at (works d) n p.workers i (done j) lt)
  IsLocked-Step {p = p} (unlock i {j} lt at) r inv d = ground (
    arith,
    inv d,
    sum-ge (works d) n p.workers i lt,
    sum-set_at (works d) n p.workers i (unlocked j) lt,
  )
  IsLocked-Step {p = p} (drop i {j} lt at) r inv d = ground (
    arith,
    inv d,
    after_drop-works d (p.clients j.clnt) j,
    sum-set_at (works d) n p.workers i (after_drop (p.clients j.clnt) j) lt,
  )
  IsLocked-Step {p = p} (delete i lt at e) r inv d =
      ground (arith, inv d, sum-set_at (works d) n p.workers i waiting lt)
  IsLocked-Step stop r inv d = inv d
  IsLocked-Step {p = p} (leave i lt at off) r inv d =
      ground (arith, inv d, sum-set_at (works d) n p.workers i exited lt)

  pub Reach-IsLocked : {q : Sqlite D} {sys : System} {p : Pool D} → Reach q sys n m p → IsLocked n p
  Reach-IsLocked (start {p = p} s) c =
      ground
        (arith, s.open_locks c, sum-zero (works c) n p.workers (λ i. ground (arith, s.ready i)))
  Reach-IsLocked (later r st) c =
      let before = Reach-IsLocked r in IsLocked-Step st (Reach-Refs r) before c

-- The worker is between the lock and the unlock of client `c`.
abbrev pub IsInHandler : ℕ → Stage → Type 0
IsInHandler c s = 0 < works c s

-- Two workers never handle jobs of one client at the same time.
pub workers_exclusive :
    {n m : ℕ} {D : Type 0} {q : Sqlite D} {sys : System} {p : Pool D}
    → Reach q sys n m p
    → (c i k : ℕ) → i < n
    → k < n
    → IsInHandler c (p.workers i)
    → IsInHandler c (p.workers k)
    → i ≡ k
workers_exclusive {n} {p = p} r c i k lt lt' h h' =
    ground (arith, Reach-IsLocked r c, sum-ge_two (works c) n p.workers i k lt lt')

-- No job is stuck: while the server runs and a worker waits, and a job is queued of a client that no
-- worker is handling, the waiting worker can find and take a job.
pub waiting_takes :
    {n m : ℕ} {D : Type 0} {q : Sqlite D} {sys : System} {p : Pool D}
    → Reach q sys n m p
    → (c i : ℕ) → i < n
    → p.workers i ≡ waiting
    → p.terminate ≡ false
    → 0 < count c p.queue
    → sum (works c) n p.workers ≡ 0
    → (j : Job) × (p' : Pool D) × (p'.workers i ≡ running j) × Step q sys n m p p'
waiting_takes {p = p} r c i lt at on queued idle =
    let (j, rest, found) =
      take_job-some p.locked p.queue c (ground (arith, Reach-IsLocked r c)) queued in
    (j, _, ground arith, take i _ lt at on (at_once-Seen p.locked p.queue) found)
