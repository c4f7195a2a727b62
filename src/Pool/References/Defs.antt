-- ===== src/Pool/References/Defs.antt =====
-- src/client.h and src/server.c: what is counted by the counter of references.
use ed2kd.Base.{ℕ, ◌+◌, ◌^◌, ◌<◌, ◌≡◌, true, All}
use ed2kd.Base.Family.{sum}
use ed2kd.Job.{Job}
use ed2kd.Pool.{Stage, running, done, unlocked, deleting, Pool}
use ed2kd.Pool.Count.{holds, count}

-- The job in a worker's hands is about one of the clients.
abbrev pub IsInside : ℕ → Stage → Type 0
IsInside m (running j) = j.clnt < m
IsInside m (done j) = j.clnt < m
IsInside m (unlocked j) = j.clnt < m
IsInside m (deleting j) = j.clnt < m
IsInside m _ = Unit

-- A client's counter of references is the number of its jobs, queued or in a worker's hands; it
-- fits in 32 bits, and memory that was freed has no reference.
pub record Refs (n m : ℕ) {D : Type 0} (p : Pool D) : Type 0 where
  pub queue_ids : All (λ (j : Job). j.clnt < m) p.queue
  pub ids : (i : ℕ) → IsInside m (p.workers i)
  pub refs : (c : ℕ) → (p.clients c).ref_cnt ≡ count c p.queue + sum (holds c) n p.workers
  pub small : (c : ℕ) → (p.clients c).ref_cnt < 2 ^ 32
  pub held :
      (c : ℕ)
      → (p.clients c).freed ≡ true
      → ((p.clients c).ref_cnt ≡ 0) × ((p.clients c).deleted ≡ true)
