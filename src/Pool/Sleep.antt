-- ===== src/Pool/Sleep.antt =====
-- src/server.c: the condition variable job_cond, on which server_job_worker waits and which
-- server_add_job signals behind its lock of the queue, and the scan of the queue under that lock.
use ed2kd.Base.{ℕ, suc, ◌+◌, ◌<◌, ◌≡◌, Bool, true, false, List, [], ◌∷◌}
use ed2kd.Base.Family.{set_at}
use ed2kd.State.{System}
use ed2kd.Db.{Sqlite}
use ed2kd.Job.{Job}
use ed2kd.Pool.{waiting, Pool, Step, add, take, work, unlock, drop, delete, leave, Starts}

-- Who has job_mutex: no worker, or one that scans the queue, with the jobs at which its exchange has
-- failed, and those that it has still to look at.
pub data Scan : Type 0 where
  nobody : Scan
  scanning : ℕ → List Job → List Job → Scan

-- The workers that are inside pthread_cond_wait, the calls of pthread_cond_signal that are due, and
-- the scan.
pub record Night (D : Type 0) : Type 0 where
  pub pool : Pool D
  pub asleep : ℕ → Bool
  pub pending : ℕ
  pub scan : Scan

-- The worker has job_mutex.
abbrev pub Holds : ℕ → Scan → Type 0
Holds i nobody = ⊥
Holds i (scanning k front back) = i ≡ k

module _ {D : Type 0} {q : Sqlite D} {sys : System} {n m : ℕ} where
  -- A worker that sleeps takes no step; the queue is changed, and a worker returns, under job_mutex.
  -- The worker that scans may take any job that its exchange could get: this has more runs than the
  -- code, and none less.
  abbrev pub MayMove : (ℕ → Bool) → Scan → {p p' : Pool D} → Step q sys n m p p' → Type 0
  MayMove asleep scan (add j lt there room e) = scan ≡ nobody
  MayMove asleep scan (take i busy lt at on seen e) = (asleep i ≡ false) × Holds i scan
  MayMove asleep scan (work i input lt at e) = asleep i ≡ false
  MayMove asleep scan (unlock i lt at) = asleep i ≡ false
  MayMove asleep scan (drop i lt at) = asleep i ≡ false
  MayMove asleep scan (delete i lt at e) = asleep i ≡ false
  MayMove asleep scan (leave i lt at off) = (asleep i ≡ false) × (scan ≡ nobody)
  MayMove asleep scan _ = Unit

  -- server_add_job has still to signal.
  abbrev pub signals : {p p' : Pool D} → Step q sys n m p p' → ℕ
  signals (add j lt there room e) = 1
  signals _ = 0

  -- A worker that has taken a job gives job_mutex back.
  abbrev pub scan_after : Scan → {p p' : Pool D} → Step q sys n m p p' → Scan
  scan_after scan (take i busy lt at on seen e) = nobody
  scan_after scan _ = scan

pub data NightStep {D : Type 0} (q : Sqlite D) (sys : System) (n m : ℕ) (s : Night D)
    : Night D → Type 0 where
  move :
      {p' : Pool D} (st : Step q sys n m s.pool p')
      → MayMove s.asleep s.scan st
      → NightStep q sys n m s (record {
        pool = p';
        asleep = s.asleep;
        pending = s.pending + signals st;
        scan = scan_after s.scan st;
      })
  -- The start of a scan; an exchange that fails; and pthread_cond_wait at its end. In between,
  -- clients may be unlocked.
  look :
      (i : ℕ)
      → i < n
      → s.pool.workers i ≡ waiting
      → s.asleep i ≡ false
      → s.pool.terminate ≡ false
      → s.scan ≡ nobody
      → NightStep q sys n m s (record s { scan = scanning i [] s.pool.queue })
  pass :
      (i : ℕ) (front back : List Job) (j : Job)
      → s.scan ≡ scanning i front (j ∷ back)
      → s.pool.locked j.clnt ≡ true
      → NightStep q sys n m s (record s { scan = scanning i (j ∷ front) back })
  sleep :
      (i : ℕ) (front : List Job)
      → s.scan ≡ scanning i front []
      → NightStep q sys n m s (record s { asleep = set_at s.asleep i true; scan = nobody })
  -- A signal wakes a sleeper, if there is one; others may wake for no reason, or by the broadcast
  -- of main.
  signal_one :
      (i pending : ℕ)
      → i < n
      → s.asleep i ≡ true
      → s.pending ≡ suc pending
      → NightStep q sys n m s (record s { asleep = set_at s.asleep i false; pending = pending })
  signal_none :
      (pending : ℕ)
      → ((i : ℕ) → i < n → s.asleep i ≡ false)
      → s.pending ≡ suc pending
      → NightStep q sys n m s (record s { pending = pending })
  wake : (i : ℕ) → i < n → NightStep q sys n m s (record s { asleep = set_at s.asleep i false })

pub data NightReach {D : Type 0} (q : Sqlite D) (sys : System) (n m : ℕ) : Night D → Type 0 where
  dusk :
      {s : Night D}
      → Starts s.pool
      → ((i : ℕ) → s.asleep i ≡ false)
      → s.pending ≡ 0
      → s.scan ≡ nobody
      → NightReach q sys n m s
  next :
      {s s' : Night D} → NightReach q sys n m s → NightStep q sys n m s s' → NightReach q sys n m s'
