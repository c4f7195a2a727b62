-- ===== src/Pool/Wake.antt =====
-- src/server.c: no wake-up of a worker is lost.
use ed2kd.Base.{
  ℕ, ◌+◌, ◌<◌, ◌≡◌, ◌≢◌, Bool, true, false, List, [], ◌∷◌, arith, ◌⊎◌, inl, inr, Bool-cases, ◌==◌,
  sym,
}
use mathlib.Core.Path.{subst}
use ed2kd.Base.Family.{set_at}
use ed2kd.State.{System, Client}
use ed2kd.Db.{Sqlite}
use ed2kd.Job.{Job}
use ed2kd.Pool.{
  waiting, exited, Pool, after_drop, Step, accept, add, take, work, unlock, drop, delete, stop,
  leave, Reach, start, later,
}
use ed2kd.Pool.Count.{count}
use ed2kd.Pool.References.{Refs, Reach-Refs}
use ed2kd.Pool.Sleep.{
  Scan, nobody, scanning, Night, MayMove, signals, scan_after, NightStep, move, look, pass, sleep,
  signal_one, signal_none, wake, NightReach, dusk, next,
}

-- A signal is due, or some worker is awake.
abbrev IsStirred : ℕ → (ℕ → Bool) → ℕ → Type 0
IsStirred n asleep pending = (0 < pending) ⊎ ((i : ℕ) × (i < n) × (asleep i ≡ false))

-- Another worker is awake.
abbrev IsBacked : ℕ → (ℕ → Bool) → ℕ → Type 0
IsBacked n asleep i = (k : ℕ) × (k < n) × (k ≢ i) × (asleep k ≡ false)

-- Without a scan, while a job could be taken, there is someone to take it. During one, each job that
-- was passed is of a client that is still locked, or that another worker has unlocked; that one
-- cannot go to sleep before the scan has ended.
abbrev IsAlert : {D : Type 0} → ℕ → Pool D → (ℕ → Bool) → ℕ → Scan → Type 0
IsAlert n p asleep pending nobody =
    (c : ℕ)
    → p.locked c ≡ false
    → 0 < count c p.queue
    → p.terminate ≡ false
    → IsStirred n asleep pending
IsAlert n p asleep pending (scanning i front back) =
    (i < n)
    × (asleep i ≡ false)
    × (p.workers i ≡ waiting)
    × ((c : ℕ) → count c p.queue ≡ count c front + count c back)
    × ((c : ℕ) → 0 < count c front → (p.locked c ≡ true) ⊎ IsBacked n asleep i)

-- To unlock a client of which no job was passed changes nothing.
still_passed :
    {B : Type 0} (locked : ℕ → Bool) (c d : ℕ) (front : List Job)
    → count c front ≡ 0
    → 0 < count d front
    → (locked d ≡ true) ⊎ B
    → (set_at locked c false d ≡ true) ⊎ B
still_passed locked c d front none_passed some_job (inl busy) =
    inl (ground (arith, none_passed, some_job, busy))
still_passed locked c d front none_passed some_job (inr b) = inr b

after_drop-exited : (k : Client) (j : Job) → after_drop k j ≢ exited
unfolding after_drop
after_drop-exited k j h = ground arith

abbrev NightAlert : {D : Type 0} → ℕ → Night D → Type 0
NightAlert n s = IsAlert n s.pool s.asleep s.pending s.scan

module _ {n : ℕ} {D : Type 0} where
  -- At the end of a scan all jobs were passed.
  IsAlert-asleep :
      (asleep : ℕ → Bool) (pending i : ℕ) (front : List Job) (p : Pool D)
      → IsAlert n p asleep pending (scanning i front [])
      → IsAlert n p (set_at asleep i true) pending nobody
  IsAlert-asleep asleep pending i front p (low, up, at, all, h) d idle job on =
      elim (h d (omega (arith, all d, job))) [
        | inl busy ↦ cc
        | inr (k, lt, other, awake) ↦ inr (k, lt, ground (arith, other, awake))
      ]

  IsAlert-pass :
      (asleep : ℕ → Bool) (pending i : ℕ) (front back : List Job) (j : Job) (p : Pool D)
      → p.locked j.clnt ≡ true
      → IsAlert n p asleep pending (scanning i front (j ∷ back))
      → IsAlert n p asleep pending (scanning i (j ∷ front) back)
  IsAlert-pass asleep pending i front back j p busy (low, up, at, all, h) = (
    low,
    up,
    at,
    λ d. omega (arith, all d),
    λ d some_job. elim (Bool-cases (j.clnt == d)) [
      | inl same ↦ inl (ground (arith, same, busy))
      | inr other ↦ h d (ground (arith, other, some_job))
    ],
  )

  -- A worker that wakes does not disturb.
  IsAlert-up :
      (asleep : ℕ → Bool) (pending pending' k : ℕ) (scan : Scan) (p : Pool D)
      → k < n
      → IsAlert n p asleep pending scan
      → IsAlert n p (set_at asleep k false) pending' scan
  IsAlert-up asleep pending pending' k nobody p lt h = λ d idle job on. inr (k, lt, ground arith)
  IsAlert-up asleep pending pending' k (scanning i front back) p lt (low, up, at, all, h) = (
    low,
    ground (arith, up),
    at,
    all,
    λ d some_job. elim (h d some_job) [
      | inl busy ↦ inl busy
      | inr (l, low', other, awake) ↦ inr (l, low', other, ground (arith, awake))
    ],
  )

  IsAlert-due :
      (asleep : ℕ → Bool) (pending pending' : ℕ) (scan : Scan) (p : Pool D)
      → 0 < n
      → ((i : ℕ) → i < n → asleep i ≡ false)
      → IsAlert n p asleep pending scan
      → IsAlert n p asleep pending' scan
  IsAlert-due asleep pending pending' nobody p some_worker all h =
      λ d idle job on. inr (0, some_worker, all 0 some_worker)
  IsAlert-due asleep pending pending' (scanning i front back) p some_worker all h = h

  stirred :
      (p : Pool D) (asleep : ℕ → Bool) (pending : ℕ) (scan : Scan)
      → IsAlert n p asleep pending scan
      → (c : ℕ) → p.locked c ≡ false
      → 0 < count c p.queue
      → p.terminate ≡ false
      → IsStirred n asleep pending
  stirred p asleep pending nobody h c idle job on = h c idle job on
  stirred p asleep pending (scanning i front back) (low, up, at, all, h) c idle job on =
      inr (i, low, up)

module _ {n m : ℕ} {D : Type 0} {q : Sqlite D} {sys : System} where
  awake_pool : {s : Night D} → NightReach q sys n m s → Reach q sys n m s.pool
  awake_pool (dusk st all none_due free) = start st
  awake_pool (next r (move st awake)) = later (awake_pool r) st
  awake_pool (next r (look i lt at up on free)) = awake_pool r
  awake_pool (next r (pass i front back j at busy)) = awake_pool r
  awake_pool (next r (sleep i front at)) = awake_pool r
  awake_pool (next r (signal_one i k lt at e)) = awake_pool r
  awake_pool (next r (signal_none k all e)) = awake_pool r
  awake_pool (next r (wake i lt)) = awake_pool r

  -- Only server_stop lets a worker out.
  exits_step :
      {p p' : Pool D}
      → Step q sys n m p p'
      → ((i : ℕ) → p.terminate ≡ false → p.workers i ≢ exited)
      → (i : ℕ) → p'.terminate ≡ false
      → p'.workers i ≢ exited
  exits_step (accept c t u a lt free e) h i on out = h i on out
  exits_step (add j lt there room e) h i on out = h i on out
  exits_step (take k busy lt at yet seen e) h i on out = ground (arith, h i on)
  exits_step (work k input lt at e) h i on out = ground (arith, h i on)
  exits_step (unlock k lt at) h i on out = ground (arith, h i on)
  exits_step {p} (drop k {j} lt at) h i on out =
      ground (arith, h i on, after_drop-exited (p.clients j.clnt) j)
  exits_step (delete k lt at e) h i on out = ground (arith, h i on)
  exits_step stop h i on out = cc
  exits_step (leave k lt at off) h i on out = cc

  exits : {p : Pool D} → Reach q sys n m p → (i : ℕ) → p.terminate ≡ false → p.workers i ≢ exited
  exits (start s) i on out = ground (arith, s.ready i)
  exits (later r st) i on out = exits_step st (exits r) i on out

  -- A step of the pool without a scan, and during one.
  IsAlert-free :
      (asleep : ℕ → Bool) (pending : ℕ) {p p' : Pool D} (st : Step q sys n m p p')
      → MayMove asleep nobody st
      → Refs n m p
      → IsAlert n p asleep pending nobody
      → IsAlert n p' asleep (pending + signals st) (scan_after nobody st)
  IsAlert-free asleep pending {p} (accept c t u a lt free e) may r h = λ d idle job on.
      elim (h d (ground (arith, r.held c free, r.refs c, idle, job)) job on) [
        | inl due ↦ inl (omega arith)
        | inr some_one ↦ inr some_one
      ]
  IsAlert-free asleep pending (add j lt there room e) may r h = λ d idle job on. inl (omega arith)
  IsAlert-free asleep pending (take i busy lt at yet seen e) may r h = λ d idle job on. absurd may.1
  IsAlert-free asleep pending (work i input lt at e) may r h = λ d idle job on. inr (i, lt, may)
  IsAlert-free asleep pending (unlock i lt at) may r h = λ d idle job on. inr (i, lt, may)
  IsAlert-free asleep pending (drop i lt at) may r h = λ d idle job on. inr (i, lt, may)
  IsAlert-free asleep pending (delete i lt at e) may r h = λ d idle job on. inr (i, lt, may)
  IsAlert-free asleep pending stop may r h = λ d idle job on. cc
  IsAlert-free asleep pending (leave i lt at off) may r h = λ d idle job on. inr (i, lt, may.0)

  IsAlert-scan :
      (asleep : ℕ → Bool) (pending i : ℕ) (front back : List Job) {p p' : Pool D}
      (st : Step q sys n m p p')
      → MayMove asleep (scanning i front back) st
      → Refs n m p
      → IsAlert n p asleep pending (scanning i front back)
      → IsAlert n p' asleep (pending + signals st) (scan_after (scanning i front back) st)
  IsAlert-scan asleep pending i front back {p} (accept c t u a lt free e) may r
        (low, up, at, all, h) =
      (
        low,
        up,
        at,
        all,
        λ d some_job.
            still_passed p.locked c d front (omega (arith, r.held c free, r.refs c, all c)) some_job
              (h d some_job),
      )
  IsAlert-scan asleep pending i front back (add j lt there room e) may r h = cc
  IsAlert-scan asleep pending i front back (take k busy lt at yet seen e) may r h =
      λ d idle job on. inr (k, lt, may.0)
  IsAlert-scan asleep pending i front back (work k input lt at e) may r (low, up, here, all, h) =
      (low, up, ground (arith, here, at), all, h)
  IsAlert-scan asleep pending i front back (unlock k lt at) may r (low, up, here, all, h) = (
    low,
    up,
    ground (arith, here, at),
    all,
    λ d some_job. inr (k, lt, ground (arith, here, at), may),
  )
  IsAlert-scan asleep pending i front back (drop k lt at) may r (low, up, here, all, h) =
      (low, up, ground (arith, here, at), all, h)
  IsAlert-scan asleep pending i front back (delete k lt at e) may r (low, up, here, all, h) =
      (low, up, ground (arith, here, at), all, h)
  IsAlert-scan asleep pending i front back stop may r h = h
  IsAlert-scan asleep pending i front back (leave k lt at off) may r h = cc may.1

  IsAlert-move :
      (asleep : ℕ → Bool) (pending : ℕ) (scan : Scan) {p p' : Pool D} (st : Step q sys n m p p')
      → MayMove asleep scan st
      → Refs n m p
      → IsAlert n p asleep pending scan
      → IsAlert n p' asleep (pending + signals st) (scan_after scan st)
  IsAlert-move asleep pending nobody st may r h = IsAlert-free asleep pending st may r h
  IsAlert-move asleep pending (scanning i front back) st may r h =
      IsAlert-scan asleep pending i front back st may r h

  IsAlert-next :
      {s s' : Night D}
      → NightStep q sys n m s s'
      → 0 < n
      → Refs n m s.pool
      → NightAlert n s
      → NightAlert n s'
  IsAlert-next {s} (move st may) some_worker r h = IsAlert-move s.asleep s.pending s.scan st may r h
  IsAlert-next {s} (look i lt at up on free) some_worker r h =
      (lt, up, at, λ c. omega arith, λ c some_job. absurd (omega (arith, some_job)))
  IsAlert-next {s} (pass i front back j at busy) some_worker r h =
      IsAlert-pass s.asleep s.pending i front back j s.pool busy
        (subst (IsAlert n s.pool s.asleep s.pending) at h)
  IsAlert-next {s} (sleep i front at) some_worker r h =
      IsAlert-asleep s.asleep s.pending i front s.pool
        (subst (IsAlert n s.pool s.asleep s.pending) at h)
  IsAlert-next {s} (signal_one i k lt down e) some_worker r h =
      IsAlert-up s.asleep s.pending k i s.scan s.pool lt h
  IsAlert-next {s} (signal_none k all e) some_worker r h =
      IsAlert-due s.asleep s.pending k s.scan s.pool some_worker all h
  IsAlert-next {s} (wake i lt) some_worker r h =
      IsAlert-up s.asleep s.pending s.pending i s.scan s.pool lt h

  NightReach-IsAlert : {s : Night D} → NightReach q sys n m s → 0 < n → NightAlert n s
  NightReach-IsAlert (dusk {s} st all none_due free) some_worker =
      subst (IsAlert n s.pool s.asleep s.pending) (sym free)
        (λ d idle job on. inr (0, some_worker, all 0))
  NightReach-IsAlert (next r st) some_worker =
      IsAlert-next st some_worker (Reach-Refs (awake_pool r)) (NightReach-IsAlert r some_worker)

  -- No wake-up is lost, although clients are unlocked while the queue is scanned: as long as the
  -- server runs, whenever a job is queued whose client is not locked, a signal is due, or one of the
  -- workers is not asleep and has not returned.
  pub never_all_asleep :
      {s : Night D}
      → NightReach q sys n m s
      → 0 < n
      → (c : ℕ) → s.pool.locked c ≡ false
      → 0 < count c s.pool.queue
      → s.pool.terminate ≡ false
      → (0 < s.pending) ⊎ ((i : ℕ) × (i < n) × (s.asleep i ≡ false) × (s.pool.workers i ≢ exited))
  never_all_asleep {s} r some_worker c idle job on =
      elim (stirred s.pool s.asleep s.pending s.scan (NightReach-IsAlert r some_worker) c idle job
        on) [ inl due ↦ inl due | inr (i, lt, up) ↦ inr (i, lt, up, exits (awake_pool r) i on) ]
