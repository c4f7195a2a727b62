-- ===== src/Pool/Count.antt =====
-- src/server.c, server_job_worker: how many jobs of a client are queued, and in the workers' hands.
use ed2kd.Base.{
  ℕ, ◌+◌, ◌<◌, ◌≡◌, refl, Bool, true, false, List, [], ◌∷◌, ◌++◌, Option, none, some, ◌==◌, to_bit,
  arith, All, inl, inr, Bool-cases, suc,
}
use mathlib.Core.Path.{subst}
use ed2kd.Job.{Job, Seen, at_once, take_job}
use ed2kd.Pool.{Stage, running, done, unlocked}

-- A job of client `c`, as a number.
abbrev pub is_for : ℕ → Job → ℕ
is_for c j = to_bit (j.clnt == c)

-- The worker still has the reference that server_add_job took.
abbrev pub holds : ℕ → Stage → ℕ
holds c (running j) = is_for c j
holds c (done j) = is_for c j
holds c (unlocked j) = is_for c j
holds c _ = 0

-- The worker has the lock of the client.
abbrev pub works : ℕ → Stage → ℕ
works c (running j) = is_for c j
works c (done j) = is_for c j
works c _ = 0

abbrev pub count : ℕ → List Job → ℕ
count c [] = 0
count c (j ∷ jobs) = is_for c j + count c jobs

pub count-append : (c : ℕ) (xs ys : List Job) → count c (xs ++ ys) ≡ count c xs + count c ys
count-append c [] ys = omega arith
count-append c (x ∷ xs) ys = omega (arith, count-append c xs ys)

-- What take_job gives, as a relation.
pub data Taken (locked : ℕ → Bool) : List Job → Job → List Job → Type 0 where
  first : {j : Job} {jobs : List Job} → locked j.clnt ≡ false → Taken locked (j ∷ jobs) j jobs
  behind :
      {j k : Job} {jobs rest : List Job}
      → Taken locked jobs k rest
      → Taken locked (j ∷ jobs) k (j ∷ rest)

-- The answer of take_job is a job that may be taken.
Picked : (ℕ → Bool) → List Job → Option (Job × List Job) → Type 0
Picked locked jobs (some (k, rest)) = Taken locked jobs k rest
Picked locked jobs none = Unit

Picked-next :
    (locked : ℕ → Bool) (j : Job) (jobs : List Job) (b : Bool) (o : Option (Job × List Job))
    → (b ≡ false → locked j.clnt ≡ false)
    → Picked locked jobs o
    → Picked locked (j ∷ jobs) (elim b [
      | false ↦ some (j, jobs)
      | true ↦ elim o [ none ↦ none | some (k, rest) ↦ some (k, j ∷ rest) ]
    ])
unfolding Picked
Picked-next locked j jobs false o free h = first (free refl)
Picked-next locked j jobs true none free h = tt
Picked-next locked j jobs true (some (k, rest)) free h = behind h

take_job-Picked :
    (locked busy : ℕ → Bool) (jobs : List Job)
    → Seen locked busy jobs
    → Picked locked jobs (take_job busy jobs)
unfolding take_job Picked
take_job-Picked locked busy [] seen = tt
take_job-Picked locked busy (j ∷ jobs) (free, seen) =
    Picked-next locked j jobs (busy 0) (take_job (λ k. busy (suc k)) jobs) free
      (take_job-Picked locked (λ k. busy (suc k)) jobs seen)

pub take_job-Taken :
    (locked busy : ℕ → Bool) (jobs : List Job) {k : Job} {rest : List Job}
    → Seen locked busy jobs
    → take_job busy jobs ≡ some (k, rest)
    → Taken locked jobs k rest
unfolding Picked
take_job-Taken locked busy jobs seen h =
    subst (Picked locked jobs) h (take_job-Picked locked busy jobs seen)

pub Taken-free :
    {locked : ℕ → Bool} {jobs rest : List Job} {k : Job}
    → Taken locked jobs k rest
    → locked k.clnt ≡ false
Taken-free (first free) = free
Taken-free (behind t) = Taken-free t

pub Taken-count :
    {locked : ℕ → Bool} {jobs rest : List Job} {k : Job}
    → Taken locked jobs k rest
    → (c : ℕ) → count c jobs ≡ is_for c k + count c rest
Taken-count (first free) c = refl
Taken-count (behind t) c = omega (arith, Taken-count t c)

pub Taken-All :
    (P : Job → Type 0) {locked : ℕ → Bool} {jobs rest : List Job} {k : Job}
    → Taken locked jobs k rest
    → All P jobs
    → P k × All P rest
Taken-All P (first free) (h, hs) = (h, hs)
Taken-All P (behind t) (h, hs) = let (g, gs) = Taken-All P t hs in (g, (h, gs))

-- A scan in which no client is unlocked is one that can be seen.
pub at_once-Seen : (locked : ℕ → Bool) (jobs : List Job) → Seen locked (at_once locked jobs) jobs
at_once-Seen locked [] = tt
at_once-Seen locked (j ∷ jobs) = (λ free. free, at_once-Seen locked jobs)

-- Such a scan does not pass a job of an unlocked client.
pub take_job-some :
    (locked : ℕ → Bool) (jobs : List Job) (c : ℕ)
    → locked c ≡ false
    → 0 < count c jobs
    → (k : Job) × (rest : List Job) × (take_job (at_once locked jobs) jobs ≡ some (k, rest))
unfolding take_job
take_job-some locked [] c free h = absurd (omega arith)
take_job-some locked (j ∷ jobs) c free h = elim (Bool-cases (locked j.clnt)) [
  | inl busy ↦
      let (k, rest, found) = take_job-some locked jobs c free (ground (arith, busy)) in
      (k, j ∷ rest, ground (arith, busy, found))
  | inr idle ↦ (j, jobs, ground (arith, idle))
]
