-- ===== src/Pool/References/Moves.antt =====
-- src/client.h and src/server.c: the counter of references in each step.
use ed2kd.Base.{
  ℕ, ◌⊎◌, ◌+◌, ◌^◌, ◌<◌, ◌≡◌, Bool, true, false, List, [], ◌∷◌, ◌++◌, some, arith, All,
}
use ed2kd.Base.Family.{set_at, sum-set_at, sum-ge}
use ed2kd.State.{Server, Client, World, System, ok}
use ed2kd.Db.{Sqlite}
use ed2kd.Client.{
  client_new, client_addref, client_delete, free_unreferenced, delete_live, forget_sources, release,
}
use ed2kd.Listener.{accept_cb}
use ed2kd.Job.{Job, Seen, run_job, take_job}
use ed2kd.Job.Steady.{Stays}
use ed2kd.Job.Switch.{run_job-Stays}
use ed2kd.Pool.{
  Stage, waiting, exited, running, done, unlocked, deleting, Pool, world, store, drop_ref,
  after_drop,
}
use ed2kd.Pool.Count.{holds, count-append, take_job-Taken, Taken-count, Taken-All}
use ed2kd.Pool.References.Defs.{Refs, IsInside}

All-append :
    {A : Type 0} (P : A → Type 0) (xs : List A) (y : A) → All P xs → P y → All P (xs ++ y ∷ [])
All-append P [] y hs h = (h, tt)
All-append P (x ∷ xs) y (k, hs) h = (k, All-append P xs y hs h)

module _ {n m : ℕ} {D : Type 0} where
  module _ (q : Sqlite D) (sys : System) (p : Pool D) (inv : Refs n m p) where
    open inv use {queue_ids, ids, refs, small, held}

    -- An outcome that leaves the counter, and frees only memory without a reference.
    stored :
        (c : ℕ) (w : World D)
        → w.clnt.ref_cnt ≡ (p.clients c).ref_cnt
        → (w.clnt.freed ≡ true → (w.clnt.ref_cnt ≡ 0) × (w.clnt.deleted ≡ true))
        → (i : ℕ) (s : Stage) → i < n
        → ((d : ℕ) → holds d s ≡ holds d (p.workers i))
        → IsInside m s
        → Refs n m (record (store p c w) { workers = set_at p.workers i s })
    stored c w same freed i s lt alike inside = record {
      queue_ids = queue_ids;
      ids = λ k. ground (arith, ids k);
      refs = λ d. ground (arith, refs d, sum-set_at (holds d) n p.workers i s lt, alike d);
      small = λ d. ground (arith, small d);
      held = λ d h. ground (arith, held d);
    }

    -- A job in a worker's hands counts.
    counted : (i : ℕ) (c : ℕ) → i < n → 0 < holds c (p.workers i) → 0 < (p.clients c).ref_cnt
    counted i c lt h = omega (arith, refs c, sum-ge (holds c) n p.workers i lt)

    pub Refs-accept :
        (c now₁ now₂ s_addr : ℕ) (clnt : Client) (srv : Server)
        → (p.clients c).freed ≡ true
        → accept_cb p.cfg now₁ now₂ true s_addr p.srv ≡ ok (clnt, srv)
        → Refs n m (record p {
          srv = srv;
          clients = set_at p.clients c clnt;
          sent = set_at p.sent c [];
          locked = set_at p.locked c false;
        })
    unfolding accept_cb client_new
    Refs-accept c now₁ now₂ s_addr clnt srv free e = record {
      queue_ids = queue_ids;
      ids = ids;
      refs = λ d. ground (arith, refs d, held c);
      small = λ d. ground (arith, small d);
      held = λ d h. ground (arith, held d);
    }

    pub Refs-add :
        (j : Job) (w : World D)
        → j.clnt < m
        → (p.clients j.clnt).freed ≡ false
        → (p.clients j.clnt).ref_cnt + 1 < 2 ^ 32
        → client_addref q (world p j.clnt) ≡ ok (tt, w)
        → Refs n m (record (store p j.clnt w) { queue = p.queue ++ j ∷ [] })
    unfolding client_addref
    Refs-add j w lt there room e = record {
      queue_ids = All-append _ p.queue j queue_ids lt;
      ids = ids;
      refs = λ d. ground (arith, refs d, count-append d p.queue (j ∷ []));
      small = λ d. ground (arith, small d);
      held = λ d h. ground (arith, held d);
    }

    pub Refs-take :
        (i : ℕ) (busy : ℕ → Bool) (j : Job) (rest : List Job)
        → i < n
        → p.workers i ≡ waiting
        → Seen p.locked busy p.queue
        → take_job busy p.queue ≡ some (j, rest)
        → Refs n m (record p {
          locked = set_at p.locked j.clnt true;
          queue = rest;
          workers = set_at p.workers i (running j);
        })
    Refs-take i busy j rest lt at seen e =
        let t = take_job-Taken p.locked busy p.queue seen e in
        let (lj, lrest) = Taken-All (λ j. j.clnt < m) t queue_ids in
        record {
          queue_ids = lrest;
          ids = λ k. ground (arith, ids k);
          refs = λ d.
              ground
                (arith, refs d, Taken-count t d, sum-set_at (holds d) n p.workers i (running j) lt);
          small = small;
          held = held;
        }

    pub Refs-work :
        (i : ℕ) (input : List ℕ) (j : Job) (w : World D)
        → i < n
        → p.workers i ≡ running j
        → run_job q sys j.type input (world p j.clnt) ≡ ok (tt, w)
        → Refs n m (record (store p j.clnt w) { workers = set_at p.workers i (done j) })
    Refs-work i input j w lt at e =
        let f : Stays q (world p j.clnt) w =
          run_job-Stays q sys j.type input (world p j.clnt) w e in
        let one : 0 < (p.clients j.clnt).ref_cnt = counted i j.clnt lt (ground arith) in
        stored j.clnt w f.refs (λ h. ground (arith, held j.clnt, f.held one)) i (done j) lt
          (λ d. ground arith) (ground (arith, ids i))

    pub Refs-unlock :
        (i : ℕ) (j : Job)
        → i < n
        → p.workers i ≡ done j
        → Refs n m (record p {
          locked = set_at p.locked j.clnt false;
          workers = set_at p.workers i (unlocked j);
        })
    Refs-unlock i j lt at = record {
      queue_ids = queue_ids;
      ids = λ k. ground (arith, ids i, ids k);
      refs = λ d. ground (arith, refs d, sum-set_at (holds d) n p.workers i (unlocked j) lt);
      small = small;
      held = held;
    }

    pub Refs-drop :
        (i : ℕ) (j : Job)
        → i < n
        → p.workers i ≡ unlocked j
        → Refs n m (record p {
          clients = set_at p.clients j.clnt (drop_ref (p.clients j.clnt));
          workers = set_at p.workers i (after_drop (p.clients j.clnt) j);
        })
    unfolding drop_ref after_drop
    Refs-drop i j lt at =
        let one : 0 < (p.clients j.clnt).ref_cnt = counted i j.clnt lt (ground arith) in
        record {
          queue_ids = queue_ids;
          ids = λ k. ground (arith, ids i, ids k);
          refs = λ d. ground (
            arith,
            refs d,
            small d,
            sum-set_at (holds d) n p.workers i (after_drop (p.clients j.clnt) j) lt,
          );
          small = λ d. ground (arith, small d);
          held = λ d h. ground (arith, held d);
        }

    -- What client_delete does to the counter and the memory.
    deleted_facts :
        (w w' : World D)
        → client_delete q w ≡ ok (tt, w')
        → (w'.clnt.ref_cnt ≡ w.clnt.ref_cnt)
          × (w'.clnt.deleted ≡ true)
          × ((w'.clnt.freed ≡ true) → (w.clnt.freed ≡ true) ⊎ (w.clnt.ref_cnt ≡ 0))
    unfolding client_delete free_unreferenced delete_live forget_sources release
    deleted_facts w w' e = ground arith

    pub Refs-delete :
        (i : ℕ) (j : Job) (w : World D)
        → i < n
        → p.workers i ≡ deleting j
        → client_delete q (world p j.clnt) ≡ ok (tt, w)
        → Refs n m (record (store p j.clnt w) { workers = set_at p.workers i waiting })
    Refs-delete i j w lt at e =
        let (same, gone, freed) = deleted_facts (world p j.clnt) w e in
        stored j.clnt w same (λ h. ground (arith, held j.clnt, freed h)) i waiting lt
          (λ d. ground arith) tt

    pub Refs-leave :
        (i : ℕ)
        → i < n
        → p.workers i ≡ waiting
        → Refs n m (record p { workers = set_at p.workers i exited })
    Refs-leave i lt at = record {
      queue_ids = queue_ids;
      ids = λ k. ground (arith, ids k);
      refs = λ d. ground (arith, refs d, sum-set_at (holds d) n p.workers i exited lt);
      small = small;
      held = held;
    }
