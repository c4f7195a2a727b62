-- ===== src/Pool/References.antt =====
-- src/client.h and src/server.c: the counter of references to a client.
mod Defs
mod Moves
pub use Defs.{Refs}
use ed2kd.Base.{ℕ, ◌⊎◌, ◌+◌, ◌^◌, ◌<◌, ◌≡◌, true, false, List, [], ◌∷◌, ◌++◌, some, arith, All}
use ed2kd.Base.Family.{set_at, sum, sum-set_at, sum-zero, sum-ge}
use ed2kd.State.{Server, Client, World, System, ok}
use ed2kd.Db.{Sqlite}
use ed2kd.Client.{
  client_new, client_addref, client_delete, free_unreferenced, delete_live, forget_sources, release,
}
use ed2kd.Listener.{accept_cb}
use ed2kd.Job.{Job, run_job, take_job}
use ed2kd.Job.Steady.{Stays}
use ed2kd.Job.Switch.{run_job-Stays}
use ed2kd.Pool.{
  Stage, waiting, exited, running, done, unlocked, deleting, Pool, world, store, drop_ref,
  after_drop, Step, accept, add, take, work, unlock, drop, delete, stop, leave, Starts, Reach,
  start, later,
}
use ed2kd.Pool.Count.{holds, count, count-append, take_job-Taken, Taken-count, Taken-All}
use ed2kd.Pool.References.Defs.{IsInside}
use ed2kd.Pool.References.Moves.{
  Refs-accept, Refs-add, Refs-take, Refs-work, Refs-unlock, Refs-drop, Refs-delete, Refs-leave,
}

module _ {n m : ℕ} {D : Type 0} where
  Refs-start : (p : Pool D) → Starts p → Refs n m p
  Refs-start p s = record {
    queue_ids = ground (arith, s.empty);
    ids = λ i. ground (arith, s.ready i);
    refs = λ c. ground (
      arith,
      s.empty,
      s.unused c,
      sum-zero (holds c) n p.workers (λ i. ground (arith, s.ready i)),
    );
    small = λ c. ground (arith, s.unused c);
    held = λ c h. ground (arith, s.unused c);
  }

  Refs-Step :
      {q : Sqlite D} {sys : System} {p p' : Pool D} → Step q sys n m p p' → Refs n m p → Refs n m p'
  Refs-Step {q} {sys} {p} (accept c t u a lt free e) inv =
      Refs-accept q sys p inv c t u a _ _ free e
  Refs-Step {q} {sys} {p} (add j lt there room e) inv = Refs-add q sys p inv j _ lt there room e
  Refs-Step {q} {sys} {p} (take i busy lt at on seen e) inv =
      Refs-take q sys p inv i busy _ _ lt at seen e
  Refs-Step {q} {sys} {p} (work i input lt at e) inv = Refs-work q sys p inv i input _ _ lt at e
  Refs-Step {q} {sys} {p} (unlock i lt at) inv = Refs-unlock q sys p inv i _ lt at
  Refs-Step {q} {sys} {p} (drop i lt at) inv = Refs-drop q sys p inv i _ lt at
  Refs-Step {q} {sys} {p} (delete i lt at e) inv = Refs-delete q sys p inv i _ _ lt at e
  Refs-Step {q} {sys} {p} stop inv = record {
    queue_ids = inv.queue_ids;
    ids = inv.ids;
    refs = inv.refs;
    small = inv.small;
    held = inv.held;
  }
  Refs-Step {q} {sys} {p} (leave i lt at off) inv = Refs-leave q sys p inv i lt at

  pub Reach-Refs : {q : Sqlite D} {sys : System} {p : Pool D} → Reach q sys n m p → Refs n m p
  Reach-Refs (start {p} s) = Refs-start p s
  Reach-Refs (later r st) = Refs-Step st (Reach-Refs r)
