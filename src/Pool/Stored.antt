-- ===== src/Pool/Stored.antt =====
-- src/server.c and src/db_sqlite.c: the database behind the handlers of a worker.
use ed2kd.Base.{ℕ}
use ed2kd.State.{System}
use ed2kd.Db.{Sqlite}
use ed2kd.Db.Tables.{Tables}
use ed2kd.Db.Tables.Tidy.{IsTidy}
use ed2kd.Db.Tables.Indexed.{IsIndexed}
use ed2kd.Pool.{Pool, Step}

-- The states that can be reached from one.
pub data Later {D : Type 0} (q : Sqlite D) (sys : System) (n m : ℕ) (p : Pool D)
    : Pool D → Type 0 where
  now : Later q sys n m p p
  then_step :
      {p' p'' : Pool D} → Later q sys n m p p' → Step q sys n m p' p'' → Later q sys n m p p''

-- The tables of the database.
pub record IsSound (t : Tables) : Type 0 where
  pub tidy : IsTidy t
  pub indexed : IsIndexed t.files t.fnames
