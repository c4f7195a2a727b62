-- ===== src/Job/Alive.antt =====
-- src/client.c and src/server.c: handlers that need a client that is not deleted.
use ed2kd.Base.{◌≡◌, Bool, true, false, inl, inr, if◌then◌else◌}
use mathlib.Core.Path.{subst}
use ed2kd.State.{Res-cases, World, M, Res, ok, fault, ◌>>=◌, get}
use ed2kd.Db.{Sqlite}
use ed2kd.Job.Steady.{Kept, Kept-trans, Steady}

-- What holds of a step that starts with a client that is not deleted.
pub record Alive {D A : Type 0} (q : Sqlite D) (f : M D A) : Type 0 where
  pub alive : (w : World D) → w.clnt.deleted ≡ false → Kept q w (f w)

abbrev pub Unended : {D A : Type 0} → Res (A × World D) → Type 0
Unended (ok (a, w')) = w'.clnt.deleted ≡ false
Unended (fault f) = Unit

-- A step that does not delete its client.
pub record Sparing {D A : Type 0} (f : M D A) : Type 0 where
  pub spares : (w : World D) → w.clnt.deleted ≡ false → Unended (f w)

pub Steady-Alive : {D A : Type 0} {q : Sqlite D} {f : M D A} → Steady q f → Alive q f
Steady-Alive h = record { alive = λ w live_now. h.steady w }

pub Alive->>= :
    {D A B : Type 0} {q : Sqlite D} (f : M D A) (g : A → M D B)
    → Alive q f
    → ((a : A) → Steady q (g a))
    → Alive q (f >>= g)
Alive->>= {q = q} f g hf hg = record {
  alive = λ w live_now. elim (Res-cases (f w)) [
    | inl (a, t, eq) ↦
        let before : Kept q w (ok (a, t)) = subst (Kept q w) eq (hf.alive w live_now) in
        rw (eq, ◌>>=◌, Kept) (Kept-trans (g a t) before ((hg a).steady t))
    | inr (e, eq) ↦ rw (eq, ◌>>=◌, Kept) tt
  ];
}

pub Alive-behind :
    {D A B : Type 0} {q : Sqlite D} (f : M D A) (g : A → M D B)
    → Steady q f
    → Sparing f
    → ((a : A) → Alive q (g a))
    → Alive q (f >>= g)
Alive-behind {A = A} {q = q} f g hf spare hg = record {
  alive = λ w live_now. elim (Res-cases (f w)) [
    | inl (a, t, eq) ↦
        let before : Kept q w (ok (a, t)) = subst (Kept q w) eq (hf.steady w) in
        let still : Unended {A = A} (ok (a, t)) = subst Unended eq (spare.spares w live_now) in
        rw (eq, ◌>>=◌, Kept) (Kept-trans (g a t) before ((hg a).alive t still))
    | inr (e, eq) ↦ rw (eq, ◌>>=◌, Kept) tt
  ];
}

pub Alive-if :
    {D A : Type 0} {q : Sqlite D} (b : Bool) (f g : M D A)
    → Alive q f
    → Alive q g
    → Alive q (if b then f else g)
Alive-if true f g hf hg = hf
Alive-if false f g hf hg = hg

pub Sparing-get : {D : Type 0} → Sparing {D = D} get
Sparing-get = record { spares = λ w live_now. live_now }
