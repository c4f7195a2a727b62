-- ===== src/Job/Steady.antt =====
-- src/client.c and src/server.c: what a handler leaves alone in the client that it runs on.
use ed2kd.Client.Delete.{IsListening}
use ed2kd.Base.{
  ◌+◌, ◌^◌, ◌≤◌, ap, not, to_bit, u32, ℕ, ◌<◌, ◌≡◌, refl, ◌∙◌, Bool, true, false, List, arith, inl,
  inr, if◌then◌else◌,
}
use mathlib.Core.Path.{subst, sym}
use ed2kd.Db.{Sqlite}
use ed2kd.Db.Moves.{Moves, unmoved, Moves-trans}
use ed2kd.State.{
  Res-cases, Client, World, M, Res, Fault, ok, fault, ◌>>=◌, pure, get, ask, write, write_pc,
}

-- A client that is connected counts as one user.
abbrev pub live : Client → ℕ
live c = to_bit (not c.deleted)

-- How the server and the client change together: the counter of references is as before, a client
-- that is referred to has not been freed, one that was deleted stays so; the server's counters of
-- users and files, and its listener, follow the client; the database is changed by db_share_files and
-- db_remove_source only. A client that is deleted has no files, if it was so before.
pub record Stays {D : Type 0} (q : Sqlite D) (w w' : World D) : Type 0 where
  pub config : w'.cfg ≡ w.cfg
  pub stored : Moves q w.db w'.db
  pub refs : w'.clnt.ref_cnt ≡ w.clnt.ref_cnt
  pub held : 0 < w.clnt.ref_cnt → w'.clnt.freed ≡ w.clnt.freed
  pub gone : w.clnt.deleted ≡ true → w'.clnt.deleted ≡ true
  pub users :
      live w.clnt ≤ w.srv.user_count
      → w.srv.user_count < 2 ^ 32
      → w'.srv.user_count + live w.clnt ≡ w.srv.user_count + live w'.clnt
  pub listens :
      live w.clnt ≤ w.srv.user_count
      → w.srv.user_count < 2 ^ 32
      → IsListening w.cfg w.srv
      → IsListening w'.cfg w'.srv
  pub small : w.clnt.file_count < 2 ^ 32 → w'.clnt.file_count < 2 ^ 32
  pub range : w.srv.file_count < 2 ^ 32 → w'.srv.file_count < 2 ^ 32
  pub clean :
      (w.clnt.deleted ≡ true → w.clnt.file_count ≡ 0)
      → w'.clnt.deleted ≡ true
      → w'.clnt.file_count ≡ 0
  pub files :
      w.clnt.file_count < 2 ^ 32
      → u32 (w'.srv.file_count + w.clnt.file_count) ≡ u32 (w.srv.file_count + w'.clnt.file_count)

abbrev pub Kept : {D A : Type 0} → Sqlite D → World D → Res (A × World D) → Type 0
Kept q w (ok (a, w')) = Stays q w w'
Kept q w (fault f) = Unit

pub record Steady {D A : Type 0} (q : Sqlite D) (f : M D A) : Type 0 where
  pub steady : (w : World D) → Kept q w (f w)

-- A step that changes neither the server nor what it counts.
pub record Alike {D : Type 0} (w w' : World D) : Type 0 where
  pub base : w'.db ≡ w.db
  pub config : w'.cfg ≡ w.cfg
  pub users : w'.srv.user_count ≡ w.srv.user_count
  pub server_files : w'.srv.file_count ≡ w.srv.file_count
  pub listens : w'.srv.listening ≡ w.srv.listening
  pub refs : w'.clnt.ref_cnt ≡ w.clnt.ref_cnt
  pub freed : w'.clnt.freed ≡ w.clnt.freed
  pub deleted : w'.clnt.deleted ≡ w.clnt.deleted
  pub files : w'.clnt.file_count ≡ w.clnt.file_count

module _ {D : Type 0} {q : Sqlite D} where
  pub Alike-Stays : {w w' : World D} → Alike w w' → Stays q w w'
  Alike-Stays {w} {w'} a = record {
    config = a.config;
    stored = subst (Moves q w.db) (sym a.base) unmoved;
    refs = a.refs;
    held = λ h. a.freed;
    gone = λ h. a.deleted ∙ h;
    users = λ h k. ground (arith, a.users, a.deleted);
    listens = λ h k l. ground (arith, a.users, a.listens, ap (λ c. c.max_clients) a.config);
    small = λ h. omega (arith, a.files);
    range = λ h. omega (arith, a.server_files);
    clean = λ h d. a.files ∙ h (sym a.deleted ∙ d);
    files = λ h. omega (arith, a.files, a.server_files);
  }

  pub Stays-refl : (w : World D) → Stays q w w
  Stays-refl w = Alike-Stays (record {
    base = refl;
    config = refl;
    users = refl;
    server_files = refl;
    listens = refl;
    refs = refl;
    freed = refl;
    deleted = refl;
    files = refl;
  })

  live_falls : {w w' : World D} → Stays q w w' → live w'.clnt ≤ live w.clnt
  live_falls {w} {w'} f = ground (arith, f.gone)

  pub Stays-trans : {a b c : World D} → Stays q a b → Stays q b c → Stays q a c
  Stays-trans {a} {b} {c} f g = record {
    config = g.config ∙ f.config;
    stored = Moves-trans q f.stored g.stored;
    refs = g.refs ∙ f.refs;
    held = λ h. g.held (omega (arith, f.refs)) ∙ f.held h;
    gone = λ h. g.gone (f.gone h);
    users = λ h k.
        let e = f.users h k in
        omega (
          arith,
          e,
          live_falls f,
          g.users (omega (arith, e, live_falls f)) (omega (arith, e, live_falls f)),
        );
    listens = λ h k l.
        let e = f.users h k in
        g.listens (omega (arith, e, live_falls f)) (omega (arith, e, live_falls f))
          (f.listens h k l);
    small = λ h. g.small (f.small h);
    range = λ h. g.range (f.range h);
    clean = λ h. g.clean (f.clean h);
    files = λ h. omega (arith, f.files h, g.files (f.small h));
  }

pub Kept-trans :
    {D A : Type 0} {q : Sqlite D} {w w' : World D} (r : Res (A × World D))
    → Stays q w w'
    → Kept q w' r
    → Kept q w r
Kept-trans (ok (a, t)) f g = Stays-trans f g
Kept-trans (fault e) f g = tt

pub Steady->>= :
    {D A B : Type 0} {q : Sqlite D} (f : M D A) (g : A → M D B)
    → Steady q f
    → ((a : A) → Steady q (g a))
    → Steady q (f >>= g)
Steady->>= {q = q} f g hf hg = record {
  steady = λ w. elim (Res-cases (f w)) [
    | inl (a, t, eq) ↦
        let before : Kept q w (ok (a, t)) = subst (Kept q w) eq (hf.steady w) in
        rw (eq, ◌>>=◌, Kept) (Kept-trans (g a t) before ((hg a).steady t))
    | inr (e, eq) ↦ rw (eq, ◌>>=◌, Kept) tt
  ];
}

pub Steady-if :
    {D A : Type 0} {q : Sqlite D} (b : Bool) (f g : M D A)
    → Steady q f
    → Steady q g
    → Steady q (if b then f else g)
Steady-if true f g hf hg = hf
Steady-if false f g hf hg = hg

pub Steady-elim :
    {D A : Type 0} {q : Sqlite D} (b : Bool) (f g : M D A)
    → Steady q f
    → Steady q g
    → Steady q (elim b [ true ↦ f | false ↦ g ])
Steady-elim true f g hf hg = hf
Steady-elim false f g hf hg = hg

pub Steady-pure : {D A : Type 0} {q : Sqlite D} (a : A) → Steady {D = D} q (pure a)
Steady-pure a = record { steady = λ w. Stays-refl w }

pub Steady-get : {D : Type 0} {q : Sqlite D} → Steady {D = D} q get
Steady-get = record { steady = λ w. Stays-refl w }

pub Steady-ask : {D A : Type 0} {q : Sqlite D} (answer : ℕ → A) → Steady {D = D} q (ask answer)
Steady-ask answer = record {
  steady = λ w. Alike-Stays (record {
    base = refl;
    config = refl;
    users = refl;
    server_files = refl;
    listens = refl;
    refs = refl;
    freed = refl;
    deleted = refl;
    files = refl;
  });
}

pub Steady-fault :
    {D A : Type 0} {q : Sqlite D} (f : Fault) → Steady {D = D} {A = A} q (λ _. fault f)
Steady-fault f = record { steady = λ w. tt }

module _ {D : Type 0} (q : Sqlite D) (bytes : List ℕ) where
  write_stays : (w : World D) → Kept q w (write bytes w)
  unfolding write
  write_stays w = ground (arith, Stays-refl {q = q} w)

  pub Steady-write : Steady {D = D} q (write bytes)
  Steady-write = record { steady = write_stays }

  write_pc_stays : (w : World D) → Kept q w (write_pc bytes w)
  unfolding write_pc
  write_pc_stays w = ground (arith, Stays-refl {q = q} w)

  pub Steady-write_pc : Steady {D = D} q (write_pc bytes)
  Steady-write_pc = record { steady = write_pc_stays }
