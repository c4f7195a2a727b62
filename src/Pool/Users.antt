-- ===== src/Pool/Users.antt =====
-- src/client.c and src/server.c: the counter of users.
use ed2kd.Base.{ℕ, ◌^◌, ◌≤◌, ◌<◌, ◌≡◌, refl, true, arith}
use ed2kd.Base.Family.{set_at, sum, sum-set_at, sum-zero, sum-ge, sum-le}
use ed2kd.State.{Client, Server, World, System, ok}
use ed2kd.Db.{Sqlite}
use ed2kd.Client.{client_new, client_addref}
use ed2kd.Listener.{accept_cb}
use ed2kd.Job.{Job}
use ed2kd.Job.Steady.{Stays, live}
use ed2kd.Job.Handlers.{client_delete-Stays}
use ed2kd.Job.Switch.{run_job-Stays}
use ed2kd.Pool.{
  Pool, world, store, drop_ref, Step, accept, add, take, work, unlock, drop, delete, stop, leave,
  Reach, start, later,
}
use ed2kd.Pool.References.{Refs, Reach-Refs}

-- The counter of users is the number of clients that are connected.
pub record Users (m : ℕ) {D : Type 0} (p : Pool D) : Type 0 where
  pub users : p.srv.user_count ≡ sum live m p.clients

live-le : (c : Client) → live c ≤ 1
live-le c = ground arith

module _ {m : ℕ} {D : Type 0} (few : m < 2 ^ 32) where
  -- A handler for client `c` keeps it.
  Users-store :
      {q : Sqlite D} (p : Pool D) (c : ℕ) (w : World D)
      → c < m
      → Users m p
      → Stays q (world p c) w
      → Users m (store p c w)
  Users-store p c w lt u f =
      let room : p.srv.user_count < 2 ^ 32 =
        omega (arith, few, u.users, sum-le live live-le m p.clients) in
      let one : live (p.clients c) ≤ p.srv.user_count =
        omega (arith, u.users, sum-ge live m p.clients c lt) in
      record {
        users = omega (arith, u.users, sum-set_at live m p.clients c w.clnt lt, f.users one room);
      }

  Users-accept :
      (p : Pool D) (c now₁ now₂ s_addr : ℕ) (clnt : Client) (srv : Server)
      → Users m p
      → c < m
      → (p.clients c).deleted ≡ true
      → accept_cb p.cfg now₁ now₂ true s_addr p.srv ≡ ok (clnt, srv)
      → srv.user_count ≡ sum live m (set_at p.clients c clnt)
  unfolding accept_cb client_new
  Users-accept p c now₁ now₂ s_addr clnt srv u lt gone e =
      let after = sum-set_at live m p.clients c clnt lt in
      let bound = sum-le live live-le m (set_at p.clients c clnt) in
      ground (arith, u.users, few, after, bound)

  Users-same :
      (p : Pool D) (c : ℕ) (k : Client)
      → Users m p
      → c < m
      → k.deleted ≡ (p.clients c).deleted
      → p.srv.user_count ≡ sum live m (set_at p.clients c k)
  Users-same p c k u lt same = ground (arith, u.users, sum-set_at live m p.clients c k lt)

  Users-add :
      (q : Sqlite D) (p : Pool D) (j : Job) (w : World D)
      → Users m p
      → j.clnt < m
      → client_addref q (world p j.clnt) ≡ ok (tt, w)
      → w.srv.user_count ≡ sum live m (set_at p.clients j.clnt w.clnt)
  unfolding client_addref
  Users-add q p j w u lt e = ground (arith, Users-same p j.clnt w.clnt u lt)

  Users-drop :
      (p : Pool D) (j : Job)
      → Users m p
      → j.clnt < m
      → p.srv.user_count ≡ sum live m (set_at p.clients j.clnt (drop_ref (p.clients j.clnt)))
  unfolding drop_ref
  Users-drop p j u lt = Users-same p j.clnt (drop_ref (p.clients j.clnt)) u lt refl

  Users-Step :
      {n : ℕ} {q : Sqlite D} {sys : System} {p p' : Pool D}
      → Step q sys n m p p'
      → Refs n m p
      → Users m p
      → Users m p'
  Users-Step {p = p} (accept c t v a {clnt} {srv} lt free e) r u = record {
    users = Users-accept p c t v a clnt srv u lt (r.held c free).1 e;
  }
  Users-Step {q = q} {p = p} (add j {w} lt there room e) r u = record {
    users = Users-add q p j w u lt e;
  }
  Users-Step (take i busy lt at on seen e) r u = record { users = u.users }
  Users-Step {q = q} {sys = sys} {p = p} (work i input {j} {w} lt at e) r u =
      let after =
        Users-store p j.clnt w (ground (arith, r.ids i)) u
          (run_job-Stays q sys j.type input (world p j.clnt) w e) in
      record { users = after.users }
  Users-Step (unlock i lt at) r u = record { users = u.users }
  Users-Step {p = p} (drop i {j} lt at) r u = record {
    users = Users-drop p j u (ground (arith, r.ids i));
  }
  Users-Step {q = q} {sys = sys} {p = p} (delete i {j} {w} lt at e) r u =
      let after =
        Users-store p j.clnt w (ground (arith, r.ids i)) u
          (client_delete-Stays q sys (world p j.clnt) w e) in
      record { users = after.users }
  Users-Step stop r u = record { users = u.users }
  Users-Step (leave i lt at off) r u = record { users = u.users }

  -- With room for fewer than 2^32 clients, in every state that the workers and callbacks can reach
  -- the server's counter of users is the number of clients that are connected and not deleted.
  pub Reach-Users :
      {n : ℕ} {q : Sqlite D} {sys : System} {p : Pool D} → Reach q sys n m p → Users m p
  Reach-Users (start {p} s) = record {
    users = ground (arith, s.nobody, sum-zero live m p.clients (λ c. ground (arith, s.unused c)));
  }
  Reach-Users (later r st) = Users-Step st (Reach-Refs r) (Reach-Users r)
