-- ===== src/Pool/Files.antt =====
-- src/client.c and src/server.c: the counter of shared files.
use ed2kd.Base.{ℕ, ◌+◌, ◌^◌, ◌<◌, ◌≡◌, refl, true, arith, u32}
use ed2kd.Base.Family.{set_at, sum, sum-set_at, sum-zero}
use ed2kd.State.{Client, Server, World, System, ok}
use ed2kd.Db.{Sqlite}
use ed2kd.Client.{client_new, client_addref}
use ed2kd.Listener.{accept_cb}
use ed2kd.Job.Steady.{Stays}
use ed2kd.Job.Handlers.{client_delete-Stays}
use ed2kd.Job.Switch.{run_job-Stays}
use ed2kd.Pool.{
  Pool, world, store, drop_ref, Step, accept, add, take, work, unlock, drop, delete, stop, leave,
  Reach, start, later,
}
use ed2kd.Pool.References.{Refs, Reach-Refs}

abbrev pub files_of : Client → ℕ
files_of c = c.file_count

-- The server's counter of files is the sum of its clients', in 32 bits; a client that is deleted
-- has none.
pub record Files (m : ℕ) {D : Type 0} (p : Pool D) : Type 0 where
  pub total : p.srv.file_count ≡ u32 (sum files_of m p.clients)
  pub clean : (c : ℕ) → (p.clients c).deleted ≡ true → (p.clients c).file_count ≡ 0
  pub small : (c : ℕ) → (p.clients c).file_count < 2 ^ 32

accept-new :
    {D : Type 0} (p : Pool D) (now₁ now₂ s_addr : ℕ) (clnt : Client) (srv : Server)
    → accept_cb p.cfg now₁ now₂ true s_addr p.srv ≡ ok (clnt, srv)
    → (clnt.file_count ≡ 0) × (srv.file_count ≡ p.srv.file_count)
unfolding accept_cb client_new
accept-new p now₁ now₂ s_addr clnt srv e = ground arith

addref-same :
    {D : Type 0} (q : Sqlite D) (w w' : World D)
    → client_addref q w ≡ ok (tt, w')
    → (w'.clnt.file_count ≡ w.clnt.file_count)
      × (w'.clnt.deleted ≡ w.clnt.deleted)
      × (w'.srv.file_count ≡ w.srv.file_count)
unfolding client_addref
addref-same q w w' e = ground arith

drop_ref-same :
    (c : Client) → ((drop_ref c).file_count ≡ c.file_count) × ((drop_ref c).deleted ≡ c.deleted)
unfolding drop_ref
drop_ref-same c = (refl, refl)

module _ {m : ℕ} {D : Type 0} where
  -- One client's files and the server's change together.
  Files-set :
      (p : Pool D) (c : ℕ) (k : Client) (srv : Server)
      → c < m
      → Files m p
      → srv.file_count < 2 ^ 32
      → u32 (srv.file_count + (p.clients c).file_count) ≡ u32 (p.srv.file_count + k.file_count)
      → (k.deleted ≡ true → k.file_count ≡ 0)
      → k.file_count < 2 ^ 32
      → (srv.file_count ≡ u32 (sum files_of m (set_at p.clients c k)))
        × ((d : ℕ)
            → (set_at p.clients c k d).deleted ≡ true
            → (set_at p.clients c k d).file_count ≡ 0)
        × ((d : ℕ) → (set_at p.clients c k d).file_count < 2 ^ 32)
  Files-set p c k srv lt f range moved clean small = (
    omega (arith, f.total, range, moved, sum-set_at files_of m p.clients c k lt),
    λ d gone. ground (arith, f.clean d, clean),
    λ d. ground (arith, f.small d, small),
  )

  -- A handler for client `c`.
  Files-store :
      {q : Sqlite D} (p : Pool D) (c : ℕ) (w : World D)
      → c < m
      → Files m p
      → Stays q (world p c) w
      → Files m (store p c w)
  Files-store p c w lt f s =
      let (total, clean, small) =
        Files-set p c w.clnt w.srv lt f (s.range (omega (arith, f.total))) (s.files (f.small c))
          (s.clean (f.clean c)) (s.small (f.small c)) in
      record { total = total; clean = clean; small = small }

  Files-Step :
      {n : ℕ} {q : Sqlite D} {sys : System} {p p' : Pool D}
      → Step q sys n m p p'
      → Refs n m p
      → Files m p
      → Files m p'
  Files-Step {p = p} (accept c t v a {clnt} {srv} lt free e) r f =
      let (none_new, same) = accept-new p t v a clnt srv e in
      let none_old : (p.clients c).file_count ≡ 0 = f.clean c (r.held c free).1 in
      let (total, clean, small) =
        Files-set p c clnt srv lt f (omega (arith, f.total, same))
          (omega (arith, same, none_new, none_old)) (λ gone. none_new) (omega (arith, none_new)) in
      record { total = total; clean = clean; small = small }
  Files-Step {q = q} {p = p} (add j {w} lt there room e) r f =
      let (same, ends, srv) = addref-same q (world p j.clnt) w e in
      let (total, clean, small) =
        Files-set p j.clnt w.clnt w.srv lt f (omega (arith, f.total, srv))
          (omega (arith, same, srv)) (λ gone. ground (arith, same, ends, f.clean j.clnt))
          (omega (arith, same, f.small j.clnt)) in
      record { total = total; clean = clean; small = small }
  Files-Step (take i busy lt at on seen e) r f = record {
    total = f.total;
    clean = f.clean;
    small = f.small;
  }
  Files-Step {q = q} {sys = sys} {p = p} (work i input {j} {w} lt at e) r f =
      let after =
        Files-store p j.clnt w (ground (arith, r.ids i)) f
          (run_job-Stays q sys j.type input (world p j.clnt) w e) in
      record { total = after.total; clean = after.clean; small = after.small }
  Files-Step (unlock i lt at) r f = record { total = f.total; clean = f.clean; small = f.small }
  Files-Step {p = p} (drop i {j} lt at) r f =
      let (same, ends) = drop_ref-same (p.clients j.clnt) in
      let (total, clean, small) =
        Files-set p j.clnt (drop_ref (p.clients j.clnt)) p.srv (ground (arith, r.ids i)) f
          (omega (arith, f.total)) (omega (arith, same))
          (λ gone. ground (arith, same, ends, f.clean j.clnt))
          (omega (arith, same, f.small j.clnt)) in
      record { total = total; clean = clean; small = small }
  Files-Step {q = q} {sys = sys} {p = p} (delete i {j} {w} lt at e) r f =
      let after =
        Files-store p j.clnt w (ground (arith, r.ids i)) f
          (client_delete-Stays q sys (world p j.clnt) w e) in
      record { total = after.total; clean = after.clean; small = after.small }
  Files-Step stop r f = record { total = f.total; clean = f.clean; small = f.small }
  Files-Step (leave i lt at off) r f = record { total = f.total; clean = f.clean; small = f.small }

  -- In every state that the workers and callbacks can reach, the server's counter of files is the
  -- sum of its clients' counters, in 32 bits, and a client that is deleted counts no file.
  pub Reach-Files :
      {n : ℕ} {q : Sqlite D} {sys : System} {p : Pool D} → Reach q sys n m p → Files m p
  Reach-Files (start {p} s) = record {
    total =
        ground (arith, s.nobody, sum-zero files_of m p.clients (λ c. ground (arith, s.unused c)));
    clean = λ c gone. ground (arith, s.unused c);
    small = λ c. ground (arith, s.unused c);
  }
  Reach-Files (later r st) = Files-Step st (Reach-Refs r) (Reach-Files r)
