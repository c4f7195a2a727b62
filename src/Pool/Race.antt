-- ===== src/Pool/Race.antt =====
-- src/client.h, client_decref: two workers that give back the last two references.
use ed2kd.Base.{ℕ, ◌<◌, ◌≡◌, ◌≢◌, ◌∙◌, ap, true, arith}
use ed2kd.Base.Family.{set_at, set_at-here, set_at-other}
use ed2kd.State.{World, System, ok, Client}
use ed2kd.Db.{Sqlite}
use ed2kd.Client.{client_delete, free_unreferenced}
use ed2kd.Job.{Job}
use ed2kd.Pool.{waiting, deleting, unlocked, Pool, drop_ref, after_drop, drop, delete, Reach, later}

module _ {D : Type 0} (q : Sqlite D) where
  client_delete_gone :
      (w : World D)
      → w.clnt.deleted ≡ true
      → client_delete q w ≡ ok (tt, record w { clnt = free_unreferenced w.clnt })
  unfolding client_delete
  client_delete_gone w gone = ground arith

  freed_last : (c : Client) → c.ref_cnt ≡ 0 → (free_unreferenced c).freed ≡ true
  unfolding free_unreferenced
  freed_last c h = ground arith

  dropped_first :
      (c : Client) (j : Job)
      → c.ref_cnt ≡ 2
      → c.deleted ≡ true
      → (after_drop c j ≡ deleting j) × ((drop_ref c).ref_cnt ≡ 1) × ((drop_ref c).deleted ≡ true)
  unfolding drop_ref after_drop
  dropped_first c j h gone = ground arith

  dropped_last :
      (c : Client) (j : Job)
      → c.ref_cnt ≡ 1
      → c.deleted ≡ true
      → (after_drop c j ≡ deleting j) × ((drop_ref c).ref_cnt ≡ 0) × ((drop_ref c).deleted ≡ true)
  unfolding drop_ref after_drop
  dropped_last c j h gone = ground arith

  -- When two workers have unlocked jobs of one client that was deleted, and theirs are its last two
  -- references, the workers can go on so that one has freed the client's memory while the other is
  -- inside client_delete for it: both decrements let client_delete be called.
  pub decref_race :
      {n m : ℕ} {sys : System} {p : Pool D}
      → Reach q sys n m p
      → (i k : ℕ) (j j' : Job) → i < n
      → k < n
      → i ≢ k
      → p.workers i ≡ unlocked j
      → p.workers k ≡ unlocked j'
      → j'.clnt ≡ j.clnt
      → (p.clients j.clnt).ref_cnt ≡ 2
      → (p.clients j.clnt).deleted ≡ true
      → (p' : Pool D) × Reach q sys n m p'
        × ((p'.clients j.clnt).freed ≡ true)
        × (p'.workers k ≡ deleting j')
  decref_race {p = p} r i k j j' lt lt' ne at at' same two gone =
      let c = p.clients j.clnt in
      let (first, one, gone₁) = dropped_first c j two gone in
      let (second, none_left, gone₂) = dropped_last (drop_ref c) j' one gone₁ in
      let clients₁ = set_at p.clients j.clnt (drop_ref c) in
      let workers₁ = set_at p.workers i (after_drop c j) in
      let here : clients₁ j'.clnt ≡ drop_ref c = ground arith in
      let at₁ : workers₁ k ≡ unlocked j' = ground arith in
      let clients₂ = set_at clients₁ j'.clnt (drop_ref (clients₁ j'.clnt)) in
      let workers₂ = set_at workers₁ k (after_drop (clients₁ j'.clnt) j') in
      let last : clients₂ j.clnt ≡ drop_ref (drop_ref c) = ground (arith, here) in
      let at₂ : workers₂ i ≡ deleting j = ground (arith, first) in
      let r₂ = later (later r (drop i lt at)) (drop k lt' at₁) in
      let r₃ =
        later r₂ (delete i lt at₂ (client_delete_gone _ (ap (λ d. d.deleted) last ∙ gone₂))) in
      (
        _,
        r₃,
        ap (λ d. d.freed) (set_at-here clients₂ j.clnt (free_unreferenced (clients₂ j.clnt)))
            ∙ freed_last (clients₂ j.clnt) (ap (λ d. d.ref_cnt) last ∙ none_left),
        set_at-other workers₂ i k waiting ne
            ∙ set_at-here workers₁ k _
            ∙ ap (λ d. after_drop d j') here
            ∙ second,
      )
