-- ===== src/Examples/Nights.antt =====
-- A worker that goes to sleep before the first client comes.
use ed2kd.Base.{ℕ, ◌<◌, ◌≡◌, ◌≢◌, ◌⊎◌, refl, false, List, [], arith}
use ed2kd.Client.{client_new, client_addref}
use ed2kd.Listener.{accept_cb}
use ed2kd.Util.Bucket.{token_bucket_init}
use ed2kd.Pool.{exited, accept, add}
use ed2kd.Pool.Sleep.{Scan, Night, NightReach, dusk, next, move, look, sleep}
use ed2kd.Pool.Wake.{never_all_asleep}
use ed2kd.Examples.{sources, quiet}
use ed2kd.Examples.Workers.{nobody, ended}

record Evening : Type 0 where
  last : Night (List ℕ)
  open last use *
  reach : NightReach sources quiet 2 2 last

abbrev dark : Evening
dark = record {
  last = record { pool = nobody; asleep = λ i. false; pending = 0; scan = Scan.nobody };
  reach =
      dusk
        (record {
          empty = refl;
          ready = λ i. refl;
          open_locks = λ c. refl;
          unused = λ c. (refl, refl, refl, refl);
          nobody = (refl, refl);
          listens = refl;
        })
        (λ i. refl) refl refl;
}

-- A worker has gone to sleep, a client has come, and its first job has been queued.
abbrev visited : Evening
unfolding accept_cb client_new token_bucket_init client_addref
visited = record {
  last = _;
  reach =
      next
        (next (next (next dark.reach (look 0 (omega arith) refl refl refl refl)) (sleep 0 [] refl))
          (move (accept 0 0 0 5 (omega arith) refl refl) tt))
        (move (add ended (omega arith) refl (omega arith) refl) refl);
}

never_all_asleep_example :
    (0 < visited.last.pending)
    ⊎ ((i : ℕ) × (i < 2) × (visited.last.asleep i ≡ false) × (visited.last.pool.workers i ≢ exited))
unfolding accept_cb client_new token_bucket_init client_addref
never_all_asleep_example = never_all_asleep visited.reach (omega arith) 0 refl (omega arith) refl
