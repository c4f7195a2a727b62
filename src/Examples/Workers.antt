-- ===== src/Examples/Workers.antt =====
-- Two workers with one client, whose connection ends while something it sent waits to be read.
use ed2kd.Base.{ℕ, ◌<◌, ◌≡◌, refl, true, false, List, [], arith}
use ed2kd.Base.Family.{sum}
use ed2kd.Client.{
  client_new, client_addref, client_delete, delete_live, forget_sources, release, leave_server,
  free_unreferenced,
}
use ed2kd.Listener.{accept_cb}
use ed2kd.Job.{Job, on_server_event, on_server_read, take_job, run_job, switch_job}
use ed2kd.Dispatch.{server_event}
use ed2kd.Util.Bucket.{token_bucket_init}
use ed2kd.Job.Steady.{Stays}
use ed2kd.Job.Switch.{run_job-Stays}
use ed2kd.Pool.{
  waiting, running, deleting, Pool, Step, accept, add, take, work, unlock, drop_ref, after_drop,
  Reach, start, later,
}
use ed2kd.Pool.Locks.{workers_exclusive, waiting_takes}
use ed2kd.Pool.Users.{Users, Reach-Users}
use ed2kd.Pool.Files.{Files, Reach-Files}
use ed2kd.Pool.Race.{decref_race}
use ed2kd.Pool.Progress.{steps_left, steps_left-falls}
use ed2kd.Examples.{small_config, some_client, sources, quiet, checked_world}

record Run : Type 0 where
  last : Pool (List ℕ)
  open last use *
  reach : Reach sources quiet 2 2 last

abbrev pub nobody : Pool (List ℕ)
nobody = record {
  cfg = small_config;
  srv = record { user_count = 0; file_count = 0; lowid_counter = 0; listening = true };
  db = [];
  calls = 0;
  clients = λ c. record some_client { ref_cnt = 0; file_count = 0; deleted = true; freed = true };
  sent = λ c. [];
  locked = λ c. false;
  queue = [];
  workers = λ i. waiting;
  terminate = false;
}

abbrev pub ended : Job
ended = record { type = on_server_event (record { ended = true; connected = false }); clnt = 0 }

abbrev received : Job
received = record { type = on_server_read; clnt = 0 }

abbrev at_start : Run
at_start = record {
  last = nobody;
  reach = start (record {
    empty = refl;
    ready = λ i. refl;
    open_locks = λ c. refl;
    unused = λ c. (refl, refl, refl, refl);
    nobody = (refl, refl);
    listens = refl;
  });
}

abbrev connected : Run
unfolding accept_cb client_new token_bucket_init
connected = record {
  last = _;
  reach = later at_start.reach (accept 0 0 0 5 (omega arith) refl refl);
}

abbrev called : Run
unfolding accept_cb client_new token_bucket_init client_addref
called = record {
  last = _;
  reach = later connected.reach (add ended (omega arith) refl (omega arith) refl);
}

abbrev queued : Run
unfolding accept_cb client_new token_bucket_init client_addref
queued = record {
  last = _;
  reach = later called.reach (add received (omega arith) refl (omega arith) refl);
}

abbrev taken : Run
unfolding accept_cb client_new token_bucket_init client_addref take_job
taken = record {
  last = _;
  reach =
      later queued.reach
        (take 0 (λ k. false) (omega arith) refl refl (λ e. refl, (λ e. refl, tt)) refl);
}

abbrev handled : Run
unfolding accept_cb client_new client_addref take_job run_job switch_job server_event client_delete
    delete_live forget_sources release leave_server free_unreferenced drop_ref after_drop
    token_bucket_init
handled = record { last = _; reach = later taken.reach (work 0 [] (omega arith) refl refl) }

abbrev passed : Run
unfolding accept_cb client_new client_addref take_job run_job switch_job server_event client_delete
    delete_live forget_sources release leave_server free_unreferenced drop_ref after_drop
    token_bucket_init
passed = record {
  last = _;
  reach =
      later (later handled.reach (unlock 0 (omega arith) refl))
        (take 1 (λ k. false) (omega arith) refl refl (λ e. refl, tt) refl);
}

-- Both workers are about to give their references back.
abbrev both : Run
unfolding accept_cb client_new client_addref take_job run_job switch_job server_event client_delete
    delete_live forget_sources release leave_server free_unreferenced drop_ref after_drop
    token_bucket_init
both = record {
  last = _;
  reach =
      later (later passed.reach (work 1 [] (omega arith) refl refl)) (unlock 1 (omega arith) refl);
}

workers_exclusive_example : ◌≡◌ {A = ℕ} 0 0
unfolding accept_cb client_new token_bucket_init client_addref take_job
workers_exclusive_example =
    workers_exclusive taken.reach 0 0 0 (omega arith) (omega arith) (omega arith) (omega arith)

waiting_takes_example :
    (j : Job) × (p' : Pool (List ℕ)) × (p'.workers 1 ≡ running j)
    × Step sources quiet 2 2 queued.last p'
unfolding accept_cb client_new token_bucket_init client_addref sum
waiting_takes_example = waiting_takes queued.reach 0 1 (omega arith) refl refl (omega arith) refl

Reach-Users_example : Users 2 both.last
unfolding accept_cb client_new client_addref take_job run_job switch_job server_event client_delete
    delete_live forget_sources release leave_server free_unreferenced drop_ref after_drop
    token_bucket_init
Reach-Users_example = Reach-Users (omega arith) both.reach

Reach-Files_example : Files 2 both.last
unfolding accept_cb client_new client_addref take_job run_job switch_job server_event client_delete
    delete_live forget_sources release leave_server free_unreferenced drop_ref after_drop
    token_bucket_init
Reach-Files_example = Reach-Files both.reach

decref_race_example :
    (p' : Pool (List ℕ)) × Reach sources quiet 2 2 p'
    × ((p'.clients 0).freed ≡ true)
    × (p'.workers 1 ≡ deleting received)
unfolding accept_cb client_new client_addref take_job run_job switch_job server_event client_delete
    delete_live forget_sources release leave_server free_unreferenced drop_ref after_drop
    token_bucket_init
decref_race_example =
    decref_race sources both.reach 0 1 ended received (omega arith) (omega arith) (omega arith) refl
      refl refl refl refl

steps_left-falls_example : steps_left 2 taken.last < steps_left 2 queued.last
unfolding accept_cb client_new token_bucket_init client_addref take_job
steps_left-falls_example =
    steps_left-falls {q = sources} {sys = quiet} {n = 2} {m = 2} {p = queued.last}
      (take 0 (λ k. false) (omega arith) refl refl (λ e. refl, (λ e. refl, tt)) refl) tt

run_job-Stays_example : Stays sources checked_world (delete_live sources checked_world)
unfolding run_job switch_job server_event client_delete delete_live forget_sources release
    leave_server free_unreferenced
run_job-Stays_example =
    run_job-Stays sources quiet (on_server_event (record { ended = true; connected = false })) []
      checked_world (delete_live sources checked_world) refl
