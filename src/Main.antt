-- ===== src/Main.antt =====
-- src/main.c: the options of the command line, what must succeed before the server listens, and what
-- is done at the end; the hash that an option makes, by get_random_user_hash of src/util.c.
pub mod Genhash
use ed2kd.Base.{
  ℕ, zero, suc, ◌≡◌, refl, Bool, true, false, List, [], ◌∷◌, ◌++◌, Option, none, some,
  if◌then◌else◌, take, drop, ◌&&◌,
}
use ed2kd.Util.Hex.{bin2hex}
use ed2kd.Config.{Settings, Loaded, server_load_config}
use ed2kd.Db.Tables.{Tables, db_create}

-- What getopt_long makes of an argument; the last is any other one.
pub data Opt : Type 0 where
  version genhash help unknown : Opt

-- get_random_user_hash, of 16 random bytes.
unfoldable pub get_random_user_hash : List ℕ → List ℕ
get_random_user_hash random = take 6 random ++ 14 ∷ (take 8 (drop 7 random) ++ 111 ∷ [])

-- main returns EXIT_SUCCESS, for --genhash with what bin2hex has written; or EXIT_FAILURE; or the
-- threads start, with a configuration and the tables of the database.
pub data Outcome : Type 0 where
  success : Option (List ℕ) → Outcome
  failure : Outcome
  starts : Loaded → Tables → Outcome

-- The answers of the system: evutil_secure_rng_init, the random bytes, evthread_use_pthreads, the two
-- calls of event_base_new, and those that db_create asks for.
pub record Answers : Type 0 where
  pub seeded : Bool
  pub random : List ℕ
  pub threads : Bool
  pub base_main : Bool
  pub base_tcp : Bool
  pub threadsafe : Bool
  pub opened : Bool
  pub executed : Bool

-- The part of main behind the options.
unfoldable pub start_up : Answers → Settings → Outcome
unfolding server_load_config db_create
start_up a s = elim (server_load_config s) [
  | none ↦ failure
  | some cfg ↦
      if a.threads && (a.base_main && a.base_tcp)
      then (elim (db_create a.threadsafe a.opened a.executed) [
        | none ↦ failure
        | some t ↦ starts cfg t
      ])
      else failure
]

-- main; every option ends the program, so that only the first one counts.
unfoldable pub main : Answers → List Opt → Settings → Outcome
unfolding start_up get_random_user_hash bin2hex
main a opts s =
    if a.seeded
    then (elim opts [
      | [] ↦ start_up a s
      | version ∷ others ↦ success none
      | genhash ∷ others ↦ success (bin2hex (get_random_user_hash a.random) 33)
      | help ∷ others ↦ success none
      | unknown ∷ others ↦ failure
    ])
    else failure

-- What main does behind the start of the threads.
pub data Act : Type 0 where
  server_stop join_dispatch broadcast destroy_mutex join_worker free_listener : Act
  free_loops destroy_database free_config : Act

pub times : ℕ → Act → List Act
times zero act = []
times (suc n) act = act ∷ times n act

-- The end of main. The dispatch thread returns when server_stop has been called, here or by the
-- handlers of signals and of the listener's errors. The answers are whether server_listen succeeded,
-- how often pthread_cond_destroy says EBUSY, and omp_get_num_procs.
unfoldable pub ending : Bool → ℕ → ℕ → List Act
unfolding times
ending listens busy procs =
    (if listens then [] else server_stop ∷ [])
    ++ (join_dispatch
        ∷ (times busy broadcast
            ++ (destroy_mutex
                ∷ (times (suc procs) join_worker
                    ++ free_listener ∷ free_loops ∷ destroy_database ∷ free_config ∷ []))))

-- The mutex of the queue is destroyed before any worker has been joined.
ending-joins :
    (busy procs : ℕ)
    → (rest : List Act) × (ending true busy procs
        ≡ join_dispatch ∷ (times busy broadcast ++ destroy_mutex ∷ join_worker ∷ rest))
unfolding ending times
ending-joins busy procs = (
  times procs join_worker ++ free_listener ∷ free_loops ∷ destroy_database ∷ free_config ∷ [],
  refl,
)
