-- ===== src/Db/Handles.antt =====
-- src/db_sqlite.c: db_open and db_close, and what a worker of src/server.c has prepared when it ends.
use ed2kd.Base.{
  ℕ, suc, ◌+◌, ◌≡◌, refl, Bool, true, false, List, [], ◌∷◌, Option, none, some, if◌then◌else◌,
  arith, ap, ◌&&◌, not, ◌∙◌, to_bit,
}

-- An entry of s_stmt: NULL, a prepared statement, or a pointer to one that was finalized.
pub data Stmt : Type 0 where
  null prepared finalized : Stmt

-- What a thread has of SQLite: whether it has the connection s_db, its s_stmt in the order of
-- query_statements, and how many statements of the connection are prepared and pointed to by nothing.
pub record Handles : Type 0 where
  pub db : Bool
  pub stmt : List Stmt
  pub lost : ℕ

-- At its start.
abbrev pub fresh : Handles
fresh = record { db = false; stmt = null ∷ null ∷ null ∷ null ∷ null ∷ []; lost = 0 }

-- The loop of db_close. To finalize a statement a second time is an error of use, `none`.
unfoldable pub finalize_all : List Stmt → Option (List Stmt)
finalize_all [] = some []
finalize_all (null ∷ stmt) = elim (finalize_all stmt) [
  | none ↦ none
  | some rest ↦ some (null ∷ rest)
]
finalize_all (prepared ∷ stmt) = elim (finalize_all stmt) [
  | none ↦ none
  | some rest ↦ some (finalized ∷ rest)
]
finalize_all (finalized ∷ stmt) = none

-- The calls of sqlite3_prepare_v2, of which the first that fails is the last.
unfoldable pub prepare_all : List Bool → List Stmt → Bool × List Stmt
prepare_all [] stmt = (true, stmt)
prepare_all (ok ∷ answers) [] = (true, [])
prepare_all (ok ∷ answers) (s ∷ stmt) =
    let rest = prepare_all answers stmt in
    if ok then (rest.0, prepared ∷ rest.1) else (false, null ∷ stmt)

-- db_open behind `failed`: it returns 0 whatever db_close says.
abbrev given_up : Option (Bool × Handles) → Option (Bool × Handles)
given_up none = none
given_up (some (done, h)) = some (false, h)

-- What db_close says at the exit of a worker.
abbrev said : Option (Bool × Handles) → Option (Option Bool × Handles)
said none = none
said (some (done, h)) = some (some done, h)

-- `closes` is whether sqlite3_close is OK for a connection with so many statements prepared.
module _ (closes : ℕ → Bool) where
  -- db_close
  unfoldable pub db_close : Handles → Option (Bool × Handles)
  unfolding finalize_all
  db_close h = elim (finalize_all h.stmt) [
    | none ↦ none
    | some stmt ↦
        if closes h.lost
        then some (true, record { db = false; stmt = stmt; lost = h.lost })
        else some (false, record h { stmt = stmt })
  ]

  -- db_open: whether the database could be opened, and each statement prepared. SQLite gives a
  -- connection even if it could not open the database.
  unfoldable pub db_open : Bool → List Bool → Handles → Option (Bool × Handles)
  unfolding db_close prepare_all
  db_open opened answers h =
      let (done, stmt) = prepare_all answers h.stmt in
      let h' : Handles = record { db = true; stmt = stmt; lost = h.lost } in
      if opened
      then (if done then some (true, h') else given_up (db_close h'))
      else some (false, record h { db = true })

  -- Searches, each with whether it succeeds: db_search_files finalizes its statement if it fails.
  unfoldable pub after_searches : List Bool → Handles → Handles
  after_searches [] h = h
  after_searches (ok ∷ oks) h = after_searches oks (record h { lost = h.lost + to_bit ok })

  -- server_job_worker, of SQLite's resources: what db_close says at its exit, if there is one, and
  -- what the thread has then.
  unfoldable pub session : Bool → List Bool → List Bool → Option (Option Bool × Handles)
  unfolding db_open after_searches db_close
  session opened answers oks = elim (db_open opened answers fresh) [
    | none ↦ none
    | some (ready, h) ↦ if ready then said (db_close (after_searches oks h)) else some (none, h)
  ]

-- The statements of s_stmt that are prepared, and the searches that succeeded.
pub live : List Stmt → ℕ
live [] = 0
live (null ∷ stmt) = live stmt
live (prepared ∷ stmt) = suc (live stmt)
live (finalized ∷ stmt) = live stmt

pub count : List Bool → ℕ
count [] = 0
count (ok ∷ oks) = to_bit ok + count oks

after_searches-lost :
    (closes : ℕ → Bool) (oks : List Bool) (h : Handles)
    → after_searches closes oks h ≡ record h { lost = h.lost + count oks }
unfolding after_searches count
after_searches-lost closes [] h = ap (λ (n : ℕ). record h { lost = n }) (omega arith)
after_searches-lost closes (ok ∷ oks) h =
    after_searches-lost closes oks (record h { lost = h.lost + to_bit ok })
    ∙ ap (λ (n : ℕ). record h { lost = n }) (omega arith)

-- What is left of a worker that has started or not, after n searches that succeeded.
pub record IsReleased (closes : ℕ → Bool) (opened started : Bool) (n : ℕ) (said : Option Bool)
    (h : Handles) : Type 0 where
  pub answer : said ≡ (if started then some (closes n) else none)
  pub none_live : live h.stmt ≡ 0
  pub unowned : h.lost ≡ (if started then n else 0)
  pub connection : h.db ≡ (if started then not (closes n) else not opened)

-- The statements finalized and the connection closed.
abbrev closed : List Stmt → Handles
closed stmt = record { db = false; stmt = stmt; lost = 0 }

-- Behind a call of db_close on statements that all are prepared.
abbrev at_end : Bool → ℕ → Handles
at_end done n = record {
  db = not done;
  stmt = finalized ∷ finalized ∷ finalized ∷ finalized ∷ finalized ∷ [];
  lost = n;
}

abbrev all_prepared : Handles
all_prepared = record {
  db = true;
  stmt = prepared ∷ prepared ∷ prepared ∷ prepared ∷ prepared ∷ [];
  lost = 0;
}

after_searches_open :
    (closes : ℕ → Bool) (oks : List Bool)
    → after_searches closes oks all_prepared ≡ record all_prepared { lost = count oks }
after_searches_open closes oks =
    after_searches-lost closes oks all_prepared
    ∙ ap (λ (n : ℕ). record all_prepared { lost = n }) (omega arith)

at_exit :
    (done : Bool) (n : ℕ)
    → said (if done then some (true, at_end true n) else some (false, at_end false n))
      ≡ some (some done, at_end done n)
at_exit true n = refl
at_exit false n = refl

gone :
    {closes : ℕ → Bool} {n : ℕ} (stmt : List Stmt)
    → live stmt ≡ 0
    → IsReleased closes true false n none (closed stmt)
gone stmt h = record { answer = refl; none_live = h; unowned = refl; connection = refl }

module _ (closes : ℕ → Bool) (empty : closes 0 ≡ true) where
  -- Whatever SQLite answers, a worker finalizes no statement twice. A worker that could not prepare
  -- a statement closes the connection and leaves nothing. One that runs closes the connection at its
  -- exit exactly if SQLite closes one with as many statements prepared as searches have succeeded,
  -- and one that could not open the database leaves its connection. In each case no entry of s_stmt
  -- stays prepared. The condition is that SQLite closes a connection without prepared statements.
  pub session-IsReleased :
      (opened a b c d e : Bool) (oks : List Bool)
      → (said : Option Bool) × (h : Handles) × (session closes opened (a ∷ b ∷ c ∷ d ∷ e ∷ []) oks
          ≡ some (said, h))
        × IsReleased closes opened (opened && (a && (b && (c && (d && e))))) (count oks) said h
  unfolding session db_open db_close prepare_all finalize_all live
  session-IsReleased false a b c d e oks =
      (none, _, refl, record { answer = refl; none_live = refl; unowned = refl; connection = refl })
  session-IsReleased true false b c d e oks = (
    none,
    closed (null ∷ null ∷ null ∷ null ∷ null ∷ []),
    rw (session, db_open, db_close, empty) refl,
    gone (null ∷ null ∷ null ∷ null ∷ null ∷ []) refl,
  )
  session-IsReleased true true false c d e oks = (
    none,
    closed (finalized ∷ null ∷ null ∷ null ∷ null ∷ []),
    rw (session, db_open, db_close, empty) refl,
    gone (finalized ∷ null ∷ null ∷ null ∷ null ∷ []) refl,
  )
  session-IsReleased true true true false d e oks = (
    none,
    closed (finalized ∷ finalized ∷ null ∷ null ∷ null ∷ []),
    rw (session, db_open, db_close, empty) refl,
    gone (finalized ∷ finalized ∷ null ∷ null ∷ null ∷ []) refl,
  )
  session-IsReleased true true true true false e oks = (
    none,
    closed (finalized ∷ finalized ∷ finalized ∷ null ∷ null ∷ []),
    rw (session, db_open, db_close, empty) refl,
    gone (finalized ∷ finalized ∷ finalized ∷ null ∷ null ∷ []) refl,
  )
  session-IsReleased true true true true true false oks = (
    none,
    closed (finalized ∷ finalized ∷ finalized ∷ finalized ∷ null ∷ []),
    rw (session, db_open, db_close, empty) refl,
    gone (finalized ∷ finalized ∷ finalized ∷ finalized ∷ null ∷ []) refl,
  )
  session-IsReleased true true true true true true oks = (
    some (closes (count oks)),
    at_end (closes (count oks)) (count oks),
    ap (λ h. said (db_close closes h)) (after_searches_open closes oks)
        ∙ at_exit (closes (count oks)) (count oks),
    record { answer = refl; none_live = refl; unowned = refl; connection = refl },
  )
