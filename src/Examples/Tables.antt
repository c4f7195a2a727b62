-- ===== src/Examples/Tables.antt =====
-- One shared file in the tables of the database.
use ed2kd.Base.{ℕ, ◌≡◌, refl, ◌==◌, Bool, true, false, arith, [], ◌∷◌, Option, some}
use ed2kd.Db.{db_share_files, db_remove_source}
use ed2kd.Db.Handles.{Handles, IsReleased, count, session, session-IsReleased}
use ed2kd.Db.Tables.{Tables, Reads, tables}
use ed2kd.Db.Tables.Tidy.{IsTidy}
use ed2kd.Db.Tables.Sources.{db_share_files-IsTidy}
use ed2kd.Db.Tables.Remove.{IsRid, db_remove_source-IsTidy}
use ed2kd.Db.Tables.Update.{sum_of}
use ed2kd.Examples.{a_file}

abbrev nothing : Reads
nothing = record {
  search = λ query values t. some ([], true);
  get_src = λ fid count t. some ([], true);
}

abbrev empty : Tables
empty = record { files = []; sources = []; fnames = [] }

empty-IsTidy : IsTidy empty
unfolding sum_of
empty-IsTidy = record { fits = tt; sourced = tt; owned = λ fid h. absurd (omega arith) }

db_remove_source-IsTidy_example :
    let (done, t') =
      db_remove_source
        (tables nothing)
        7
        (db_share_files (tables nothing) 7 (a_file ∷ []) empty).1 in
    (done ≡ true) × IsTidy t' × IsRid 7 t'.sources
db_remove_source-IsTidy_example =
    db_remove_source-IsTidy nothing 7 (db_share_files (tables nothing) 7 (a_file ∷ []) empty).1
      (db_share_files-IsTidy nothing 7 (a_file ∷ []) empty empty-IsTidy)

-- SQLite closes a connection that has no statement prepared, and no other.
abbrev if_none : ℕ → Bool
if_none n = n == 0

session-IsReleased_example :
    (said : Option Bool) × (h : Handles) × (session if_none true
        (true ∷ true ∷ true ∷ true ∷ true ∷ [])
        (true ∷ false ∷ [])
      ≡ some (said, h))
    × IsReleased if_none true true (count (true ∷ false ∷ [])) said h
session-IsReleased_example =
    session-IsReleased if_none refl true true true true true true (true ∷ false ∷ [])
