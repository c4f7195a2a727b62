-- ===== src/Db/Moves.antt =====
-- src/db_sqlite.c: how the server can change the database, and what every change keeps.
use ed2kd.Base.{ℕ, Bool, true, false, List, [], ◌∷◌, ◌==◌}
use ed2kd.Db.{Sqlite, PubFile, share_file, db_share_files, db_remove_source}

-- A chain of calls of db_share_files and db_remove_source, whatever their results.
pub data Moves {D : Type 0} (q : Sqlite D) (db : D) : D → Type 0 where
  unmoved : Moves q db db
  db_shared :
      {db' : D} (sid : ℕ) (files : List PubFile)
      → Moves q db db'
      → Moves q db (db_share_files q sid files db').1
  db_removed : {db' : D} (sid : ℕ) → Moves q db db' → Moves q db (db_remove_source q sid db').1

module _ {D : Type 0} (q : Sqlite D) where
  pub Moves-trans : {a b c : D} → Moves q a b → Moves q b c → Moves q a c
  Moves-trans f unmoved = f
  Moves-trans f (db_shared sid files g) = db_shared sid files (Moves-trans f g)
  Moves-trans f (db_removed sid g) = db_removed sid (Moves-trans f g)

  pub Moves-refl : (db : D) → Moves q db db
  Moves-refl db = unmoved

  pub shared_once :
      (sid : ℕ) (files : List PubFile) (db : D) → Moves q db (db_share_files q sid files db).1
  shared_once sid files db = db_shared sid files unmoved

  pub removed_once : (sid : ℕ) (db : D) → Moves q db (db_remove_source q sid db).1
  removed_once sid db = db_removed sid unmoved

module _ {D : Type 0} (q : Sqlite D) (P : D → Type 0)
    (share : (sid : ℕ) (f : PubFile) (db : D) → P db → P (share_file q sid f db).1) where
  next_file :
      (sid : ℕ) (files : List PubFile) (db : D) (b : Bool) (r : Bool × D)
      → P r.1
      → P (db_share_files q sid files db).1
      → P (db_share_files q sid files r.1).1
      → P
          (let r' : Bool × D = elim b [
            | true ↦ db_share_files q sid files db
            | false ↦ elim r.0 [ true ↦ db_share_files q sid files r.1 | false ↦ (false, r.1) ]
          ] in
            r').1
  next_file sid files db true r kept h k = h
  next_file sid files db false (true, db') kept h k = k
  next_file sid files db false (false, db') kept h k = kept

  -- What the sharing of a file keeps, the sharing of a list does.
  pub db_share_files-keeps :
      (sid : ℕ) (files : List PubFile) (db : D) → P db → P (db_share_files q sid files db).1
  unfolding db_share_files
  db_share_files-keeps sid [] db h = h
  db_share_files-keeps sid (f ∷ files) db h =
      let kept = share sid f db h in
      next_file sid files db (f.name_len == 0) (share_file q sid f db) kept
        (db_share_files-keeps sid files db h)
        (db_share_files-keeps sid files (share_file q sid f db).1 kept)

  pub Moves-keeps :
      {db db' : D}
      → Moves q db db'
      → ((sid : ℕ) (t : D) → P t → P (db_remove_source q sid t).1)
      → P db
      → P db'
  Moves-keeps unmoved remove h = h
  Moves-keeps (db_shared {db' = t} sid files m) remove h =
      db_share_files-keeps sid files t (Moves-keeps m remove h)
  Moves-keeps (db_removed {db' = t} sid m) remove h = remove sid t (Moves-keeps m remove h)
