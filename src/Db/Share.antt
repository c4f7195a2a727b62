-- ===== src/Db/Share.antt =====
-- Facts about sharing and finding sources, for every database.
use ed2kd.Base.{ℕ, ◌^◌, ◌≤◌, ◌<◌, ◌≡◌, refl, Bool, List, [], ◌∷◌, none, some, arith}
use ed2kd.Base.{
  ◌==◌, length, length-take, length-map, map, Option-cases, take, inl, inr, ◌||◌, if◌then◌else◌,
}
use ed2kd.Db.{
  sdbm, PubFile, Sqlite, make_sid, get_sid_id, get_sid_port, share_file, db_share_files,
  db_get_sources,
}

-- A source's number holds its id of 32 bits and its port of 16 bits, and has 64 bits itself.
pub make_sid-fields :
    (id port : ℕ)
    → id < 2 ^ 32
    → port < 2 ^ 16
    → (get_sid_id (make_sid id port) ≡ id)
      × (get_sid_port (make_sid id port) ≡ port)
      × (make_sid id port < 2 ^ 64)
unfolding make_sid get_sid_id get_sid_port
make_sid-fields id port h k = omega arith

-- The files that have a name.
unfoldable pub named : List PubFile → List PubFile
named [] = []
named (f ∷ files) = if f.name_len == 0 then named files else f ∷ named files

module _ {D : Type 0} (q : Sqlite D) where
  -- Files without a name, as duplicates are marked, leave no trace in the database.
  pub db_share_files-named :
      (sid : ℕ) (files : List PubFile) (db : D)
      → db_share_files q sid files db ≡ db_share_files q sid (named files) db
  unfolding db_share_files named
  db_share_files-named sid [] db = refl
  db_share_files-named sid (f ∷ files) db = ground (
    arith,
    db_share_files-named sid files db,
    db_share_files-named sid files (share_file q sid f db).1,
  )

  -- What db_get_sources finds fits the caller's array of `count` sources.
  pub length-db_get_sources :
      (hash : List ℕ) (count : ℕ) (db : D) (found : List (ℕ × ℕ))
      → db_get_sources q hash count db ≡ some found
      → length found ≤ count
  unfolding db_get_sources
  length-db_get_sources hash count db found h =
      elim (Option-cases (q.get_src (sdbm hash) count db)) [
        | inl e ↦ cc (rw (e, db_get_sources) at h)
        | inr ((rows, done), e) ↦ go rows done (rw (e, db_get_sources) at h)
      ]
    where
      sid_parts : ℕ → ℕ × ℕ
      sid_parts sid = (get_sid_id sid, get_sid_port sid)

      go :
          (rows : List ℕ) (done : Bool)
          → (if length (take count rows) == count || done
              then some (map sid_parts (take count rows))
              else none)
            ≡ some found
          → length found ≤ count
      go rows done e =
          ground (arith, length-take count rows, length-map (take count rows) sid_parts)
