-- ===== src/Search/Query/Finds.antt =====
-- src/db_sqlite.c: db_search_files on the tables of db_create, with their index.
use ed2kd.Base.{
  ℕ, ◌+◌, ◌≡◌, refl, sym, ◌∙◌, ap, Bool, true, List, [], ◌∷◌, some, none, Option, length, ◌||◌,
  if◌then◌else◌, false, take, take-take, All-mem,
}
use mathlib.Core.Path.{subst}
use mathlib.Core.List.{Memᴰ}
use mathlib.Core.List.Memᴰ
use ed2kd.Db.{Row, Sqlite}
use ed2kd.Db.Tables.{FileRow, Tables, tables}
use ed2kd.Db.Tables.Index.{names_of}
use ed2kd.Db.Tables.Indexed.{IsIndexed}
use ed2kd.Search.{Node}
use ed2kd.Search.Query.{
  Params, Spot, name_bytes, no_params, passes, walk, write_rows, query_text, query_values,
  run_query, db_search_files,
}
use ed2kd.Search.Query.Select.{row_of, found, select}
use ed2kd.Search.Query.Found.{wanted, conds_of, select-query, select_malformed}
use ed2kd.Search.Query.Meets.{meets_all-wanted}
use ed2kd.Search.Query.Rows.{entry_of, named_by, joined_has, joined_from, found_has, found_from}

-- What a search for `c` is to find.
pub record IsFound (test : List ℕ → Bool) (c : Params) (t : Tables) (rows : List Row) : Type 0 where
  pub complete :
      (f : FileRow)
      → Memᴰ f t.files
      → test f.name ≡ true
      → wanted c f ≡ true
      → Memᴰ (row_of t f) rows
  pub sound :
      (r : Row)
      → Memᴰ r rows
      → (f : FileRow) × Memᴰ f t.files
        × (test f.name ≡ true)
        × (wanted c f ≡ true)
        × (r ≡ row_of t f)

-- The tables with the query of a search, and any answers of GET_SRC.
abbrev pub stored :
    (List ℕ → Option (List ℕ → Bool)) → (ℕ → ℕ → Tables → Option (List ℕ × Bool)) → Sqlite Tables
stored matches get = tables (record { search = select matches; get_src = get })

if_done : (A : Type 0) (b : Bool) (x y : A) → (if b || true then x else y) ≡ x
if_done A true x y = refl
if_done A false x y = refl

answered :
    {D : Type 0} (q : Sqlite D) (c : Params) (count : ℕ) (db : D) (rows : List Row)
    → q.search (query_text c) (query_values c count) db ≡ some (take count rows, true)
    → run_query q c count db ≡ some (write_rows [] (take count rows), length (take count rows))
unfolding run_query
answered q c count db rows h = rw (run_query, h) (rw (take-take count rows) (if_done _ _ _ _))

module _ (test : List ℕ → Bool) (c : Params) (t : Tables) (inv : IsIndexed t.files t.fnames) where
  finds :
      (f : FileRow)
      → Memᴰ f t.files
      → test f.name ≡ true
      → wanted c f ≡ true
      → Memᴰ (row_of t f) (found test t (conds_of c) t.fnames)
  finds f here h w =
      let named : names_of f.fid t.fnames ≡ f.name ∷ [] = All-mem _ t.files inv.named here in
      let (d, indexed, docid, name) =
        entry_of f.fid f.name t.fnames
          (subst (λ ns. Memᴰ f.name ns) (sym named) (Memᴰ.head refl)) in
      found_has test t (conds_of c) t.fnames indexed (ap test name ∙ h)
        (joined_has t (conds_of c) d.docid t.files here (sym docid) (meets_all-wanted f c ∙ w))

  comes_from :
      (r : Row)
      → Memᴰ r (found test t (conds_of c) t.fnames)
      → (f : FileRow) × Memᴰ f t.files
        × (test f.name ≡ true)
        × (wanted c f ≡ true)
        × (r ≡ row_of t f)
  comes_from r m =
      let (d, indexed, h, row) = found_from test t (conds_of c) t.fnames m in
      let (f, here, same, met, eq) = joined_from t (conds_of c) d.docid t.files row in
      let named : names_of f.fid t.fnames ≡ f.name ∷ [] = All-mem _ t.files inv.named here in
      let only : Memᴰ d.name (f.name ∷ []) =
        subst (λ ns. Memᴰ d.name ns) (ap (λ k. names_of k t.fnames) (sym same) ∙ named)
          (named_by d t.fnames indexed) in
      (f, here, ap test (sym (Memᴰ.eq_of_singleton only)) ∙ h, sym (meets_all-wanted f c) ∙ met, eq)

  pub db_search_files-IsFound :
      (matches : List ℕ → Option (List ℕ → Bool)) (get : ℕ → ℕ → Tables → Option (List ℕ × Bool))
      (root : Node) (count : ℕ)
      → matches (name_bytes c) ≡ some test
      → walk (passes root + 1) (Spot.at root) [] no_params ≡ some (some c)
      → (rows : List Row) × (db_search_files (stored matches get) root count t
          ≡ some (write_rows [] (take count rows), length (take count rows)))
        × IsFound test c t rows
  unfolding db_search_files tables
  db_search_files-IsFound matches get root count parsed walked = (
    found test t (conds_of c) t.fnames,
    rw (db_search_files, walked)
        (answered (stored matches get) c count t _ (select-query matches test c count t parsed)),
    record { complete = finds; sound = comes_from },
  )

-- A name expression that fts4 does not accept makes the search fail.
db_search_files_malformed :
    (matches : List ℕ → Option (List ℕ → Bool)) (get : ℕ → ℕ → Tables → Option (List ℕ × Bool))
    (c : Params) (t : Tables) (root : Node) (count : ℕ)
    → matches (name_bytes c) ≡ none
    → walk (passes root + 1) (Spot.at root) [] no_params ≡ some (some c)
    → db_search_files (stored matches get) root count t ≡ none
unfolding db_search_files run_query tables
db_search_files_malformed matches get c t root count bad walked =
    rw (db_search_files, walked, run_query, select_malformed matches c count t bad) refl
