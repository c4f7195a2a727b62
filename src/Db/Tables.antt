-- ===== src/Db/Tables.antt =====
-- src/db_sqlite.c: the tables and triggers of db_create, with the index of file names, and what the
-- statements of db_open do to them where SQLite executes them. What the two queries answer is left
-- to a parameter; Search/Query/Select gives the answer of a search.
pub mod Update
pub mod Tidy
pub mod Sources
pub mod Remove
pub mod Index
pub mod Indexed
pub mod Shared
use ed2kd.Base.{
  ◌&&◌, ℕ, ◌+◌, ◌-◌, Bool, true, false, List, [], ◌∷◌, ◌++◌, Option, none, some, ◌==◌,
  if◌then◌else◌, to_bit, take, eqb,
}
use ed2kd.Base.Int.{ℤ, pos, ◌+ℤ◌, ◌-ℤ◌}
use ed2kd.Db.{FileArgs, Sqlite, Value, Row}

-- TABLE files
pub record FileRow : Type 0 where
  pub fid : ℕ
  pub hash : List ℕ
  pub name : List ℕ
  pub ext : Option (List ℕ)
  pub size : ℕ
  pub type : ℕ
  pub srcavail : ℕ
  pub srccomplete : ℕ
  pub rating : ℕ
  pub rated_count : ℤ
  pub mlength : ℕ
  pub mbitrate : ℕ
  pub mcodec : List ℕ

-- TABLE sources
pub record SourceRow : Type 0 where
  pub fid : ℕ
  pub sid : ℕ
  pub complete : Bool
  pub rating : ℕ

-- VIRTUAL TABLE fnames: the names of files, as fts4 has indexed them under a number.
pub record Doc : Type 0 where
  pub docid : ℕ
  pub name : List ℕ

pub record Tables : Type 0 where
  pub files : List FileRow
  pub sources : List SourceRow
  pub fnames : List Doc

-- UPDATE files ... WHERE fid=?, with the trigger files_au: a row that it leaves without a source is
-- deleted.
unfoldable pub update_files : ℕ → (FileRow → FileRow) → List FileRow → List FileRow
update_files fid set [] = []
update_files fid set (f ∷ files) =
    let rest = update_files fid set files in
    if f.fid == fid then (if (set f).srcavail == 0 then rest else set f ∷ rest) else f ∷ rest

-- DELETE FROM fnames WHERE docid=?, and the INSERT of files_fts2 and files_fts4.
unfoldable pub delete_docs : ℕ → List Doc → List Doc
delete_docs docid [] = []
delete_docs docid (d ∷ docs) =
    if d.docid == docid then delete_docs docid docs else d ∷ delete_docs docid docs

unfoldable pub insert_doc : FileRow → List Doc → List Doc
insert_doc f docs = docs ++ record { docid = f.fid; name = f.name } ∷ []

-- A row of files that becomes another: files_fts1 and files_fts2 where its name changes, and
-- files_fts3 where files_au deletes it.
unfoldable pub reindex : FileRow → FileRow → List Doc → List Doc
reindex old new docs =
    let renamed : List Doc =
      if eqb new.name old.name then docs else insert_doc new (delete_docs old.fid docs) in
    if new.srcavail == 0 then delete_docs new.fid renamed else renamed

unfoldable pub index_update : ℕ → (FileRow → FileRow) → List FileRow → List Doc → List Doc
index_update fid set [] docs = docs
index_update fid set (f ∷ files) docs =
    index_update fid set files (if f.fid == fid then reindex f (set f) docs else docs)

-- TRIGGER sources_ai, and sources_bd. The counters are those of rows that there are, so that the
-- subtractions do not go below 0; rated_count may.
unfoldable pub source_added : SourceRow → FileRow → FileRow
source_added new f = record f {
  srcavail = f.srcavail + 1;
  srccomplete = f.srccomplete + to_bit new.complete;
  rating = f.rating + new.rating;
  rated_count = if new.rating == 0 then pos 0 else f.rated_count +ℤ pos 1;
}

unfoldable pub source_removed : SourceRow → FileRow → FileRow
source_removed old f = record f {
  srcavail = f.srcavail - 1;
  srccomplete = f.srccomplete - to_bit old.complete;
  rating = f.rating - old.rating;
  rated_count = if old.rating == 0 then f.rated_count else f.rated_count -ℤ pos 1;
}

-- SHARE_UPD
unfoldable pub set_columns : FileArgs → FileRow → FileRow
set_columns a f = record f {
  name = a.name;
  ext = a.ext;
  size = a.size;
  type = a.type;
  mlength = a.media_length;
  mbitrate = a.media_bitrate;
  mcodec = a.media_codec;
}

unfoldable pub rows_of : ℕ → List FileRow → ℕ
rows_of fid [] = 0
rows_of fid (f ∷ files) = to_bit (f.fid == fid) + rows_of fid files

-- SHARE_INS: OR REPLACE takes a row of the same key away first.
unfoldable pub without : ℕ → List FileRow → List FileRow
without fid [] = []
without fid (f ∷ files) = if f.fid == fid then without fid files else f ∷ without fid files

unfoldable pub new_row : FileArgs → FileRow
new_row a = record {
  fid = a.fid;
  hash = a.hash;
  name = a.name;
  ext = a.ext;
  size = a.size;
  type = a.type;
  srcavail = 0;
  srccomplete = 0;
  rating = 0;
  rated_count = pos 0;
  mlength = a.media_length;
  mbitrate = a.media_bitrate;
  mcodec = a.media_codec;
}

-- REMOVE_SRC: the sources that stay, and the files.
unfoldable pub delete_sources : ℕ → List SourceRow → List FileRow → List SourceRow × List FileRow
unfolding update_files source_removed
delete_sources sid [] files = ([], files)
delete_sources sid (s ∷ sources) files =
    let without_it = delete_sources sid sources (update_files s.fid (source_removed s) files) in
    let with_it = delete_sources sid sources files in
    if s.sid == sid then without_it else (s ∷ with_it.0, with_it.1)

-- REMOVE_SRC: the index.
unfoldable pub index_delete : ℕ → List SourceRow → List FileRow → List Doc → List Doc
unfolding update_files source_removed
index_delete sid [] files docs = docs
index_delete sid (s ∷ sources) files docs =
    let without_it : List Doc =
      index_delete sid sources (update_files s.fid (source_removed s) files)
        (index_update s.fid (source_removed s) files docs) in
    let with_it : List Doc = index_delete sid sources files docs in
    if s.sid == sid then without_it else with_it

-- GET_SRC, without its limit.
unfoldable pub sids_of : ℕ → List SourceRow → List ℕ
sids_of fid [] = []
sids_of fid (s ∷ sources) =
    if s.fid == fid then s.sid ∷ sids_of fid sources else sids_of fid sources

-- What the two queries answer: their rows, in any order, and whether they failed.
pub record Reads : Type 0 where
  pub search : List ℕ → List Value → Tables → Option (List Row × Bool)
  pub get_src : ℕ → ℕ → Tables → Option (List ℕ × Bool)

-- The statements that write, in runs of SQLite in which none of them fails. Other threads have
-- connections to the same shared cache: there SQLite may also answer SQLITE_LOCKED.
unfoldable pub tables : Reads → Sqlite Tables
unfolding update_files set_columns rows_of without new_row source_added delete_sources index_update
    insert_doc index_delete delete_docs reindex
tables find = record {
  share_upd = λ a t. some (
    rows_of a.fid t.files,
    record t {
      files = update_files a.fid (set_columns a) t.files;
      fnames = index_update a.fid (set_columns a) t.files t.fnames;
    },
  );
  share_ins = λ a t. some (record t {
    files = without a.fid t.files ++ new_row a ∷ [];
    fnames = insert_doc (new_row a) t.fnames;
  });
  share_src = λ fid sid complete rating t.
      let s : SourceRow = record { fid = fid; sid = sid; complete = complete; rating = rating } in
      some (record {
        sources = t.sources ++ s ∷ [];
        files = update_files fid (source_added s) t.files;
        fnames = index_update fid (source_added s) t.files t.fnames;
      });
  remove_src = λ sid t. some (record {
    sources = (delete_sources sid t.sources t.files).0;
    files = (delete_sources sid t.sources t.files).1;
    fnames = index_delete sid t.sources t.files t.fnames;
  });
  get_src = find.get_src;
  search = find.search;
}

-- db_create: the answers are sqlite3_threadsafe, and whether the file could be opened and the script
-- ran, which leaves the tables empty.
unfoldable pub db_create : Bool → Bool → Bool → Option Tables
db_create threadsafe opened executed =
    if threadsafe && (opened && executed)
    then some (record { files = []; sources = []; fnames = [] })
    else none
