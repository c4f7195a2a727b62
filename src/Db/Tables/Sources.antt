-- ===== src/Db/Tables/Sources.antt =====
-- src/db_sqlite.c: sharing files on the tables of db_create.
use ed2kd.Base.{
  ℕ, ◌≡◌, refl, Bool, true, false, List, [], ◌∷◌, ◌++◌, none, some, ◌==◌, if◌then◌else◌, arith,
}
use ed2kd.Db.{PubFile, FileArgs, file_args, share_file, db_share_files}
use ed2kd.Db.Tables.{
  Reads, SourceRow, Tables, tables, update_files, set_columns, rows_of, without, new_row,
  index_update, insert_doc,
}
use ed2kd.Db.Tables.Tidy.{
  IsTidy, IsReady, without_none, update_keeps, after_update, IsReady-there, IsReady-new,
  after_source,
}
use ed2kd.Db.Moves.{db_share_files-keeps}

module _ (find : Reads) where
  -- What is behind the UPDATE, with whether it changed no row.
  IsTidy-insert :
      (a : FileArgs) (s : SourceRow) (t : Tables) (b : Bool)
      → (b ≡ true
          → IsReady s.fid (record t {
            files = without a.fid t.files ++ new_row a ∷ [];
            fnames = insert_doc (new_row a) t.fnames;
          }))
      → (b ≡ false → IsReady s.fid t)
      → IsTidy
          (let r : Bool × Tables = elim (if b then (tables find).share_ins a t else some t) [
            | none ↦ (false, t)
            | some t₂ ↦ elim ((tables find).share_src s.fid s.sid s.complete s.rating t₂) [
              | none ↦ (false, t₂)
              | some t₃ ↦ (true, t₃)
            ]
          ] in
            r).1
  unfolding tables
  IsTidy-insert a s t true h k =
      after_source s
        (record t {
          files = without a.fid t.files ++ new_row a ∷ [];
          fnames = insert_doc (new_row a) t.fnames;
        })
        _ (h refl)
  IsTidy-insert a s t false h k = after_source s t _ (k refl)

  pub share_file-IsTidy :
      (sid : ℕ) (f : PubFile) (t : Tables) → IsTidy t → IsTidy (share_file (tables find) sid f t).1
  unfolding share_file tables file_args
  share_file-IsTidy sid f t inv =
      let a = file_args f in
      let t₁ : Tables = record t {
        files = update_files a.fid (set_columns a) t.files;
        fnames = index_update a.fid (set_columns a) t.files t.fnames;
      } in
      let tidy : IsTidy t₁ = after_update a t _ inv in
      let same : rows_of a.fid t₁.files ≡ rows_of a.fid t.files = update_keeps a t inv in
      IsTidy-insert a (record { fid = a.fid; sid = sid; complete = f.complete; rating = f.rating })
        t₁ (rows_of a.fid t.files == 0)
        (λ e.
          let none_there : rows_of a.fid t₁.files ≡ 0 = ground (arith, same) in
          rw (without_none a.fid t₁.files none_there) (IsReady-new a t₁ _ tidy none_there))
        (λ e. IsReady-there a.fid t₁ tidy (ground (arith, same)))

  -- Sharing any list of files keeps the tables tidy: each file's counters of sources, of complete
  -- sources and of ratings are those of its sources, no file is without a source, and no source
  -- without a file.
  pub db_share_files-IsTidy :
      (sid : ℕ) (files : List PubFile) (t : Tables)
      → IsTidy t
      → IsTidy (db_share_files (tables find) sid files t).1
  db_share_files-IsTidy = db_share_files-keeps (tables find) IsTidy share_file-IsTidy
