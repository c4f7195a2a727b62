-- ===== src/Db/Tables/Indexed.antt =====
-- src/db_sqlite.c: the index of file names, over all statements of db_open.
use ed2kd.Base.{
  ℕ, ◌≤◌, ◌≡◌, refl, Bool, true, false, List, [], ◌∷◌, ◌++◌, none, some, ◌==◌, if◌then◌else◌, arith,
  All, Bool-cases, inl, inr, append-nil,
}
use ed2kd.Db.{PubFile, FileArgs, file_args, share_file, db_share_files, db_remove_source}
use ed2kd.Db.Moves.{db_share_files-keeps}
use ed2kd.Db.Tables.{
  Reads, FileRow, SourceRow, Doc, Tables, tables, update_files, source_added, source_removed,
  set_columns, rows_of, without, new_row, insert_doc, index_update, index_delete, delete_sources,
}
use ed2kd.Db.Tables.Update.{rows_of-other}
use ed2kd.Db.Tables.Tidy.{without_none, All-append, rows_of-append}
use ed2kd.Db.Tables.Index.{
  others, names_of, names_of-insert, IsNamed, index_update-other, rows_of-update_le,
  index_update_gone, All-IsNamed,
}

-- A file has one row, and the index has its name under its number, and nothing else.
pub record IsIndexed (files : List FileRow) (docs : List Doc) : Type 0 where
  pub keyed : (k : ℕ) → rows_of k files ≤ 1
  pub named : All (IsNamed docs) files
  pub absent : (k : ℕ) → rows_of k files ≡ 0 → names_of k docs ≡ []

-- UPDATE files.
IsIndexed-update :
    (fid : ℕ) (set : FileRow → FileRow)
    → ((f : FileRow) → (set f).fid ≡ f.fid)
    → (files : List FileRow) (docs : List Doc) → IsIndexed files docs
    → IsIndexed (update_files fid set files) (index_update fid set files docs)
IsIndexed-update fid set same files docs inv = record {
  keyed = λ k. omega (arith, inv.keyed k, rows_of-update_le fid set same k files);
  named = All-IsNamed fid set same files docs (inv.keyed fid) inv.named;
  absent = λ k none_left. elim (Bool-cases (fid == k)) [
    | inl e ↦
        ground (arith, index_update_gone fid set same files docs (inv.keyed fid) (inv.absent fid))
    | inr e ↦ ground (
      arith,
      index_update-other fid set same k files docs,
      rows_of-other fid k set files same,
      inv.absent k,
    )
  ];
}

new_row-fid : (a : FileArgs) → (new_row a).fid ≡ a.fid
unfolding new_row
new_row-fid a = refl

IsIndexed-insert :
    (a : FileArgs) (files : List FileRow) (docs : List Doc)
    → rows_of a.fid files ≡ 0
    → IsIndexed files docs
    → IsIndexed (without a.fid files ++ new_row a ∷ []) (insert_doc (new_row a) docs)
IsIndexed-insert a files docs none_there inv =
    let row = new_row a in
    let fid : row.fid ≡ a.fid = new_row-fid a in
    rw (without_none a.fid files none_there) (record {
      keyed = λ k. ground (arith, fid, inv.keyed k, rows_of-append k files row);
      named =
          All-append (IsNamed (insert_doc row docs)) files row
            (others a.fid files docs (insert_doc row docs) none_there
              (λ k ne.
                ground (arith, fid, names_of-insert k row docs, append-nil (names_of k docs)))
              inv.named)
            (ground (arith, fid, names_of-insert row.fid row docs, inv.absent a.fid));
      absent = λ k gone.
          ground (arith, fid, rows_of-append k files row, names_of-insert k row docs, inv.absent k);
    })

IsIndexed-remove :
    (sid : ℕ) (sources : List SourceRow) (files : List FileRow) (docs : List Doc)
    → IsIndexed files docs
    → IsIndexed (delete_sources sid sources files).1 (index_delete sid sources files docs)
unfolding delete_sources index_delete source_removed
IsIndexed-remove sid [] files docs inv = inv
IsIndexed-remove sid (s ∷ sources) files docs inv = elim (Bool-cases (s.sid == sid)) [
  | inl e ↦ rw e (
      IsIndexed-remove sid sources _ _
        (IsIndexed-update s.fid (source_removed s) (λ f. refl) files docs inv))
  | inr e ↦ rw e (IsIndexed-remove sid sources files docs inv)
]

module _ (find : Reads) where
  -- What is behind the UPDATE, with whether it changed no row.
  IsIndexed-behind :
      (a : FileArgs) (s : SourceRow) (t : Tables) (b : Bool)
      → (b ≡ true → rows_of a.fid t.files ≡ 0)
      → IsIndexed t.files t.fnames
      → let r : Bool × Tables = elim (if b then (tables find).share_ins a t else some t) [
        | none ↦ (false, t)
        | some t₂ ↦ elim ((tables find).share_src s.fid s.sid s.complete s.rating t₂) [
          | none ↦ (false, t₂)
          | some t₃ ↦ (true, t₃)
        ]
      ] in
        IsIndexed r.1.files r.1.fnames
  unfolding tables source_added
  IsIndexed-behind a s t true h inv =
      IsIndexed-update s.fid (source_added s) (λ f. refl) _ _
        (IsIndexed-insert a t.files t.fnames (h refl) inv)
  IsIndexed-behind a s t false h inv = IsIndexed-update s.fid (source_added s) (λ f. refl) _ _ inv

  pub share_file-IsIndexed :
      (sid : ℕ) (f : PubFile) (t : Tables)
      → IsIndexed t.files t.fnames
      → let t' = (share_file (tables find) sid f t).1 in IsIndexed t'.files t'.fnames
  unfolding share_file tables file_args set_columns
  share_file-IsIndexed sid f t inv =
      let a = file_args f in
      let updated = IsIndexed-update a.fid (set_columns a) (λ g. refl) t.files t.fnames inv in
      IsIndexed-behind a
        (record { fid = a.fid; sid = sid; complete = f.complete; rating = f.rating })
        (record t {
          files = update_files a.fid (set_columns a) t.files;
          fnames = index_update a.fid (set_columns a) t.files t.fnames;
        })
        (rows_of a.fid t.files == 0)
        (λ e. ground (arith, rows_of-update_le a.fid (set_columns a) (λ g. refl) a.fid t.files))
        updated

  -- A search looks at the names that the files have: whatever is shared, each file keeps one row,
  -- and the index has the name of that row under its number, and nothing else.
  pub db_share_files-IsIndexed :
      (sid : ℕ) (files : List PubFile) (t : Tables)
      → IsIndexed t.files t.fnames
      → let t' = (db_share_files (tables find) sid files t).1 in IsIndexed t'.files t'.fnames
  db_share_files-IsIndexed =
      db_share_files-keeps (tables find) (λ t. IsIndexed t.files t.fnames) share_file-IsIndexed

  pub db_remove_source-IsIndexed :
      (sid : ℕ) (t : Tables)
      → IsIndexed t.files t.fnames
      → let t' = (db_remove_source (tables find) sid t).1 in IsIndexed t'.files t'.fnames
  unfolding db_remove_source tables
  db_remove_source-IsIndexed sid t inv = IsIndexed-remove sid t.sources t.files t.fnames inv
