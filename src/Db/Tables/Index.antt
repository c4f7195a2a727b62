-- ===== src/Db/Tables/Index.antt =====
-- src/db_sqlite.c: the triggers files_fts1 to files_fts4, which keep the index of file names.
use ed2kd.Base.{
  ℕ, ◌≤◌, ◌≡◌, ◌≢◌, refl, Bool, true, false, List, [], ◌∷◌, ◌++◌, ◌==◌, if◌then◌else◌, arith, All,
  Bool-cases, inl, inr, eqb, eqb→eq, append-nil, ◌∙◌,
}
use ed2kd.Db.Tables.{
  FileRow, Doc, update_files, delete_docs, insert_doc, reindex, index_update, rows_of,
}

-- The names that the index has under a number.
unfoldable pub names_of : ℕ → List Doc → List (List ℕ)
names_of k [] = []
names_of k (d ∷ docs) = if d.docid == k then d.name ∷ names_of k docs else names_of k docs

pub names_of-delete :
    (k docid : ℕ) (docs : List Doc)
    → names_of k (delete_docs docid docs) ≡ (if docid == k then [] else names_of k docs)
unfolding names_of delete_docs
names_of-delete k docid [] = ground arith
names_of-delete k docid (d ∷ docs) = ground (arith, names_of-delete k docid docs)

pub names_of-insert :
    (k : ℕ) (f : FileRow) (docs : List Doc)
    → names_of k (insert_doc f docs) ≡ names_of k docs ++ (if f.fid == k then f.name ∷ [] else [])
unfolding names_of insert_doc
names_of-insert k f [] = ground arith
names_of-insert k f (d ∷ docs) = ground (arith, names_of-insert k f docs)

-- A row is indexed by its name, and nothing else is under its number.
abbrev pub IsNamed : List Doc → FileRow → Type 0
IsNamed docs f = names_of f.fid docs ≡ f.name ∷ []

module _ (old new : FileRow) (docs : List Doc) (same : new.fid ≡ old.fid) where
  reindex-other : (k : ℕ) → old.fid ≢ k → names_of k (reindex old new docs) ≡ names_of k docs
  unfolding reindex
  reindex-other k ne = ground (
    arith,
    names_of-delete k new.fid docs,
    names_of-delete k old.fid docs,
    names_of-insert k new (delete_docs old.fid docs),
    names_of-delete k new.fid (insert_doc new (delete_docs old.fid docs)),
    append-nil (names_of k docs),
  )

  reindex-IsNamed :
      IsNamed docs old → (new.srcavail == 0) ≡ false → IsNamed (reindex old new docs) new
  unfolding reindex
  reindex-IsNamed h there = ground (
    arith,
    eqb→eq new.name old.name,
    names_of-delete new.fid old.fid docs,
    names_of-insert new.fid new (delete_docs old.fid docs),
  )

  reindex_gone : (new.srcavail == 0) ≡ true → names_of new.fid (reindex old new docs) ≡ []
  unfolding reindex
  reindex_gone gone = ground (
    arith,
    names_of-delete new.fid new.fid
        (if eqb new.name old.name then docs else insert_doc new (delete_docs old.fid docs)),
  )

-- Rows of other keys see no change under theirs.
pub others :
    (fid : ℕ) (files : List FileRow) (docs docs' : List Doc)
    → rows_of fid files ≡ 0
    → ((k : ℕ) → fid ≢ k → names_of k docs' ≡ names_of k docs)
    → All (IsNamed docs) files
    → All (IsNamed docs') files
unfolding rows_of
others fid [] docs docs' h agree hs = tt
others fid (f ∷ files) docs docs' h agree (named, hs) =
    (agree f.fid (ground arith) ∙ named, others fid files docs docs' (ground arith) agree hs)

-- UPDATE files: what becomes of the rows and of the index.
module _ (fid : ℕ) (set : FileRow → FileRow) (same : (f : FileRow) → (set f).fid ≡ f.fid) where
  pub update_files_none :
      (files : List FileRow) → rows_of fid files ≡ 0 → update_files fid set files ≡ files
  unfolding update_files rows_of
  update_files_none [] h = refl
  update_files_none (f ∷ files) h = ground (arith, update_files_none files)

  index_update_none :
      (files : List FileRow) (docs : List Doc)
      → rows_of fid files ≡ 0
      → index_update fid set files docs ≡ docs
  unfolding index_update rows_of
  index_update_none [] docs h = refl
  index_update_none (f ∷ files) docs h = ground (arith, index_update_none files docs)

  pub index_update-other :
      (k : ℕ) (files : List FileRow) (docs : List Doc)
      → fid ≢ k
      → names_of k (index_update fid set files docs) ≡ names_of k docs
  unfolding index_update
  index_update-other k [] docs ne = refl
  index_update-other k (f ∷ files) docs ne = ground (
    arith,
    index_update-other k files docs,
    index_update-other k files (reindex f (set f) docs),
    reindex-other f (set f) docs (same f) k,
  )

  -- No row is added.
  pub rows_of-update_le :
      (k : ℕ) (files : List FileRow) → rows_of k (update_files fid set files) ≤ rows_of k files
  unfolding rows_of update_files
  rows_of-update_le k [] = omega arith
  rows_of-update_le k (f ∷ files) = ground (arith, same f, rows_of-update_le k files)

  -- A row that has gone is not in the index.
  pub index_update_gone :
      (files : List FileRow) (docs : List Doc)
      → rows_of fid files ≤ 1
      → (rows_of fid files ≡ 0 → names_of fid docs ≡ [])
      → rows_of fid (update_files fid set files) ≡ 0
      → names_of fid (index_update fid set files docs) ≡ []
  unfolding rows_of update_files index_update
  index_update_gone [] docs once h gone = h refl
  index_update_gone (f ∷ files) docs once h gone = ground (
    arith,
    index_update_gone files docs,
    index_update_none files (reindex f (set f) docs),
    update_files_none files,
    reindex_gone f (set f) docs (same f),
    same f,
  )

  after_set :
      (b : Bool) (f : FileRow) (files : List FileRow) (docs : List Doc)
      → ((set f).srcavail == 0) ≡ b
      → rows_of fid files ≡ 0
      → f.fid ≡ fid
      → IsNamed docs f
      → All (IsNamed docs) files
      → All (IsNamed (reindex f (set f) docs)) (if b then files else set f ∷ files)
  after_set true f files docs z h e named hs =
      others fid files docs (reindex f (set f) docs) h
        (λ k ne. reindex-other f (set f) docs (same f) k (ground (arith, e))) hs
  after_set false f files docs z h e named hs = (
    reindex-IsNamed f (set f) docs (same f) named z,
    others fid files docs (reindex f (set f) docs) h
        (λ k ne. reindex-other f (set f) docs (same f) k (ground (arith, e))) hs,
  )

  -- The rows that stay are indexed by the names that they have then.
  pub All-IsNamed :
      (files : List FileRow) (docs : List Doc)
      → rows_of fid files ≤ 1
      → All (IsNamed docs) files
      → All (IsNamed (index_update fid set files docs)) (update_files fid set files)
  unfolding rows_of update_files index_update
  All-IsNamed [] docs h named = tt
  All-IsNamed (f ∷ files) docs h (named, hs) = elim (Bool-cases (f.fid == fid)) [
    | inl e ↦
        let none_left : rows_of fid files ≡ 0 = ground arith in
        rw
          (
            e,
            update_files_none files none_left,
            index_update_none files (reindex f (set f) docs) none_left,
          )
          (after_set ((set f).srcavail == 0) f files docs refl none_left (ground arith) named hs)
    | inr e ↦ rw e (
      index_update-other f.fid files docs (ground arith) ∙ named,
      All-IsNamed files docs (ground arith) hs,
    )
  ]
