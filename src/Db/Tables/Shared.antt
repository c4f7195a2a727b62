-- ===== src/Db/Tables/Shared.antt =====
-- src/db_sqlite.c: the row of a file that was shared, in the tables of db_create.
use ed2kd.Base.{
  ℕ, ◌<◌, ◌≡◌, refl, sym, ◌∙◌, ap, Bool, true, false, List, [], ◌∷◌, none, some, ◌==◌,
  if◌then◌else◌, arith, All, All-mem, Bool-cases, inl, inr,
}
use mathlib.Core.List.{Memᴰ}
use mathlib.Core.List.Memᴰ
use ed2kd.Db.{PubFile, FileArgs, file_args, sdbm, share_file}
use ed2kd.Db.Tables.{
  Reads, FileRow, SourceRow, Tables, tables, update_files, source_added, set_columns, rows_of,
  without, new_row, index_update,
}

-- The columns of a row that the statements of a file write.
pub record IsRowOf (a : FileArgs) (f : FileRow) : Type 0 where
  pub fid : f.fid ≡ a.fid
  pub name : f.name ≡ a.name
  pub ext : f.ext ≡ a.ext
  pub size : f.size ≡ a.size
  pub type : f.type ≡ a.type
  pub mlength : f.mlength ≡ a.media_length
  pub mbitrate : f.mbitrate ≡ a.media_bitrate
  pub mcodec : f.mcodec ≡ a.media_codec

row_there :
    (fid : ℕ) (files : List FileRow)
    → 0 < rows_of fid files
    → (f : FileRow) × Memᴰ f files × (f.fid ≡ fid)
unfolding rows_of
row_there fid [] h = absurd (omega arith)
row_there fid (f ∷ files) h = elim (Bool-cases (f.fid == fid)) [
  | inl e ↦ (f, Memᴰ.head refl, ground arith)
  | inr e ↦ let (g, there, same) = row_there fid files (ground arith) in (g, Memᴰ.tail there, same)
]

-- A row that an UPDATE changes, and leaves a source.
updated_there :
    (fid : ℕ) (set : FileRow → FileRow) (files : List FileRow) {f : FileRow}
    → Memᴰ f files
    → f.fid ≡ fid
    → 0 < (set f).srcavail
    → Memᴰ (set f) (update_files fid set files)
unfolding update_files
updated_there fid set [] m same kept = elim m [ ]
updated_there fid set (g ∷ files) {f} (Memᴰ.head e) same kept =
    let key : (g.fid == fid) ≡ true = ground (arith, same, ap (λ (h : FileRow). h.fid) e) in
    let left : ((set g).srcavail == 0) ≡ false =
      ground (arith, kept, ap (λ (h : FileRow). (set h).srcavail) e) in
    rw (key, left) (Memᴰ.head (ap set e))
updated_there fid set (g ∷ files) (Memᴰ.tail m) same kept =
    behind (g.fid == fid) ((set g).srcavail == 0) (updated_there fid set files m same kept)
  where
    behind :
        {z : FileRow} {rest : List FileRow} (b c : Bool)
        → Memᴰ z rest
        → Memᴰ z (if b then (if c then rest else set g ∷ rest) else g ∷ rest)
    behind true true h = h
    behind true false h = Memᴰ.tail h
    behind false c h = Memᴰ.tail h

set_columns-IsRowOf : (a : FileArgs) (f : FileRow) → f.fid ≡ a.fid → IsRowOf a (set_columns a f)
unfolding set_columns
set_columns-IsRowOf a f same = record {
  fid = same;
  name = refl;
  ext = refl;
  size = refl;
  type = refl;
  mlength = refl;
  mbitrate = refl;
  mcodec = refl;
}

new_row-IsRowOf : (a : FileArgs) → IsRowOf a (new_row a)
unfolding new_row
new_row-IsRowOf a = record {
  fid = refl;
  name = refl;
  ext = refl;
  size = refl;
  type = refl;
  mlength = refl;
  mbitrate = refl;
  mcodec = refl;
}

-- The new source leaves those columns alone.
sourced_row :
    (a : FileArgs) (s : SourceRow) (files : List FileRow) {f : FileRow}
    → s.fid ≡ a.fid
    → Memᴰ f files
    → IsRowOf a f
    → (g : FileRow) × Memᴰ g (update_files s.fid (source_added s) files) × IsRowOf a g
unfolding source_added
sourced_row a s files {f} same m r = (
  source_added s f,
  updated_there s.fid (source_added s) files m (r.fid ∙ sym same) (omega arith),
  record {
    fid = r.fid;
    name = r.name;
    ext = r.ext;
    size = r.size;
    type = r.type;
    mlength = r.mlength;
    mbitrate = r.mbitrate;
    mcodec = r.mcodec;
  },
)

module _ (find : Reads) where
  row_behind :
      (a : FileArgs) (s : SourceRow) (t : Tables) (b : Bool)
      → s.fid ≡ a.fid
      → (b ≡ false → (f : FileRow) × Memᴰ f t.files × IsRowOf a f)
      → let r : Bool × Tables = elim (if b then (tables find).share_ins a t else some t) [
        | none ↦ (false, t)
        | some t₂ ↦ elim ((tables find).share_src s.fid s.sid s.complete s.rating t₂) [
          | none ↦ (false, t₂)
          | some t₃ ↦ (true, t₃)
        ]
      ] in
        (g : FileRow) × Memᴰ g r.1.files × IsRowOf a g
  unfolding tables
  row_behind a s t true same h =
      sourced_row a s _ same (Memᴰ.append_right (without a.fid t.files) (Memᴰ.head refl))
        (new_row-IsRowOf a)
  row_behind a s t false same h = let (f, there, r) = h refl in sourced_row a s t.files same there r

  -- A file that is shared has a row, with what was offered in its columns, if every file had a
  -- source before.
  pub share_file-IsRowOf :
      (sid : ℕ) (f : PubFile) (t : Tables)
      → All (λ (g : FileRow). 0 < g.srcavail) t.files
      → (g : FileRow) × Memᴰ g (share_file (tables find) sid f t).1.files × IsRowOf (file_args f) g
  unfolding share_file tables file_args set_columns
  share_file-IsRowOf sid f t sourced =
      let a = file_args f in
      row_behind a
        (record { fid = sdbm f.hash; sid = sid; complete = f.complete; rating = f.rating })
        (record t {
          files = update_files a.fid (set_columns a) t.files;
          fnames = index_update a.fid (set_columns a) t.files t.fnames;
        })
        (rows_of a.fid t.files == 0) refl
        (λ some_row.
          let (g, there, same) = row_there a.fid t.files (ground arith) in
          (
            set_columns a g,
            updated_there a.fid (set_columns a) t.files there same
                (All-mem (λ (h : FileRow). 0 < h.srcavail) t.files sourced there),
            set_columns-IsRowOf a g same,
          ))
