-- ===== src/Db/Tables/Tidy.antt =====
-- src/db_sqlite.c: the statements that share a file, on the tables and triggers of db_create.
use ed2kd.Base.{
  ℕ, ◌+◌, ◌<◌, ◌≡◌, ◌≢◌, refl, List, [], ◌∷◌, ◌++◌, ◌==◌, to_bit, arith, All, Bool-cases, inl, inr,
}
use ed2kd.Db.{FileArgs}
use ed2kd.Db.Tables.{
  FileRow, SourceRow, Doc, Tables, update_files, source_added, set_columns, rows_of, without,
  new_row,
}
use ed2kd.Db.Tables.Update.{
  sum_of, one, complete_bit, rating_of, sum_of-append, sum_of-none, Fits, All-map, All-update_files,
  rows_of-other, rows_of-same,
}

-- What the triggers are there for: a file's counters are those of its sources, a file has at least
-- one source, and every source has its file.
pub record IsTidy (t : Tables) : Type 0 where
  pub fits : All (Fits [] t.sources) t.files
  pub sourced : All (λ (f : FileRow). 0 < f.srcavail) t.files
  pub owned : (fid : ℕ) → 0 < sum_of one fid t.sources → 0 < rows_of fid t.files

-- The state between the row of a file and its new source.
pub record IsReady (fid : ℕ) (t : Tables) : Type 0 where
  fits : All (Fits [] t.sources) t.files
  sourced : All (λ (f : FileRow). f.fid ≢ fid → 0 < f.srcavail) t.files
  owned : (k : ℕ) → 0 < sum_of one k t.sources → 0 < rows_of k t.files
  there : 0 < rows_of fid t.files

pub All-append :
    (P : FileRow → Type 0) (xs : List FileRow) (y : FileRow) → All P xs → P y → All P (xs ++ y ∷ [])
All-append P [] y hs h = (h, tt)
All-append P (x ∷ xs) y (k, hs) h = (k, All-append P xs y hs h)

pub rows_of-append :
    (fid : ℕ) (xs : List FileRow) (y : FileRow)
    → rows_of fid (xs ++ y ∷ []) ≡ rows_of fid xs + to_bit (y.fid == fid)
unfolding rows_of
rows_of-append fid [] y = omega arith
rows_of-append fid (x ∷ xs) y = omega (arith, rows_of-append fid xs y)

pub without_none :
    (fid : ℕ) (files : List FileRow) → rows_of fid files ≡ 0 → without fid files ≡ files
unfolding rows_of without
without_none fid [] h = refl
without_none fid (f ∷ files) h = ground (arith, without_none fid files)

columns_fit :
    (xs ys : List SourceRow) (a : FileArgs) (f : FileRow)
    → Fits xs ys f
    → Fits xs ys (set_columns a f)
unfolding set_columns
columns_fit xs ys a f h = record { avail = h.avail; completes = h.completes; rates = h.rates }

set_columns-fid :
    (a : FileArgs) (f : FileRow)
    → ((set_columns a f).fid ≡ f.fid) × ((set_columns a f).srcavail ≡ f.srcavail)
unfolding set_columns
set_columns-fid a f = (refl, refl)

pub update_keeps :
    (a : FileArgs) (t : Tables)
    → IsTidy t
    → rows_of a.fid (update_files a.fid (set_columns a) t.files) ≡ rows_of a.fid t.files
update_keeps a t inv =
    rows_of-same (λ f. 0 < f.srcavail) a.fid (set_columns a) t.files (λ f. (set_columns-fid a f).0)
      (λ f e h. omega (arith, h, (set_columns-fid a f).1)) inv.sourced

-- SHARE_UPD leaves the tables tidy, and every row.
pub after_update :
    (a : FileArgs) (t : Tables) (docs : List Doc)
    → IsTidy t
    → IsTidy (record t { files = update_files a.fid (set_columns a) t.files; fnames = docs })
after_update a t docs inv =
    let same = update_keeps a t inv in
    record {
      fits =
          All-update_files _ _ a.fid (set_columns a) t.files
            (λ f e z h. columns_fit [] t.sources a f h) (λ f ne h. h) inv.fits;
      sourced =
          All-update_files _ _ a.fid (set_columns a) t.files
            (λ f e z h. omega (arith, h, (set_columns-fid a f).1)) (λ f ne h. h) inv.sourced;
      owned = λ k h. elim (Bool-cases (k == a.fid)) [
        | inl e ↦ ground (arith, same, inv.owned k h)
        | inr e ↦ ground (
          arith,
          inv.owned k h,
          rows_of-other a.fid k (set_columns a) t.files (λ f. (set_columns-fid a f).0),
        )
      ];
    }

new_row-fields :
    (a : FileArgs)
    → ((new_row a).fid ≡ a.fid)
      × ((new_row a).srcavail ≡ 0)
      × ((new_row a).srccomplete ≡ 0)
      × ((new_row a).rating ≡ 0)
unfolding new_row
new_row-fields a = (refl, refl, refl, refl)

-- A tidy state where the file has its row already, or gets it by SHARE_INS.
pub IsReady-there : (fid : ℕ) (t : Tables) → IsTidy t → 0 < rows_of fid t.files → IsReady fid t
IsReady-there fid t inv h = record {
  fits = inv.fits;
  sourced = All-map _ _ t.files (λ f k ne. k) inv.sourced;
  owned = inv.owned;
  there = h;
}

pub IsReady-new :
    (a : FileArgs) (t : Tables) (docs : List Doc)
    → IsTidy t
    → rows_of a.fid t.files ≡ 0
    → IsReady a.fid (record t { files = t.files ++ new_row a ∷ []; fnames = docs })
unfolding sum_of
IsReady-new a t docs inv h =
    let (fid, avail, completes, rating) = new_row-fields a in
    let unused : sum_of one a.fid t.sources ≡ 0 = ground (arith, inv.owned a.fid) in
    record {
      fits = All-append _ t.files (new_row a) inv.fits (record {
        avail = rw fid (omega (arith, avail, unused));
        completes =
            rw fid (omega (arith, completes, sum_of-none complete_bit a.fid t.sources unused));
        rates = rw fid (omega (arith, rating, sum_of-none rating_of a.fid t.sources unused));
      });
      sourced =
          All-append _ t.files (new_row a) (All-map _ _ t.files (λ f k ne. k) inv.sourced)
            (λ ne. absurd (ne fid));
      owned = λ k p. omega (arith, inv.owned k p, rows_of-append k t.files (new_row a));
      there = ground (arith, fid, rows_of-append a.fid t.files (new_row a));
    }

-- The trigger sources_ai.
added-Fits :
    (sources : List SourceRow) (s : SourceRow) (f : FileRow)
    → f.fid ≡ s.fid
    → Fits [] sources f
    → Fits [] (sources ++ s ∷ []) (source_added s f)
unfolding source_added
added-Fits sources s f e h = record {
  avail = ground (arith, e, h.avail, sum_of-append one f.fid sources s);
  completes = ground (arith, e, h.completes, sum_of-append complete_bit f.fid sources s);
  rates = ground (arith, e, h.rates, sum_of-append rating_of f.fid sources s);
}

other-Fits :
    (sources : List SourceRow) (s : SourceRow) (f : FileRow)
    → f.fid ≢ s.fid
    → Fits [] sources f
    → Fits [] (sources ++ s ∷ []) f
other-Fits sources s f ne h = record {
  avail = ground (arith, ne, h.avail, sum_of-append one f.fid sources s);
  completes = ground (arith, ne, h.completes, sum_of-append complete_bit f.fid sources s);
  rates = ground (arith, ne, h.rates, sum_of-append rating_of f.fid sources s);
}

source_added-fields :
    (s : SourceRow) (f : FileRow)
    → ((source_added s f).fid ≡ f.fid) × (0 < (source_added s f).srcavail)
unfolding source_added
source_added-fields s f = (refl, omega arith)

-- SHARE_SRC makes a ready state tidy.
pub after_source :
    (s : SourceRow) (t : Tables) (docs : List Doc)
    → IsReady s.fid t
    → IsTidy (record {
      sources = t.sources ++ s ∷ [];
      files = update_files s.fid (source_added s) t.files;
      fnames = docs;
    })
after_source s t docs r =
    let kept : rows_of s.fid (update_files s.fid (source_added s) t.files) ≡ rows_of s.fid t.files =
      rows_of-same _ s.fid (source_added s) t.files (λ f. (source_added-fields s f).0)
        (λ f e h. (source_added-fields s f).1) r.fits in
    record {
      fits =
          All-update_files _ _ s.fid (source_added s) t.files
            (λ f e z h. added-Fits t.sources s f e h) (λ f ne h. other-Fits t.sources s f ne h)
            r.fits;
      sourced =
          All-update_files _ _ s.fid (source_added s) t.files
            (λ f e z h. (source_added-fields s f).1) (λ f ne h. h ne) r.sourced;
      owned = λ k p. elim (Bool-cases (k == s.fid)) [
        | inl e ↦ ground (arith, kept, r.there)
        | inr e ↦ ground (
          arith,
          r.owned k,
          sum_of-append one k t.sources s,
          rows_of-other s.fid k (source_added s) t.files (λ f. (source_added-fields s f).0),
        )
      ];
    }
