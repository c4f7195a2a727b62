-- ===== src/Db/Tables/Update.antt =====
-- src/db_sqlite.c: the triggers, and the counters of a file.
use ed2kd.Base.{
  ℕ, ◌+◌, ◌<◌, ◌≡◌, ◌≢◌, refl, Bool, true, false, List, [], ◌∷◌, ◌++◌, ◌==◌, if◌then◌else◌, to_bit,
  arith, All,
}
use ed2kd.Db.Tables.{FileRow, SourceRow, update_files, rows_of}

-- The sum of a weight over the sources of a file.
unfoldable pub sum_of : (SourceRow → ℕ) → ℕ → List SourceRow → ℕ
sum_of weight fid [] = 0
sum_of weight fid (s ∷ sources) = (if s.fid == fid then weight s else 0) + sum_of weight fid sources

abbrev pub one : SourceRow → ℕ
one s = 1

abbrev pub complete_bit : SourceRow → ℕ
complete_bit s = to_bit s.complete

abbrev pub rating_of : SourceRow → ℕ
rating_of s = s.rating

pub sum_of-append :
    (weight : SourceRow → ℕ) (fid : ℕ) (xs : List SourceRow) (s : SourceRow)
    → sum_of weight fid (xs ++ s ∷ [])
      ≡ sum_of weight fid xs + (if s.fid == fid then weight s else 0)
unfolding sum_of
sum_of-append weight fid [] s = omega arith
sum_of-append weight fid (x ∷ xs) s = omega (arith, sum_of-append weight fid xs s)

pub sum_of-none :
    (weight : SourceRow → ℕ) (fid : ℕ) (xs : List SourceRow)
    → sum_of one fid xs ≡ 0
    → sum_of weight fid xs ≡ 0
unfolding sum_of
sum_of-none weight fid [] h = refl
sum_of-none weight fid (x ∷ xs) h = ground (arith, sum_of-none weight fid xs)

-- The counters of a file are those of its sources, of which some stand in one list and some in another.
pub record Fits (xs ys : List SourceRow) (f : FileRow) : Type 0 where
  pub avail : f.srcavail ≡ sum_of one f.fid xs + sum_of one f.fid ys
  pub completes : f.srccomplete ≡ sum_of complete_bit f.fid xs + sum_of complete_bit f.fid ys
  pub rates : f.rating ≡ sum_of rating_of f.fid xs + sum_of rating_of f.fid ys

module _ (P Q : FileRow → Type 0) where
  pub All-map : (files : List FileRow) → ((f : FileRow) → P f → Q f) → All P files → All Q files
  All-map [] h hs = tt
  All-map (f ∷ files) h (k, hs) = (h f k, All-map files h hs)

  All-if :
      (b : Bool) (f : FileRow) (rest : List FileRow)
      → (b ≡ false → Q f)
      → All Q rest
      → All Q (if b then rest else f ∷ rest)
  All-if true f rest h hs = hs
  All-if false f rest h hs = (h refl, hs)

  All-next :
      (fid : ℕ) (set : FileRow → FileRow) (f : FileRow) (rest : List FileRow) (b : Bool)
      → (f.fid == fid) ≡ b
      → (f.fid ≡ fid → ((set f).srcavail == 0) ≡ false → Q (set f))
      → (f.fid ≢ fid → Q f)
      → All Q rest
      → All Q (if b then (if (set f).srcavail == 0 then rest else set f ∷ rest) else f ∷ rest)
  All-next fid set f rest true e h k hs =
      All-if ((set f).srcavail == 0) (set f) rest (h (ground arith)) hs
  All-next fid set f rest false e h k hs = (k (ground arith), hs)

  -- What holds of the rows after an UPDATE.
  pub All-update_files :
      (fid : ℕ) (set : FileRow → FileRow) (files : List FileRow)
      → ((f : FileRow) → f.fid ≡ fid → ((set f).srcavail == 0) ≡ false → P f → Q (set f))
      → ((f : FileRow) → f.fid ≢ fid → P f → Q f)
      → All P files
      → All Q (update_files fid set files)
  unfolding update_files
  All-update_files fid set [] h k hs = tt
  All-update_files fid set (f ∷ files) h k (p, hs) =
      All-next fid set f (update_files fid set files) (f.fid == fid) refl (λ e z. h f e z p)
        (λ ne. k f ne p) (All-update_files fid set files h k hs)

-- Rows of another key are left, and those of this key if they keep a source.
pub rows_of-other :
    (fid other : ℕ) (set : FileRow → FileRow) (files : List FileRow)
    → ((f : FileRow) → (set f).fid ≡ f.fid)
    → other ≢ fid
    → rows_of other (update_files fid set files) ≡ rows_of other files
unfolding rows_of update_files
rows_of-other fid other set [] h ne = refl
rows_of-other fid other set (f ∷ files) h ne =
    ground (arith, h f, rows_of-other fid other set files h ne)

pub rows_of-same :
    (P : FileRow → Type 0) (fid : ℕ) (set : FileRow → FileRow) (files : List FileRow)
    → ((f : FileRow) → (set f).fid ≡ f.fid)
    → ((f : FileRow) → f.fid ≡ fid → P f → 0 < (set f).srcavail)
    → All P files
    → rows_of fid (update_files fid set files) ≡ rows_of fid files
unfolding rows_of update_files
rows_of-same P fid set [] h k hs = refl
rows_of-same P fid set (f ∷ files) h k (p, hs) =
    ground (arith, h f, λ (e : f.fid ≡ fid). k f e p, rows_of-same P fid set files h k hs)
