-- ===== src/Db/Tables/Remove.antt =====
-- src/db_sqlite.c: removing a client's sources from the tables of db_create.
use ed2kd.Base.{
  ℕ, ◌+◌, ◌<◌, ◌≡◌, ◌≢◌, refl, Bool, true, false, List, [], ◌∷◌, ◌==◌, if◌then◌else◌, arith, All,
  Bool-cases, inl, inr,
}
use ed2kd.Db.{db_remove_source}
use ed2kd.Db.Tables.{
  Reads, FileRow, SourceRow, Tables, tables, update_files, source_removed, rows_of, delete_sources,
}
use ed2kd.Db.Tables.Update.{
  sum_of, one, Fits, All-map, All-update_files, rows_of-other, rows_of-same,
}
use ed2kd.Db.Tables.Tidy.{IsTidy}

-- The tables in the middle of the DELETE, with the sources that were kept so far.
record IsPartly (kept sources : List SourceRow) (files : List FileRow) : Type 0 where
  fits : All (Fits kept sources) files
  sourced : All (λ (f : FileRow). 0 < f.srcavail) files
  owned : (k : ℕ) → 0 < sum_of one k kept + sum_of one k sources → 0 < rows_of k files

removed-Fits :
    (kept sources : List SourceRow) (s : SourceRow) (f : FileRow)
    → f.fid ≡ s.fid
    → Fits kept (s ∷ sources) f
    → Fits kept sources (source_removed s f)
unfolding source_removed sum_of
removed-Fits kept sources s f e h = record {
  avail = ground (arith, e, h.avail);
  completes = ground (arith, e, h.completes);
  rates = ground (arith, e, h.rates);
}

untouched-Fits :
    (kept sources : List SourceRow) (s : SourceRow) (f : FileRow)
    → f.fid ≢ s.fid
    → Fits kept (s ∷ sources) f
    → Fits kept sources f
unfolding sum_of
untouched-Fits kept sources s f ne h = record {
  avail = ground (arith, ne, h.avail);
  completes = ground (arith, ne, h.completes);
  rates = ground (arith, ne, h.rates);
}

moved-Fits :
    (kept sources : List SourceRow) (s : SourceRow) (f : FileRow)
    → Fits kept (s ∷ sources) f
    → Fits (s ∷ kept) sources f
unfolding sum_of
moved-Fits kept sources s f h = record {
  avail = omega (arith, h.avail);
  completes = omega (arith, h.completes);
  rates = omega (arith, h.rates);
}

moved_back :
    (kept sources : List SourceRow) (s : SourceRow) (f : FileRow)
    → Fits (s ∷ kept) sources f
    → Fits kept (s ∷ sources) f
unfolding sum_of
moved_back kept sources s f h = record {
  avail = omega (arith, h.avail);
  completes = omega (arith, h.completes);
  rates = omega (arith, h.rates);
}

source_removed-fid : (s : SourceRow) (f : FileRow) → (source_removed s f).fid ≡ f.fid
unfolding source_removed
source_removed-fid s f = refl

-- The trigger sources_bd, with files_au.
after_removal :
    (kept sources : List SourceRow) (s : SourceRow) (files : List FileRow)
    → IsPartly kept (s ∷ sources) files
    → IsPartly kept sources (update_files s.fid (source_removed s) files)
unfolding sum_of
after_removal kept sources s files inv = record {
  fits =
      All-update_files _ _ s.fid (source_removed s) files
        (λ f e z h. removed-Fits kept sources s f e h)
        (λ f ne h. untouched-Fits kept sources s f ne h) inv.fits;
  sourced =
      All-update_files _ _ s.fid (source_removed s) files (λ f e z h. ground arith) (λ f ne h. h)
        inv.sourced;
  owned = λ k p. elim (Bool-cases (k == s.fid)) [
    | inl e ↦
        let left : 0 < sum_of one s.fid kept + sum_of one s.fid sources = ground arith in
        let same =
          rows_of-same (Fits kept (s ∷ sources)) s.fid (source_removed s) files
            (source_removed-fid s)
            (λ f e h.
              ground
                (arith, left, e, source_removed-fid s f, (removed-Fits kept sources s f e h).avail))
            inv.fits in
        ground (arith, same, inv.owned k)
    | inr e ↦
        ground (
          arith,
          inv.owned k,
          rows_of-other s.fid k (source_removed s) files (source_removed-fid s),
        )
  ];
}

kept_on :
    (kept sources : List SourceRow) (s : SourceRow) (files : List FileRow)
    → IsPartly kept (s ∷ sources) files
    → IsPartly (s ∷ kept) sources files
unfolding sum_of
kept_on kept sources s files inv = record {
  fits = All-map _ _ files (moved-Fits kept sources s) inv.fits;
  sourced = inv.sourced;
  owned = λ k p. inv.owned k (omega arith);
}

kept_off :
    (kept sources : List SourceRow) (s : SourceRow) (files : List FileRow)
    → IsPartly (s ∷ kept) sources files
    → IsPartly kept (s ∷ sources) files
unfolding sum_of
kept_off kept sources s files inv = record {
  fits = All-map _ _ files (moved_back kept sources s) inv.fits;
  sourced = inv.sourced;
  owned = λ k p. inv.owned k (omega arith);
}

-- No source of a client is left.
pub IsRid : ℕ → List SourceRow → Type 0
IsRid sid sources = All (λ (s : SourceRow). s.sid ≢ sid) sources

IsPartly-next :
    (sid : ℕ) (kept : List SourceRow) (s : SourceRow) (b : Bool)
    (r r' : List SourceRow × List FileRow)
    → (s.sid == sid) ≡ b
    → IsPartly kept r.0 r.1 × IsRid sid r.0
    → IsPartly (s ∷ kept) r'.0 r'.1 × IsRid sid r'.0
    → let w : List SourceRow × List FileRow = if b then r else (s ∷ r'.0, r'.1) in
      IsPartly kept w.0 w.1 × IsRid sid w.0
unfolding IsRid
IsPartly-next sid kept s true r r' e h k = h
IsPartly-next sid kept s false r r' e h (k, rid) =
    (kept_off kept r'.0 s r'.1 k, (ground arith, rid))

delete_sources-IsPartly :
    (sid : ℕ) (kept sources : List SourceRow) (files : List FileRow)
    → IsPartly kept sources files
    → IsPartly kept (delete_sources sid sources files).0 (delete_sources sid sources files).1
      × IsRid sid (delete_sources sid sources files).0
unfolding delete_sources IsRid
delete_sources-IsPartly sid kept [] files inv = (inv, tt)
delete_sources-IsPartly sid kept (s ∷ sources) files inv =
    IsPartly-next sid kept s (s.sid == sid) _ _ refl
      (delete_sources-IsPartly sid kept sources _ (after_removal kept sources s files inv))
      (delete_sources-IsPartly sid (s ∷ kept) sources files (kept_on kept sources s files inv))

-- Removing a client's sources, where SQLite executes the statement, leaves none of them and keeps
-- the tables tidy: files that only this client had are gone.
pub db_remove_source-IsTidy :
    (find : Reads) (sid : ℕ) (t : Tables)
    → IsTidy t
    → let (done, t') = db_remove_source (tables find) sid t in
      (done ≡ true) × IsTidy t' × IsRid sid t'.sources
unfolding db_remove_source tables sum_of
db_remove_source-IsTidy find sid t inv =
    let (partly, rid) = delete_sources-IsPartly sid [] t.sources t.files (record {
      fits = inv.fits;
      sourced = inv.sourced;
      owned = λ k p. inv.owned k (omega arith);
    }) in
    (
      refl,
      record {
        fits = partly.fits;
        sourced = partly.sourced;
        owned = λ k p. partly.owned k (omega arith);
      },
      rid,
    )
