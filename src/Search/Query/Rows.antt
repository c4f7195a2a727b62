-- ===== src/Search/Query/Rows.antt =====
-- src/db_sqlite.c: the rows that the join of the index and the files gives.
use ed2kd.Base.{
  ℕ, ◌≡◌, refl, sym, ◌∙◌, ap, Bool, true, false, List, [], ◌∷◌, ◌++◌, ◌==◌, ◌&&◌, ◌⊎◌,
  if◌then◌else◌, arith, inl, inr,
}
use mathlib.Core.Path.{subst}
use mathlib.Core.List.{Memᴰ}
use mathlib.Core.List.Memᴰ
use ed2kd.Db.{Row}
use ed2kd.Db.Tables.{FileRow, Doc, Tables}
use ed2kd.Db.Tables.Index.{names_of}
use ed2kd.Search.Query.Select.{Cond, meets_all, row_of, joined, found}

and_parts : (a b : Bool) → a && b ≡ true → (a ≡ true) × (b ≡ true)
and_parts a b h = ground arith

-- A list to which a test adds some members.
module _ {A : Type 0} where
  if_from :
      {z : A} (b : Bool) (xs rest : List A)
      → Memᴰ z (if b then xs ++ rest else rest)
      → ((b ≡ true) × Memᴰ z xs) ⊎ Memᴰ z rest
  if_from true xs rest m = elim (Memᴰ.append_cases xs m) [
    | inl here ↦ inl (refl, here)
    | inr later ↦ inr later
  ]
  if_from false xs rest m = inr m

  if_there :
      {z : A} (b : Bool) (xs rest : List A)
      → b ≡ true
      → Memᴰ z xs
      → Memᴰ z (if b then xs ++ rest else rest)
  if_there true xs rest e m = Memᴰ.append_left rest m
  if_there false xs rest e m = cc

  if_behind :
      {z : A} (b : Bool) (xs rest : List A) → Memᴰ z rest → Memᴰ z (if b then xs ++ rest else rest)
  if_behind true xs rest m = Memᴰ.append_right xs m
  if_behind false xs rest m = m

-- The entries of the index under a number.
pub entry_of :
    (k : ℕ) (name : List ℕ) (docs : List Doc)
    → Memᴰ name (names_of k docs)
    → (d : Doc) × Memᴰ d docs × (d.docid ≡ k) × (d.name ≡ name)
unfolding names_of
entry_of k name [] m = elim m [ ]
entry_of k name (d ∷ docs) m = elim (if_from (d.docid == k) (d.name ∷ []) (names_of k docs) m) [
  | inl (e, here) ↦ (d, Memᴰ.head refl, ground arith, sym (Memᴰ.eq_of_singleton here))
  | inr later ↦
      let (d', there, same, named) = entry_of k name docs later in
      (d', Memᴰ.tail there, same, named)
]

pub named_by : (d : Doc) (docs : List Doc) → Memᴰ d docs → Memᴰ d.name (names_of d.docid docs)
unfolding names_of
named_by d [] m = elim m [ ]
named_by d (x ∷ docs) (Memᴰ.head e) =
    if_there (x.docid == d.docid) (x.name ∷ []) _ (ground (arith, ap (λ (y : Doc). y.docid) e))
      (Memᴰ.head (ap (λ (y : Doc). y.name) e))
named_by d (x ∷ docs) (Memᴰ.tail m) =
    if_behind (x.docid == d.docid) (x.name ∷ []) _ (named_by d docs m)

module _ (t : Tables) (cs : List Cond) (docid : ℕ) where
  pub joined_has :
      (files : List FileRow) {f : FileRow}
      → Memᴰ f files
      → f.fid ≡ docid
      → meets_all f cs ≡ true
      → Memᴰ (row_of t f) (joined t cs docid files)
  unfolding joined
  joined_has [] m same met = elim m [ ]
  joined_has (g ∷ files) {f} (Memᴰ.head e) same met =
      if_there (g.fid == docid && meets_all g cs) (row_of t g ∷ []) (joined t cs docid files)
        (subst (λ h. (h.fid == docid && meets_all h cs) ≡ true) e (ground (arith, same, met)))
        (Memᴰ.head (ap (row_of t) e))
  joined_has (g ∷ files) (Memᴰ.tail m) same met =
      if_behind (g.fid == docid && meets_all g cs) (row_of t g ∷ []) (joined t cs docid files)
        (joined_has files m same met)

  pub joined_from :
      (files : List FileRow) {r : Row}
      → Memᴰ r (joined t cs docid files)
      → (f : FileRow) × Memᴰ f files × (f.fid ≡ docid) × (meets_all f cs ≡ true) × (r ≡ row_of t f)
  unfolding joined
  joined_from [] m = elim m [ ]
  joined_from (g ∷ files) m =
      elim (if_from (g.fid == docid && meets_all g cs) (row_of t g ∷ []) (joined t cs docid files)
        m) [
          | inl (e, here) ↦
              let (same, met) = and_parts (g.fid == docid) (meets_all g cs) e in
              (g, Memᴰ.head refl, ground arith, met, Memᴰ.eq_of_singleton here)
          | inr later ↦
              let (f, there, same, met, row) = joined_from files later in
              (f, Memᴰ.tail there, same, met, row)
        ]

module _ (test : List ℕ → Bool) (t : Tables) (cs : List Cond) where
  pub found_has :
      (docs : List Doc) {d : Doc} {r : Row}
      → Memᴰ d docs
      → test d.name ≡ true
      → Memᴰ r (joined t cs d.docid t.files)
      → Memᴰ r (found test t cs docs)
  unfolding found
  found_has [] m h there = elim m [ ]
  found_has (x ∷ docs) {d} {r} (Memᴰ.head e) h there =
      if_there (test x.name) _ _ (ap (λ y. test y.name) (sym e) ∙ h)
        (subst (λ y. Memᴰ r (joined t cs y.docid t.files)) e there)
  found_has (x ∷ docs) (Memᴰ.tail m) h there =
      if_behind (test x.name) _ _ (found_has docs m h there)

  pub found_from :
      (docs : List Doc) {r : Row}
      → Memᴰ r (found test t cs docs)
      → (d : Doc) × Memᴰ d docs × (test d.name ≡ true) × Memᴰ r (joined t cs d.docid t.files)
  unfolding found
  found_from [] m = elim m [ ]
  found_from (x ∷ docs) m = elim (if_from (test x.name) (joined t cs x.docid t.files) _ m) [
    | inl (h, there) ↦ (x, Memᴰ.head refl, h, there)
    | inr later ↦
        let (d, placed, h, there) = found_from docs later in (d, Memᴰ.tail placed, h, there)
  ]
