-- ===== src/Search/Query/Meets.antt =====
-- src/db_sqlite.c: the conditions of a query are what the search wants.
use ed2kd.Base.{
  ℕ, ◌≡◌, refl, Bool, true, false, List, ◌++◌, Option, none, some, ◌==◌, ◌&&◌, ◌||◌, inl, inr,
  Bool-cases, eqb,
}
use ed2kd.Db.Tables.{FileRow}
use ed2kd.Search.Query.{Params}
use ed2kd.Search.Query.Select.{
  Cond, ext_is, codec_is, size_over, size_under, srcavail_over, srccomplete_over, bitrate_over,
  length_over, meets, meets_all,
}
use ed2kd.Search.Query.Found.{
  wanted, same_text, same_type, type_number, text_cond, int_cond, type_cond, conds_of,
}

-- One condition is what is wanted of a column.
module _ (f : FileRow) (cs : List Cond) (b : Bool) (rest : meets_all f cs ≡ b) where
  text_meets :
      (o s : Option (List ℕ)) (k : List ℕ → Cond)
      → ((v : List ℕ) → meets f (k v) ≡ same_text (some v) s)
      → meets_all f (text_cond o k ++ cs) ≡ same_text o s && b
  unfolding meets_all
  text_meets none s k h = rest
  text_meets (some v) s k h = rw (meets_all, h v) (rw rest refl)

  int_meets :
      (x : ℕ) (k : ℕ → Cond) (test : Bool)
      → meets f (k x) ≡ test
      → meets_all f (int_cond x k ++ cs) ≡ (x == 0 || test) && b
  unfolding meets_all
  int_meets x k test h = elim (Bool-cases (x == 0)) [
    | inl e ↦ rw e rest
    | inr e ↦ rw e (rw (meets_all, h) (rw rest refl))
  ]

ext_same :
    (e : Option (List ℕ)) (v : List ℕ)
    → (elim e [ none ↦ false | some ext ↦ eqb ext v ]) ≡ same_text (some v) e
ext_same none v = refl
ext_same (some ext) v = refl

and_true : (b : Bool) → b && true ≡ b
and_true true = refl
and_true false = refl

type_meets : (f : FileRow) (o : Option (List ℕ)) → meets_all f (type_cond o) ≡ same_type o f.type
unfolding meets_all meets
type_meets f none = refl
type_meets f (some v) = and_true (f.type == type_number v)

pub meets_all-wanted : (f : FileRow) (c : Params) → meets_all f (conds_of c) ≡ wanted c f
unfolding conds_of wanted meets
meets_all-wanted f c =
    text_meets f _ _
      (text_meets f _ _
        (int_meets f _ _
          (int_meets f _ _
            (int_meets f _ _
              (int_meets f _ _
                (int_meets f _ _
                  (int_meets f _ _ (type_meets f c.type_node) c.minlength length_over _ refl)
                  c.minbitrate bitrate_over _ refl)
                c.srccomplete srccomplete_over _ refl)
              c.srcavail srcavail_over _ refl)
            c.maxsize size_under _ refl)
          c.minsize size_over _ refl)
        c.codec_node (some f.mcodec) codec_is (λ v. refl))
      c.ext_node f.ext ext_is (ext_same f.ext)
