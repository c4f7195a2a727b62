-- ===== src/Search/Query/Found.antt =====
-- src/db_sqlite.c: what a search finds in the tables of db_create.
use ed2kd.Base.{
  ℕ, ◌≡◌, refl, Bool, true, false, List, [], ◌∷◌, ◌++◌, Option, none, some, ◌==◌, ◌&&◌, ◌||◌,
  if◌then◌else◌, inl, inr, length, take, get_or, codes, Bool-cases, eqb,
}
use ed2kd.Base.Int.{ℤ, pos, ltb_ℤ}
use ed2kd.Util.FileType.{get_ed2k_file_type}
use ed2kd.Db.{Value, text, int64, int}
use ed2kd.Db.Tables.{FileRow, Tables}
use ed2kd.Search.Query.{
  Params, text_part, int_part, text_value, int_value, type_value, query_text, query_values,
  name_bytes,
}
use ed2kd.Search.Query.Select.{
  Cond, ext_is, codec_is, size_over, size_under, srcavail_over, srccomplete_over, bitrate_over,
  length_over, type_is, to_int64, to_int32, strip_prefix, clauses, first_clause, conds, found,
  select,
}

-- The file type that a search names, as a number.
abbrev pub type_number : List ℕ → ℕ
type_number v = get_ed2k_file_type (λ i. get_or v i 0) 0 (length v)

-- What a search asks of the columns of a file: a constraint that is NULL or 0 is none.
abbrev pub over : ℕ → ℤ → Bool
over v x = v == 0 || ltb_ℤ (to_int64 v) x

abbrev pub under : ℕ → ℤ → Bool
under v x = v == 0 || ltb_ℤ x (to_int64 v)

abbrev pub same_text : Option (List ℕ) → Option (List ℕ) → Bool
same_text none s = true
same_text (some v) none = false
same_text (some v) (some s) = eqb s v

abbrev pub same_type : Option (List ℕ) → ℕ → Bool
same_type none n = true
same_type (some v) n = n == type_number v

unfoldable pub wanted : Params → FileRow → Bool
wanted c f =
    same_text c.ext_node f.ext
    && (same_text c.codec_node (some f.mcodec)
        && (over c.minsize (to_int64 f.size)
            && (under c.maxsize (to_int64 f.size)
                && (over c.srcavail (pos f.srcavail)
                    && (over c.srccomplete (pos f.srccomplete)
                        && (over c.minbitrate (to_int32 f.mbitrate)
                            && (over c.minlength (to_int32 f.mlength)
                                && same_type c.type_node f.type)))))))

-- The conditions that the text of a query has.
abbrev pub text_cond : Option (List ℕ) → (List ℕ → Cond) → List Cond
text_cond none k = []
text_cond (some v) k = k v ∷ []

abbrev pub int_cond : ℕ → (ℕ → Cond) → List Cond
int_cond v k = if v == 0 then [] else k v ∷ []

abbrev pub type_cond : Option (List ℕ) → List Cond
type_cond none = []
type_cond (some v) = type_is (type_number v) ∷ []

unfoldable pub conds_of : Params → List Cond
conds_of c =
    text_cond c.ext_node ext_is
    ++ (text_cond c.codec_node codec_is
        ++ (int_cond c.minsize size_over
            ++ (int_cond c.maxsize size_under
                ++ (int_cond c.srcavail srcavail_over
                    ++ (int_cond c.srccomplete srccomplete_over
                        ++ (int_cond c.minbitrate bitrate_over
                            ++ (int_cond c.minlength length_over ++ type_cond c.type_node)))))))

-- One clause of the text is read as its condition.
module _ (sql : List ℕ) (values : List Value) (cs : List Cond) (n : ℕ)
    (rest : conds sql values ≡ some (cs, n)) where
  clause_step :
      (clause : List ℕ) (v : Value) (c : Cond)
      → first_clause clauses (clause ++ sql) v ≡ some (c, sql)
      → conds (clause ++ sql) (v ∷ values) ≡ some (c ∷ cs, n)
  unfolding conds
  clause_step clause v c h = rw (conds, h) (rw rest refl)

  text_step :
      (o : Option (List ℕ)) (clause : List ℕ) (k : List ℕ → Cond)
      → ((v : List ℕ) → first_clause clauses (clause ++ sql) (text v) ≡ some (k v, sql))
      → conds (text_part o clause ++ sql) (text_value o ++ values) ≡ some (text_cond o k ++ cs, n)
  text_step none clause k h = rest
  text_step (some v) clause k h = clause_step clause (text v) (k v) (h v)

  int_step :
      (x : ℕ) (clause : List ℕ) (k : ℕ → Cond)
      → (first_clause clauses (clause ++ sql) (int64 x) ≡ some (k x, sql))
      → conds (int_part x clause ++ sql) (int_value x ++ values) ≡ some (int_cond x k ++ cs, n)
  int_step x clause k h = elim (Bool-cases (x == 0)) [
    | inl e ↦ rw e rest
    | inr e ↦ rw e (clause_step clause (int64 x) (k x) h)
  ]

limit_step : (n : ℕ) → conds (codes " LIMIT ?") (int n ∷ []) ≡ some ([], n)
unfolding conds
limit_step n = refl

type_step :
    (o : Option (List ℕ)) (n : ℕ)
    → conds (text_part o (codes " AND f.type=?") ++ codes " LIMIT ?") (type_value o ++ int n ∷ [])
      ≡ some (type_cond o, n)
unfolding first_clause strip_prefix
type_step none n = limit_step n
type_step (some v) n =
    clause_step (codes " LIMIT ?") (int n ∷ []) [] n (limit_step n) (codes " AND f.type=?")
      (int (type_number v)) (type_is (type_number v)) refl

abbrev tail_text : Params → List ℕ
tail_text c =
    text_part c.ext_node (codes " AND f.ext=?")
    ++ (text_part c.codec_node (codes " AND f.mcodec=?")
        ++ (int_part c.minsize (codes " AND f.size>?")
            ++ (int_part c.maxsize (codes " AND f.size<?")
                ++ (int_part c.srcavail (codes " AND f.srcavail>?")
                    ++ (int_part c.srccomplete (codes " AND f.srccomplete>?")
                        ++ (int_part c.minbitrate (codes " AND f.mbitrate>?")
                            ++ (int_part c.minlength (codes " AND f.mlength>?")
                                ++ (text_part c.type_node (codes " AND f.type=?")
                                    ++ codes " LIMIT ?"))))))))

abbrev tail_values : Params → ℕ → List Value
tail_values c n =
    text_value c.ext_node
    ++ (text_value c.codec_node
        ++ (int_value c.minsize
            ++ (int_value c.maxsize
                ++ (int_value c.srcavail
                    ++ (int_value c.srccomplete
                        ++ (int_value c.minbitrate
                            ++ (int_value c.minlength
                                ++ (type_value c.type_node ++ int n ∷ []))))))))

-- The text and the values are read back as the conditions.
conds-query : (c : Params) (n : ℕ) → conds (tail_text c) (tail_values c n) ≡ some (conds_of c, n)
unfolding conds_of first_clause strip_prefix
conds-query c n =
    text_step _ _ _ n
      (text_step _ _ _ n
        (int_step _ _ _ n
          (int_step _ _ _ n
            (int_step _ _ _ n
              (int_step _ _ _ n
                (int_step _ _ _ n
                  (int_step _ _ _ n (type_step c.type_node n) c.minlength _ length_over refl)
                  c.minbitrate _ bitrate_over refl)
                c.srccomplete _ srccomplete_over refl)
              c.srcavail _ srcavail_over refl)
            c.maxsize _ size_under refl)
          c.minsize _ size_over refl)
        c.codec_node _ codec_is (λ v. refl))
      c.ext_node _ ext_is (λ v. refl)

-- The statement that is built for a search gives the files that meet its conditions.
pub select-query :
    (matches : List ℕ → Option (List ℕ → Bool)) (test : List ℕ → Bool) (c : Params) (n : ℕ)
    (t : Tables)
    → matches (name_bytes c) ≡ some test
    → select matches (query_text c) (query_values c n) t
      ≡ some (take n (found test t (conds_of c) t.fnames), true)
unfolding select query_text query_values strip_prefix
select-query matches test c n t parsed = rw (select, conds-query c n, parsed) refl

-- A malformed expression fails.
pub select_malformed :
    (matches : List ℕ → Option (List ℕ → Bool)) (c : Params) (n : ℕ) (t : Tables)
    → matches (name_bytes c) ≡ none
    → select matches (query_text c) (query_values c n) t ≡ none
unfolding select query_text query_values strip_prefix
select_malformed matches c n t bad = rw (select, conds-query c n, bad) refl
