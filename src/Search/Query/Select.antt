-- ===== src/Search/Query/Select.antt =====
-- src/db_sqlite.c: what the query of db_search_files means on the tables of db_create. What fts4 takes
-- for a match of an expression and a name is a parameter.
use ed2kd.Base.{
  ℕ, ◌-◌, ◌%◌, ◌^◌, Bool, true, false, List, [], ◌∷◌, ◌++◌, Option, none, some, ◌==◌, ◌&&◌,
  if◌then◌else◌, ltb, eqb, take, codes, u32,
}
use ed2kd.Base.Int.{ℤ, pos, negsuc, ltb_ℤ}
use ed2kd.Db.{Value, text, int64, int, Row}
use ed2kd.Db.Tables.{FileRow, Doc, Tables, sids_of}
use ed2kd.Search.Query.{select_text}

-- sqlite3_bind_int64 and sqlite3_bind_int keep the bits of an unsigned number.
abbrev pub to_int64 : ℕ → ℤ
to_int64 v = if ltb v (2 ^ 63) then pos v else negsuc (2 ^ 64 - v - 1)

abbrev pub to_int32 : ℕ → ℤ
to_int32 v = if ltb v (2 ^ 31) then pos v else negsuc (2 ^ 32 - v - 1)

-- sqlite3_column_int, stored in 32 bits.
abbrev pub from_int : ℤ → ℕ
from_int (pos n) = u32 n
from_int (negsuc n) = 2 ^ 32 - 1 - n % 2 ^ 32

-- A comparison behind AND, with its value.
pub data Cond : Type 0 where
  ext_is codec_is : List ℕ → Cond
  size_over size_under srcavail_over srccomplete_over bitrate_over length_over type_is : ℕ → Cond

-- Whether a row meets it; a comparison with NULL is not true.
unfoldable pub meets : FileRow → Cond → Bool
meets f (ext_is v) = elim f.ext [ none ↦ false | some ext ↦ eqb ext v ]
meets f (codec_is v) = eqb f.mcodec v
meets f (size_over v) = ltb_ℤ (to_int64 v) (to_int64 f.size)
meets f (size_under v) = ltb_ℤ (to_int64 f.size) (to_int64 v)
meets f (srcavail_over v) = ltb_ℤ (to_int64 v) (pos f.srcavail)
meets f (srccomplete_over v) = ltb_ℤ (to_int64 v) (pos f.srccomplete)
meets f (bitrate_over v) = ltb_ℤ (to_int64 v) (to_int32 f.mbitrate)
meets f (length_over v) = ltb_ℤ (to_int64 v) (to_int32 f.mlength)
meets f (type_is v) = f.type == v

unfoldable pub meets_all : FileRow → List Cond → Bool
meets_all f [] = true
meets_all f (c ∷ cs) = meets f c && meets_all f cs

-- The text behind a prefix.
unfoldable pub strip_prefix : List ℕ → List ℕ → Option (List ℕ)
strip_prefix [] sql = some sql
strip_prefix (c ∷ prefix) [] = none
strip_prefix (c ∷ prefix) (d ∷ sql) = if c == d then strip_prefix prefix sql else none

abbrev pub of_text : (List ℕ → Cond) → Value → Option Cond
of_text k (text s) = some (k s)
of_text k _ = none

abbrev pub of_int64 : (ℕ → Cond) → Value → Option Cond
of_int64 k (int64 v) = some (k v)
of_int64 k _ = none

abbrev pub of_int : (ℕ → Cond) → Value → Option Cond
of_int k (int v) = some (k v)
of_int k _ = none

-- The comparisons that the program writes.
abbrev pub clauses : List (List ℕ × (Value → Option Cond))
clauses =
    (codes " AND f.ext=?", of_text ext_is)
    ∷ (codes " AND f.mcodec=?", of_text codec_is)
    ∷ (codes " AND f.size>?", of_int64 size_over)
    ∷ (codes " AND f.size<?", of_int64 size_under)
    ∷ (codes " AND f.srcavail>?", of_int64 srcavail_over)
    ∷ (codes " AND f.srccomplete>?", of_int64 srccomplete_over)
    ∷ (codes " AND f.mbitrate>?", of_int64 bitrate_over)
    ∷ (codes " AND f.mlength>?", of_int64 length_over)
    ∷ (codes " AND f.type=?", of_int type_is)
    ∷ []

-- The first of the clauses that the text starts with, its condition, and the text behind it.
unfoldable pub first_clause :
    List (List ℕ × (Value → Option Cond)) → List ℕ → Value → Option (Cond × List ℕ)
first_clause [] sql v = none
first_clause ((clause, cond) ∷ others) sql v = elim (strip_prefix clause sql) [
  | none ↦ first_clause others sql v
  | some rest ↦ elim (cond v) [ none ↦ none | some c ↦ some (c, rest) ]
]

-- LIMIT, at the end of the text and of the values.
unfoldable pub limit_clause : List ℕ → Value → List Value → Option (List Cond × ℕ)
limit_clause sql (int n) [] = if eqb sql (codes " LIMIT ?") then some ([], n) else none
limit_clause sql _ _ = none

-- The text behind MATCH, with the values that are bound: the conditions, and the limit.
unfoldable pub conds : List ℕ → List Value → Option (List Cond × ℕ)
unfolding first_clause limit_clause strip_prefix
conds sql [] = none
conds sql (v ∷ values) = elim (first_clause clauses sql v) [
  | none ↦ limit_clause sql v values
  | some (c, rest) ↦ elim (conds rest values) [ none ↦ none | some (cs, n) ↦ some (c ∷ cs, n) ]
]

abbrev first_or_zero : List ℕ → ℕ
first_or_zero [] = 0
first_or_zero (sid ∷ sids) = sid

abbrev text_or_empty : Option (List ℕ) → List ℕ
text_or_empty none = []
text_or_empty (some s) = s

-- The columns that are selected, of a file.
unfoldable pub row_of : Tables → FileRow → Row
unfolding sids_of
row_of t f = record {
  hash = f.hash;
  name = f.name;
  size = f.size;
  type = f.type;
  ext = text_or_empty f.ext;
  srcavail = u32 f.srcavail;
  srccomplete = u32 f.srccomplete;
  rating = u32 f.rating;
  rated_count = from_int f.rated_count;
  sid = first_or_zero (sids_of f.fid t.sources);
  mlength = f.mlength;
  mbitrate = f.mbitrate;
  mcodec = f.mcodec;
}

-- FROM fnames n JOIN files f ON f.fid = n.docid: the files of an entry of the index.
unfoldable pub joined : Tables → List Cond → ℕ → List FileRow → List Row
unfolding row_of meets meets_all
joined t cs docid [] = []
joined t cs docid (f ∷ files) =
    let others : List Row = joined t cs docid files in
    if f.fid == docid && meets_all f cs then row_of t f ∷ others else others

-- WHERE fnames MATCH, with the test that the expression means.
module _ (test : List ℕ → Bool) where
  unfoldable pub found : Tables → List Cond → List Doc → List Row
  unfolding joined
  found t cs [] = []
  found t cs (d ∷ docs) =
      let others : List Row = found t cs docs in
      if test d.name then joined t cs d.docid t.files ++ others else others

-- `matches` is what fts4 makes of an expression: a test of names, or an error of its syntax.
module _ (matches : List ℕ → Option (List ℕ → Bool)) where
  -- The statement, prepared and stepped to its end.
  unfoldable pub select : List ℕ → List Value → Tables → Option (List Row × Bool)
  unfolding strip_prefix conds found
  select sql [] t = none
  select sql (text term ∷ values) t = elim (strip_prefix select_text sql) [
    | none ↦ none
    | some rest ↦ elim (conds rest values) [
      | none ↦ none
      | some (cs, n) ↦ elim (matches term) [
        | none ↦ none
        | some test ↦ some (take n (found test t cs t.fnames), true)
      ]
    ]
  ]
  select sql (other ∷ values) t = none
