-- ===== src/Search/Query/Text.antt =====
-- src/db_sqlite.c: the query that db_search_files puts together.
use ed2kd.Base.{
  ℕ, suc, ◌+◌, ◌≤◌, ◌≡◌, refl, Bool, true, false, List, [], ◌∷◌, ◌++◌, Option, none, some, arith,
  length, length-append, codes, ◌==◌, to_bit, if◌then◌else◌,
}
use ed2kd.Db.{Value, int}
use ed2kd.Search.Query.{
  Params, query_text, query_values, text_part, int_part, text_value, int_value, type_value,
  select_text,
}

-- How many placeholders a text has: its question marks.
pub marks : List ℕ → ℕ
marks [] = 0
marks (c ∷ cs) = to_bit (c == 63) + marks cs

marks-append : (xs ys : List ℕ) → marks (xs ++ ys) ≡ marks xs + marks ys
unfolding marks
marks-append [] ys = omega arith
marks-append (x ∷ xs) ys = omega (arith, marks-append xs ys)

-- A part of the query that has one placeholder, before the rest of the query.
marks-text_part :
    (o : Option (List ℕ)) (s rest : List ℕ) (vs : List Value)
    → marks s ≡ 1
    → marks rest ≡ length vs
    → marks (text_part o s ++ rest) ≡ length (text_value o ++ vs)
marks-text_part none s rest vs one h = h
marks-text_part (some v) s rest vs one h = omega (arith, marks-append s rest)

marks-type_part :
    (o : Option (List ℕ)) (s rest : List ℕ) (vs : List Value)
    → marks s ≡ 1
    → marks rest ≡ length vs
    → marks (text_part o s ++ rest) ≡ length (type_value o ++ vs)
marks-type_part none s rest vs one h = h
marks-type_part (some v) s rest vs one h = omega (arith, marks-append s rest)

int_part_at :
    (b : Bool) (v : Value) (s rest : List ℕ) (vs : List Value)
    → marks s ≡ 1
    → marks rest ≡ length vs
    → marks ((if b then [] else s) ++ rest) ≡ length ((if b then [] else v ∷ []) ++ vs)
int_part_at true v s rest vs one h = h
int_part_at false v s rest vs one h = omega (arith, marks-append s rest)

marks-int_part :
    (v : ℕ) (s rest : List ℕ) (vs : List Value)
    → marks s ≡ 1
    → marks rest ≡ length vs
    → marks (int_part v s ++ rest) ≡ length (int_value v ++ vs)
marks-int_part v s rest vs one h = int_part_at (v == 0) _ s rest vs one h

one_more : (s rest : List ℕ) (n : ℕ) → marks s ≡ 1 → marks rest ≡ n → marks (s ++ rest) ≡ suc n
one_more s rest n one h = omega (arith, marks-append s rest)

-- Whatever is searched for, the query has one placeholder for each value that is bound.
pub query_text-query_values :
    (c : Params) (count : ℕ) → marks (query_text c) ≡ length (query_values c count)
unfolding query_text query_values marks
query_text-query_values c count =
    let type_part =
      marks-type_part c.type_node (codes " AND f.type=?") (codes " LIMIT ?") (int count ∷ []) refl
        refl in
    let minlength_part = marks-int_part c.minlength (codes " AND f.mlength>?") _ _ refl type_part in
    let minbitrate_part =
      marks-int_part c.minbitrate (codes " AND f.mbitrate>?") _ _ refl minlength_part in
    let srccomplete_part =
      marks-int_part c.srccomplete (codes " AND f.srccomplete>?") _ _ refl minbitrate_part in
    let srcavail_part =
      marks-int_part c.srcavail (codes " AND f.srcavail>?") _ _ refl srccomplete_part in
    let maxsize_part = marks-int_part c.maxsize (codes " AND f.size<?") _ _ refl srcavail_part in
    let minsize_part = marks-int_part c.minsize (codes " AND f.size>?") _ _ refl maxsize_part in
    let codec_part = marks-text_part c.codec_node (codes " AND f.mcodec=?") _ _ refl minsize_part in
    let ext_part = marks-text_part c.ext_node (codes " AND f.ext=?") _ _ refl codec_part in
    one_more select_text _ _ refl ext_part

text_part_le :
    (o : Option (List ℕ)) (s rest : List ℕ) (n : ℕ)
    → length rest ≤ n
    → length (text_part o s ++ rest) ≤ length s + n
text_part_le none s rest n h = omega arith
text_part_le (some v) s rest n h = omega (arith, length-append s rest)

int_part_le :
    (b : Bool) (s rest : List ℕ) (n : ℕ)
    → length rest ≤ n
    → length ((if b then [] else s) ++ rest) ≤ length s + n
int_part_le true s rest n h = omega arith
int_part_le false s rest n h = omega (arith, length-append s rest)

parts_fit :
    (c : Params)
    → length (
        text_part c.ext_node (codes " AND f.ext=?")
        ++ (text_part c.codec_node (codes " AND f.mcodec=?")
            ++ (int_part c.minsize (codes " AND f.size>?")
                ++ (int_part c.maxsize (codes " AND f.size<?")
                    ++ (int_part c.srcavail (codes " AND f.srcavail>?")
                        ++ (int_part c.srccomplete (codes " AND f.srccomplete>?")
                            ++ (int_part c.minbitrate (codes " AND f.mbitrate>?")
                                ++ (int_part c.minlength (codes " AND f.mlength>?")
                                    ++ (text_part c.type_node (codes " AND f.type=?")
                                        ++ (codes " LIMIT ?"))))))))))
      ≤ 144
parts_fit c = text_part_le c.ext_node (codes " AND f.ext=?") _ 132 (
    text_part_le c.codec_node (codes " AND f.mcodec=?") _ 117 (
      int_part_le (c.minsize == 0) (codes " AND f.size>?") _ 104 (
        int_part_le (c.maxsize == 0) (codes " AND f.size<?") _ 91 (
          int_part_le (c.srcavail == 0) (codes " AND f.srcavail>?") _ 74 (
            int_part_le (c.srccomplete == 0) (codes " AND f.srccomplete>?") _ 54 (
              int_part_le (c.minbitrate == 0) (codes " AND f.mbitrate>?") _ 37 (
                int_part_le (c.minlength == 0) (codes " AND f.mlength>?") _ 21
                  (text_part_le c.type_node (codes " AND f.type=?") _ 8 (omega arith)))))))))

-- The query and its null byte fit in the 1025 bytes of `query`, whatever is searched for.
pub query_text_fits : (c : Params) → length (query_text c) + 1 ≤ 1025
unfolding query_text
query_text_fits c = omega (arith, length-append select_text _, parts_fit c)
