-- ===== src/Search/Query.antt =====
-- src/db_sqlite.c: db_search_files, and src/client.c: client_search_files. The walk over the
-- tree is in the child Passes.
mod Passes
pub mod Walk
pub use Passes.{
  max_name_term_len, Params, no_params, oper_text, Visit, left_visited, right_visited, Spot, at,
  back, after,
}
unfoldable pub use Passes.{
  until_nul, append_term, open_term, oper_term, close_term, leaf_term, walk, passes,
}
pub mod Text
pub mod Select
pub mod Found
pub mod Meets
pub mod Rows
pub mod Results
pub mod Finds
pub mod Offered
use ed2kd.Base.{
  ℕ, zero, suc, ◌+◌, ◌*◌, Bool, true, false, List, [], ◌∷◌, ◌++◌, Option, none, some, if◌then◌else◌,
  ltb, leb, ◌==◌, ◌||◌, length, take, map, get_or, codes,
}
use ed2kd.Proto.{max_filename_len, max_fileext_len, max_search_files}
use ed2kd.Util.FileType.{get_ed2k_file_type}
use ed2kd.State.{World, M, ok, fault, pure, get, ◌>>=◌, write}
use ed2kd.Wire.{clip}
use ed2kd.Db.{Sqlite, Row, Value, text, int64, int, get_sid_id, get_sid_port}
use ed2kd.Packet.{search_result}
use ed2kd.Packet.SearchFile.{SearchFile, write_search_file}
use ed2kd.Search.{
  Oper, and, or, not, Leaf, empty, string, extension, codec, type, minsize, maxsize, srcavail,
  srccomplete, minbitrate, minlength, Node, leaf, branch,
}

-- A constraint on a text or a number: what it adds to the query and to the bound values.
abbrev pub text_part : Option (List ℕ) → List ℕ → List ℕ
text_part none s = []
text_part (some v) s = s

abbrev pub int_part : ℕ → List ℕ → List ℕ
int_part v s = if v == 0 then [] else s

abbrev pub text_value : Option (List ℕ) → List Value
text_value none = []
text_value (some v) = text v ∷ []

abbrev pub int_value : ℕ → List Value
int_value v = if v == 0 then [] else int64 v ∷ []

abbrev pub type_value : Option (List ℕ) → List Value
type_value none = []
type_value (some v) = int (get_ed2k_file_type (λ i. get_or v i 0) 0 (length v)) ∷ []

abbrev pub select_text : List ℕ
select_text =
    codes
      " SELECT f.hash,f.name,f.size,f.type,f.ext,f.srcavail,f.srccomplete,f.rating,f.rated_count,"
    ++ codes "  (SELECT sid FROM sources WHERE fid=f.fid LIMIT 1) AS sid,"
    ++ codes "  f.mlength,f.mbitrate,f.mcodec "
    ++ codes " FROM fnames n"
    ++ codes " JOIN files f ON f.fid = n.docid"
    ++ codes " WHERE fnames MATCH ?"

-- The text of the query.
unfoldable pub query_text : Params → List ℕ
query_text c =
    select_text
    ++ (text_part c.ext_node (codes " AND f.ext=?")
        ++ (text_part c.codec_node (codes " AND f.mcodec=?")
            ++ (int_part c.minsize (codes " AND f.size>?")
                ++ (int_part c.maxsize (codes " AND f.size<?")
                    ++ (int_part c.srcavail (codes " AND f.srcavail>?")
                        ++ (int_part c.srccomplete (codes " AND f.srccomplete>?")
                            ++ (int_part c.minbitrate (codes " AND f.mbitrate>?")
                                ++ (int_part c.minlength (codes " AND f.mlength>?")
                                    ++ (text_part c.type_node (codes " AND f.type=?")
                                        ++ (codes " LIMIT ?"))))))))))

pub zeros : ℕ → List ℕ
zeros zero = []
zeros (suc n) = 0 ∷ zeros n

-- The bytes of name_term that are bound, with a null byte behind them.
abbrev pub name_bytes : Params → List ℕ
name_bytes c = take (c.name_len + 1) (c.name_term ++ zeros (c.name_len + 1))

unfoldable pub query_values : Params → ℕ → List Value
unfolding zeros
query_values c count =
    text (name_bytes c)
    ∷ (text_value c.ext_node
        ++ (text_value c.codec_node
            ++ (int_value c.minsize
                ++ (int_value c.maxsize
                    ++ (int_value c.srcavail
                        ++ (int_value c.srccomplete
                            ++ (int_value c.minbitrate
                                ++ (int_value c.minlength
                                    ++ (type_value c.type_node ++ (int count ∷ []))))))))))

-- A row as the file that is written.
unfoldable pub row_file : Row → SearchFile
row_file r = record {
  hash = r.hash;
  client_id = get_sid_id r.sid;
  client_port = get_sid_port r.sid;
  name_len = clip (length r.name) max_filename_len;
  name = r.name;
  size = r.size;
  type = r.type;
  rating = r.rating;
  rated_count = r.rated_count;
  ext_len = clip (length r.ext) max_fileext_len;
  ext = r.ext;
  media_length = r.mlength;
  media_bitrate = r.mbitrate;
  media_codec_len = clip (length r.mcodec) max_fileext_len;
  media_codec = r.mcodec;
  srcavail = r.srcavail;
  srccomplete = r.srccomplete;
}

pub write_rows : List ℕ → List Row → List ℕ
write_rows buf [] = buf
write_rows buf (r ∷ rows) = write_rows (write_search_file buf (row_file r)) rows

module _ {D : Type 0} (q : Sqlite D) where
  -- db_search_files behind the walk: the entries that go to the buffer, and their number.
  unfoldable pub run_query : Params → ℕ → D → Option (List ℕ × ℕ)
  unfolding query_text query_values write_rows
  run_query c count db = elim (q.search (query_text c) (query_values c count) db) [
    | none ↦ none
    | some (rows, done) ↦
        let kept = take count rows in
        if length kept == count || done then some (write_rows [] kept, length kept) else none
  ]

  -- db_search_files
  unfoldable pub db_search_files : Node → ℕ → D → Option (List ℕ × ℕ)
  unfolding walk passes run_query
  db_search_files root count db = elim (walk (passes root + 1) (at root) [] no_params) [
    | some (some c) ↦ run_query c count db
    | some none ↦ none
    | none ↦ none
  ]

  -- client_search_files
  unfoldable pub client_search_files : Node → M D (Unit {0})
  unfolding db_search_files write
  client_search_files root = do
    w ← get
    elim (db_search_files root max_search_files w.db) [
      | none ↦ pure tt
      | some (result, count) ↦ write (search_result result count)
    ]
