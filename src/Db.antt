-- ===== src/Db.antt =====
-- src/db_sqlite.c over the SQL statements that it prepares, and src/db.h.
-- SQLite is a parameter: for each prepared statement what its execution answers. A call that binds
-- its arguments in the order of the source and returns SQLITE_DONE (or its rows) answers `some`;
-- any other answer of reset, bind and step goes to `failed`, and is `none`.
pub mod Share
pub mod Moves
pub mod Handles
pub mod Tables
use ed2kd.Base.{
  ℕ, zero, suc, ◌+◌, ◌-◌, ◌*◌, ◌/◌, ◌%◌, ◌^◌, Bool, true, false, List, [], ◌∷◌, Option, none, some,
}
use mathlib.Core.Option
use ed2kd.Base.{drop, length, map, ◌||◌}
use ed2kd.Base.{u64, u32, u16, ltb, ◌==◌, if◌then◌else◌, take}
use ed2kd.Util.Extension.{file_extension}

-- struct pub_file. `name` and `media_codec` are the contents of the two character arrays.
pub record PubFile : Type 0 where
  pub hash : List ℕ
  pub name_len : ℕ
  pub name : List ℕ
  pub size : ℕ
  pub rating : ℕ
  pub type : ℕ
  pub media_length : ℕ
  pub media_bitrate : ℕ
  pub media_codec_len : ℕ
  pub media_codec : List ℕ
  pub complete : Bool

-- The loop of sdbm, in 64 bits: hash = c + (hash << 6) + (hash << 16) - hash.
pub sdbm_from : ℕ → List ℕ → ℕ
sdbm_from hash [] = hash
sdbm_from hash (c ∷ str) = sdbm_from (u64 (c + hash * 64 + hash * 65536 + 2 ^ 64 - hash)) str

-- sdbm; MAKE_FID(x) is its value on the 16 bytes of a hash.
unfoldable pub sdbm : List ℕ → ℕ
unfolding sdbm_from
sdbm str = sdbm_from 0 str

-- MAKE_SID, GET_SID_ID and GET_SID_PORT.
unfoldable pub make_sid : ℕ → ℕ → ℕ
make_sid id port = id * 2 ^ 32 + port

unfoldable pub get_sid_id : ℕ → ℕ
get_sid_id sid = u32 (sid / 2 ^ 32)

unfoldable pub get_sid_port : ℕ → ℕ
get_sid_port sid = u16 sid

-- The arguments of SHARE_UPD, and of SHARE_INS with `hash`.
pub record FileArgs : Type 0 where
  pub fid : ℕ
  pub hash : List ℕ
  pub name : List ℕ
  pub ext : Option (List ℕ)
  pub size : ℕ
  pub type : ℕ
  pub media_length : ℕ
  pub media_bitrate : ℕ
  pub media_codec : List ℕ

-- A value bound in a search: sqlite3_bind_text, sqlite3_bind_int64 and sqlite3_bind_int.
pub data Value : Type 0 where
  text : List ℕ → Value
  int64 int : ℕ → Value

-- The columns of a row that a search finds.
pub record Row : Type 0 where
  pub hash : List ℕ
  pub name : List ℕ
  pub size : ℕ
  pub type : ℕ
  pub ext : List ℕ
  pub srcavail : ℕ
  pub srccomplete : ℕ
  pub rating : ℕ
  pub rated_count : ℕ
  pub sid : ℕ
  pub mlength : ℕ
  pub mbitrate : ℕ
  pub mcodec : List ℕ

-- `share_upd` answers with sqlite3_changes, the number of rows that it changed. `get_src` answers
-- with the rows that it stepped through, and whether the last step said SQLITE_DONE; so does
-- `search`, which prepares a query, given as its text, and binds the values in their order.
pub record Sqlite (D : Type 0) : Type 0 where
  pub share_upd : FileArgs → D → Option (ℕ × D)
  pub share_ins : FileArgs → D → Option D
  pub share_src : ℕ → ℕ → Bool → ℕ → D → Option D
  pub remove_src : ℕ → D → Option D
  pub get_src : ℕ → ℕ → D → Option (List ℕ × Bool)
  pub search : List ℕ → List Value → D → Option (List Row × Bool)

-- The text bound for `ext`: from the extension to the end of the name; NULL where there is none.
abbrev pub ext_of : List ℕ → ℕ → Option (List ℕ)
ext_of name name_len =
    Option.map (λ at. take (name_len - at) (drop at name)) (file_extension name name_len)

unfoldable pub file_args : PubFile → FileArgs
file_args f = record {
  fid = sdbm f.hash;
  hash = f.hash;
  name = take f.name_len f.name;
  ext = ext_of f.name f.name_len;
  size = f.size;
  type = f.type;
  media_length = f.media_length;
  media_bitrate = f.media_bitrate;
  media_codec = take f.media_codec_len f.media_codec;
}

module _ {D : Type 0} (q : Sqlite D) where
  -- One file: update its row, insert it if no row was changed, and add the source. The flag says
  -- that no statement failed; what was executed before a failure stays in the database.
  unfoldable pub share_file : ℕ → PubFile → D → Bool × D
  share_file sid f db = elim (q.share_upd (file_args f) db) [
    | none ↦ (false, db)
    | some (changes, db₁) ↦
        elim (if changes == 0 then q.share_ins (file_args f) db₁ else some db₁) [
          | none ↦ (false, db₁)
          | some db₂ ↦ elim (q.share_src (sdbm f.hash) sid f.complete f.rating db₂) [
            | none ↦ (false, db₂)
            | some db₃ ↦ (true, db₃)
          ]
        ]
  ]

  -- db_share_files; a file with no name is passed over, and the first failure ends the loop.
  unfoldable pub db_share_files : ℕ → List PubFile → D → Bool × D
  db_share_files sid [] db = (true, db)
  db_share_files sid (f ∷ files) db = elim (f.name_len == 0) [
    | true ↦ db_share_files sid files db
    | false ↦
        let (done, db') = share_file sid f db in
        elim done [ true ↦ db_share_files sid files db' | false ↦ (false, db') ]
  ]

  -- db_remove_source
  unfoldable pub db_remove_source : ℕ → D → Bool × D
  db_remove_source sid db = elim (q.remove_src sid db) [
    | none ↦ (false, db)
    | some db' ↦ (true, db')
  ]

  -- db_get_sources: at most `count` rows are kept, as pairs of an id and a port.
  unfoldable pub db_get_sources : List ℕ → ℕ → D → Option (List (ℕ × ℕ))
  db_get_sources hash count db = elim (q.get_src (sdbm hash) count db) [
    | none ↦ none
    | some (rows, done) ↦
        let kept = take count rows in
        if length kept == count || done
        then some (map (λ sid. (get_sid_id sid, get_sid_port sid)) kept)
        else none
  ]
