-- ===== src/Examples/Text.antt =====
-- Texts and packets.
use ed2kd.Base.{
  ℕ, ◌+◌, ◌*◌, ◌%◌, ◌≤◌, ◌≡◌, refl, Bool, true, List, [], ◌∷◌, some, arith, inl, codes, All,
}
use mathlib.Core.Path.{subst}
use ed2kd.Util.Bucket.{token_bucket_init, requests, requests-le, sum}
use ed2kd.Util.Hex.{hex2bin, windows, hex2bin-windows}
use ed2kd.Db.{Row, Value, Sqlite}
use ed2kd.Packet.{search_result}
use ed2kd.Search.{Node, leaf, string}
use ed2kd.Search.Query.{
  write_rows, db_search_files, run_query, walk, passes, leaf_term, append_term, until_nul,
}
use ed2kd.Search.Query.Results.{IsPlain, skip_result, db_search_files-skip_result}
use ed2kd.Examples.{ones, sources}

requests-le_example :
    (requests 2 (token_bucket_init 100 2) (0 ∷ 0 ∷ 0 ∷ 1 ∷ [])).1
    ≤ 2 * (1 + sum (0 ∷ 0 ∷ 0 ∷ 1 ∷ []))
requests-le_example = requests-le 2 100 (0 ∷ 0 ∷ 0 ∷ 1 ∷ [])

abbrev digits : ℕ → ℕ
digits i = b'0' + i % 10

hex2bin-windows_example : hex2bin digits 4 ≡ (true, windows digits 0 4)
hex2bin-windows_example = hex2bin-windows digits 4 (λ k le. inl (omega arith, omega arith))

abbrev a_song : Row
a_song = record {
  hash = ones;
  name = codes "a.mp3";
  size = 0x100000001;
  type = 1;
  ext = codes "mp3";
  srcavail = 2;
  srccomplete = 1;
  rating = 4;
  rated_count = 1;
  sid = 0x200000001;
  mlength = 60;
  mbitrate = 128;
  mcodec = [];
}

-- A database that finds the song, whatever is searched for.
abbrev songs : Sqlite (List ℕ)
songs = record sources { search = λ query values db. some (a_song ∷ [], true) }

songs-IsPlain :
    (query : List ℕ) (values : List Value) (rows : List Row) (done : Bool)
    → songs.search query values [] ≡ some (rows, done)
    → All IsPlain rows
songs-IsPlain query values rows done h =
    let same : a_song ∷ [] ≡ rows = ground arith in
    subst (All IsPlain) same ((refl, refl, refl), tt)

abbrev an_mp3 : Node
an_mp3 = leaf (string (codes "mp3"))

db_search_files-skip_result_example :
    (skip_result (search_result (write_rows [] (a_song ∷ [])) 1) ≡ some []) × (1 ≤ 200)
unfolding db_search_files run_query walk passes leaf_term append_term until_nul
db_search_files-skip_result_example =
    db_search_files-skip_result songs [] songs-IsPlain an_mp3 200 (write_rows [] (a_song ∷ [])) 1
      (omega arith) refl
