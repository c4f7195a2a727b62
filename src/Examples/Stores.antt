-- ===== src/Examples/Stores.antt =====
-- A search for a name, in the tables of the database before and after a file is shared.
use ed2kd.Base.{
  ℕ, ◌≡◌, refl, Bool, true, false, arith, List, [], ◌∷◌, ◌++◌, Option, none, some, take, codes,
  length,
}
use ed2kd.Db.{file_args, sdbm, share_file, db_share_files}
use ed2kd.Db.Tables.{Tables, Reads, tables, rows_of}
use ed2kd.Db.Tables.Tidy.{IsTidy}
use ed2kd.Db.Tables.Update.{sum_of}
use ed2kd.Db.Tables.Index.{names_of}
use ed2kd.Db.Tables.Indexed.{IsIndexed}
use ed2kd.Proto.{max_filename_len}
use ed2kd.Wire.{clip}
use ed2kd.Packet.SearchFile.{SearchFile, write_search_file}
use ed2kd.Search.{Node, leaf, string}
use ed2kd.Search.Query.{
  Params, no_params, db_search_files, append_term, until_nul, leaf_term, walk, passes, run_query,
}
use ed2kd.Search.Query.Select.{select}
use ed2kd.Search.Query.Finds.{stored}
use ed2kd.Search.Query.Offered.{share_file-found}
use ed2kd.Job.{Job, on_server_event}
use ed2kd.Pool.{Pool, running}
use ed2kd.Examples.{a_file, small_config, busy_server, some_client}

-- Every name matches any expression; no source is asked for.
abbrev any_name : List ℕ → Bool
any_name name = true

abbrev accepting : List ℕ → Option (List ℕ → Bool)
accepting term = some any_name

abbrev no_sources : ℕ → ℕ → Tables → Option (List ℕ × Bool)
no_sources fid count t = some ([], true)

abbrev reads : Reads
reads = record { search = select accepting; get_src = no_sources }

abbrev blank : Tables
blank = record { files = []; sources = []; fnames = [] }

blank-IsTidy : IsTidy blank
unfolding sum_of
blank-IsTidy = record { fits = tt; sourced = tt; owned = λ fid h. absurd (omega arith) }

blank-IsIndexed : IsIndexed blank.files blank.fnames
unfolding names_of rows_of
blank-IsIndexed = record { keyed = λ k. omega arith; named = tt; absent = λ k h. refl }

abbrev mp3 : Node
mp3 = leaf (string (codes "mp3"))

abbrev for_mp3 : Params
for_mp3 = record no_params { name_term = codes "mp3"; name_len = 3 }

abbrev with_file : Tables
with_file = (db_share_files (stored accepting no_sources) 7 (a_file ∷ []) blank).1

-- The answer of the search.
abbrev answer : Option (List ℕ × ℕ)
answer =
    db_search_files (stored accepting no_sources) mp3 200
      (share_file (stored accepting no_sources) 7 a_file blank).1

abbrev bytes_of : Option (List ℕ × ℕ) → List ℕ
bytes_of none = []
bytes_of (some (bytes, n)) = bytes

share_file-found_example :
    (front back : List ℕ) × (entry : SearchFile) × (bytes_of answer
      ≡ front ++ (write_search_file [] entry ++ back))
    × (entry.name ≡ take a_file.name_len a_file.name)
    × (entry.name_len ≡ clip (length (take a_file.name_len a_file.name)) max_filename_len)
    × (entry.size ≡ a_file.size)
unfolding walk passes leaf_term append_term until_nul db_search_files run_query tables share_file
    select file_args sdbm
share_file-found_example =
    share_file-found accepting no_sources any_name for_mp3 mp3 200 7 a_file blank (bytes_of answer)
      1 blank-IsTidy blank-IsIndexed refl
      (record {
        exts = refl;
        codecs = refl;
        sizes = (refl, refl);
        counts = (refl, refl);
        rates = (refl, refl);
        types = refl;
      })
      refl refl refl (omega arith)

abbrev ended : Job
ended = record { type = on_server_event (record { ended = true; connected = false }); clnt = 0 }

-- A worker has the event that ends the connection of a client with a file.
abbrev at_work : Pool Tables
at_work = record {
  cfg = small_config;
  srv = busy_server;
  db = with_file;
  calls = 0;
  clients = λ c. some_client;
  sent = λ c. [];
  locked = λ c. true;
  queue = [];
  workers = λ i. running ended;
  terminate = false;
}
