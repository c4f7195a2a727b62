-- ===== src/Search/Query/Offered.antt =====
-- src/db_sqlite.c: db_search_files behind db_share_files, on the tables of db_create.
use ed2kd.Base.{
  ℕ, zero, suc, ◌+◌, ◌<◌, ◌≡◌, refl, sym, ◌∙◌, ap, Bool, true, Option, List, [], ◌∷◌, ◌++◌, none,
  some, length, take, append_assoc, arith,
}
use mathlib.Core.List.{Memᴰ}
use ed2kd.Proto.{max_filename_len}
use ed2kd.Wire.{clip}
use ed2kd.Db.{PubFile, Row, file_args, share_file}
use ed2kd.Db.Tables.{FileRow, Tables, Reads}
use ed2kd.Db.Tables.Tidy.{IsTidy}
use ed2kd.Db.Tables.Indexed.{IsIndexed, share_file-IsIndexed}
use ed2kd.Db.Tables.Shared.{share_file-IsRowOf}
use ed2kd.Packet.SearchFile.{SearchFile, write_search_file}
use ed2kd.Search.{Node}
use ed2kd.Search.Query.{
  Params, Spot, name_bytes, no_params, passes, row_file, walk, write_rows, db_search_files,
}
use ed2kd.Search.Query.Select.{row_of, select}
use ed2kd.Search.Query.Found.{wanted}
use ed2kd.Search.Query.Finds.{stored, db_search_files-IsFound}
use ed2kd.Search.Query.Results.{write_rows-from}

-- A search for names only.
pub record IsByName (c : Params) : Type 0 where
  pub exts : c.ext_node ≡ none
  pub codecs : c.codec_node ≡ none
  pub sizes : (c.minsize ≡ 0) × (c.maxsize ≡ 0)
  pub counts : (c.srcavail ≡ 0) × (c.srccomplete ≡ 0)
  pub rates : (c.minbitrate ≡ 0) × (c.minlength ≡ 0)
  pub types : c.type_node ≡ none

wanted_any : (c : Params) (f : FileRow) → IsByName c → wanted c f ≡ true
unfolding wanted
wanted_any c f b =
    rw
      (
        b.exts, b.codecs, b.sizes.0, b.sizes.1, b.counts.0, b.counts.1, b.rates.0, b.rates.1,
        b.types,
      )
      refl

same_answer :
    (xs ys : List ℕ) (n k : ℕ)
    → ◌≡◌ {A = Option (List ℕ × ℕ)} (some (xs, n)) (some (ys, k))
    → (xs ≡ ys) × (n ≡ k)
same_answer xs ys n k h = (ground arith, ground arith)

-- The bytes hold the entry of each row.
write_rows-Memᴰ :
    (buf : List ℕ) {r : Row} (rows : List Row)
    → Memᴰ r rows
    → (front back : List ℕ) × (write_rows buf rows
        ≡ front ++ (write_search_file [] (row_file r) ++ back))
unfolding write_rows write_search_file
write_rows-Memᴰ buf [] m = elim m [ ]
write_rows-Memᴰ buf {r} (x ∷ rows) (Memᴰ.head e) = (
  buf,
  write_rows [] rows,
  write_rows-from (write_search_file buf (row_file x)) rows
      ∙ append_assoc buf (write_search_file [] (row_file x)) (write_rows [] rows)
      ∙ ap (λ y. buf ++ (write_search_file [] (row_file y) ++ write_rows [] rows)) (sym e),
)
write_rows-Memᴰ buf (x ∷ rows) (Memᴰ.tail m) =
    write_rows-Memᴰ (write_search_file buf (row_file x)) rows m

take_short : {A : Type 0} (n : ℕ) (xs : List A) → length (take n xs) < n → take n xs ≡ xs
take_short zero xs h = absurd (omega arith)
take_short (suc n) [] h = refl
take_short (suc n) (x ∷ xs) h = ap (λ ys. x ∷ ys) (take_short n xs (omega arith))

-- When a client has shared a file on sound tables, where SQLite does not fail, then the result of a
-- search by name alone, with an expression that the file's name matches, has in it the bytes of an
-- entry with the name and the size that the client gave, if it has fewer entries than were asked
-- for.
pub share_file-found :
    (matches : List ℕ → Option (List ℕ → Bool)) (get : ℕ → ℕ → Tables → Option (List ℕ × Bool))
    (test : List ℕ → Bool) (c : Params) (root : Node) (count sid : ℕ) (f : PubFile) (t : Tables)
    (result : List ℕ) (n : ℕ)
    → IsTidy t
    → IsIndexed t.files t.fnames
    → walk (passes root + 1) (Spot.at root) [] no_params ≡ some (some c)
    → IsByName c
    → matches (name_bytes c) ≡ some test
    → test (take f.name_len f.name) ≡ true
    → db_search_files (stored matches get) root count (share_file (stored matches get) sid f t).1
      ≡ some (result, n)
    → n < count
    → (front back : List ℕ) × (entry : SearchFile) × (result
        ≡ front ++ (write_search_file [] entry ++ back))
      × (entry.name ≡ take f.name_len f.name)
      × (entry.name_len ≡ clip (length (take f.name_len f.name)) max_filename_len)
      × (entry.size ≡ f.size)
unfolding file_args row_of row_file
share_file-found matches get test c root count sid f t result n tidy indexed walked by_name parsed
      match_ h few =
    let reads : Reads = record { search = select matches; get_src = get } in
    let t' : Tables = (share_file (stored matches get) sid f t).1 in
    let (g, there, r) = share_file-IsRowOf reads sid f t tidy.sourced in
    let (rows, answer, is) =
      db_search_files-IsFound test c t' (share_file-IsIndexed reads sid f t indexed) matches get
        root count parsed walked in
    let (bytes, number) = same_answer _ _ _ _ (sym answer ∙ h) in
    let whole : take count rows ≡ rows = take_short count rows (omega (arith, number, few)) in
    let (front, back, e) =
      write_rows-Memᴰ [] rows
        (is.complete g there (ap test r.name ∙ match_) (wanted_any c g by_name)) in
    (
      front,
      back,
      row_file (row_of t' g),
      sym bytes ∙ ap (write_rows []) whole ∙ e,
      r.name,
      ap (λ (name : List ℕ). clip (length name) max_filename_len) r.name,
      r.size,
    )
