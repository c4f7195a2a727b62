-- ===== src/Search/Query/Results.antt =====
-- src/db_sqlite.c, db_search_files: the entries of a result, as a reader of the protocol takes them.
use ed2kd.Base.{
  ℕ, zero, suc, ◌+◌, ◌*◌, ◌^◌, ◌≤◌, ◌<◌, ◌≡◌, refl, sym, ◌∙◌, ap, Bool, true, false, Option, none,
  some, List, [], ◌∷◌, ◌++◌, arith, length, length-take, take, ltb, append-nil, append_assoc,
  if◌then◌else◌, ◌||◌, ◌==◌, All,
}
use ed2kd.Proto.{max_filename_len, max_fileext_len}
use ed2kd.Wire.{clip}
use ed2kd.Db.{Row, Sqlite, Value}
use ed2kd.Packet.{search_result}
use ed2kd.Packet.SearchFile.{write_search_file}
use ed2kd.Packet.Skip.{skip, skip_entry}
use ed2kd.Packet.Tags.{Fits}
use ed2kd.Packet.Entry.{write_search_file-skip_entry}
use ed2kd.Search.{Node}
use ed2kd.Search.Query.{
  Params, row_file, write_rows, run_query, db_search_files, query_text, query_values,
}

-- A row whose entry has as many tags as it announces: the hash has its 16 bytes, there is no codec,
-- and length and bit rate are both known or both unknown.
abbrev pub IsPlain : Row → Type 0
IsPlain r = (length r.hash ≡ 16) × (length r.mcodec ≡ 0) × (ltb 0 r.mlength ≡ ltb 0 r.mbitrate)

-- So many entries, one after the other.
skip_entries : ℕ → List ℕ → Option (List ℕ)
skip_entries zero bytes = some bytes
skip_entries (suc n) bytes = elim (skip_entry bytes) [
  | none ↦ none
  | some rest ↦ skip_entries n rest
]

-- The packet of a result: its header and opcode, the number of entries in four bytes, the entries.
skip_numbered : List ℕ → Option (List ℕ)
unfolding skip_entries
skip_numbered (a ∷ b ∷ c ∷ d ∷ rest) = skip_entries (a + 256 * b + 65536 * c + 16777216 * d) rest
skip_numbered _ = none

pub skip_result : List ℕ → Option (List ℕ)
unfolding skip_numbered skip
skip_result packet = elim (skip 6 packet) [ none ↦ none | some rest ↦ skip_numbered rest ]

search_result-skip_result :
    (result : List ℕ) (n : ℕ)
    → n < 2 ^ 32
    → skip_result (search_result result n) ≡ skip_entries n result
unfolding skip_result skip_numbered search_result
search_result-skip_result result n h = ap (λ (k : ℕ). skip_entries k result) (omega arith)

clip-Fits : (str : List ℕ) (most : ℕ) → most < 65536 → Fits str (clip (length str) most)
clip-Fits str most h = ground arith

no_codec : (n : ℕ) → n ≡ 0 → clip n max_fileext_len ≡ 0
no_codec n h = ground arith

row-skip_entry :
    (r : Row) (rest : List ℕ)
    → IsPlain r
    → skip_entry (write_search_file [] (row_file r) ++ rest) ≡ some rest
unfolding row_file
row-skip_entry r rest (hash, codec, media) =
    write_search_file-skip_entry (row_file r) rest hash
      (clip-Fits r.name max_filename_len (omega arith))
      (clip-Fits r.ext max_fileext_len (omega arith)) (no_codec (length r.mcodec) codec) media

pub write_rows-from :
    (buf : List ℕ) (rows : List Row) → write_rows buf rows ≡ buf ++ write_rows [] rows
unfolding write_rows write_search_file
write_rows-from buf [] = sym (append-nil buf)
write_rows-from buf (r ∷ rows) =
    write_rows-from (write_search_file buf (row_file r)) rows
    ∙ append_assoc buf (write_search_file [] (row_file r)) (write_rows [] rows)
    ∙ ap (λ bytes. buf ++ bytes) (sym (write_rows-from (write_search_file [] (row_file r)) rows))

write_rows-skip_entries :
    (rows : List Row) → All IsPlain rows → skip_entries (length rows) (write_rows [] rows) ≡ some []
unfolding skip_entries write_rows
write_rows-skip_entries [] plain = refl
write_rows-skip_entries (r ∷ rows) (p, plain) =
    rw
      (
        write_rows-from (write_search_file [] (row_file r)) rows,
        skip_entries,
        row-skip_entry r (write_rows [] rows) p,
      )
      (write_rows-skip_entries rows plain)

All-take : (n : ℕ) (rows : List Row) → All IsPlain rows → All IsPlain (take n rows)
All-take zero rows plain = tt
All-take (suc n) [] plain = tt
All-take (suc n) (r ∷ rows) (p, plain) = (p, All-take n rows plain)

-- What is said of an answer of the query.
abbrev WellRead : List ℕ → ℕ → ℕ → Type 0
WellRead result n count = (skip_entries n result ≡ some []) × (n ≤ count)

given :
    (b : Bool) (given found : List ℕ × ℕ)
    → (if b then some given else none) ≡ some found
    → given ≡ found
given true x y h = cc
given false x y h = cc

module _ {D : Type 0} (q : Sqlite D) (db : D)
    (plain : (query : List ℕ) (values : List Value) (rows : List Row) (done : Bool)
      → q.search query values db ≡ some (rows, done)
      → All IsPlain rows) where
  answer_read :
      (count : ℕ) (query : List ℕ) (values : List Value) (rows : Option (List Row × Bool))
      (result : List ℕ) (n : ℕ)
      → q.search query values db ≡ rows
      → Path
          (Option (List ℕ × ℕ))
          (elim rows [
            | none ↦ none
            | some (rows, done) ↦
                let kept = take count rows in
                if length kept == count || done
                then some (write_rows [] kept, length kept)
                else none
          ])
          (some (result, n))
      → WellRead result n count
  answer_read count query values none result n e h = cc
  answer_read count query values (some (rows, done)) result n e h =
      let same = given _ _ (result, n) h in
      let bytes = ap (λ (x : List ℕ × ℕ). x.0) same in
      let number = ap (λ (x : List ℕ × ℕ). x.1) same in
      let read =
        write_rows-skip_entries (take count rows)
          (All-take count rows (plain query values rows done e)) in
      (rw (← bytes, ← number) read, omega (arith, number, length-take count rows))

  run_query-skip_entries :
      (c : Params) (count : ℕ) (result : List ℕ) (n : ℕ)
      → run_query q c count db ≡ some (result, n)
      → WellRead result n count
  unfolding run_query
  run_query-skip_entries c count result n h =
      answer_read count (query_text c) (query_values c count) _ result n refl h

  walked :
      (count : ℕ) (result : List ℕ) (n : ℕ) (w : Option (Option Params))
      → Path
          (Option (List ℕ × ℕ))
          (elim w [ some (some c) ↦ run_query q c count db | some none ↦ none | none ↦ none ])
          (some (result, n))
      → WellRead result n count
  walked count result n (some (some c)) h = run_query-skip_entries c count result n h
  walked count result n (some none) h = cc
  walked count result n none h = cc

  -- If the rows that the database gives are of files with a hash of 16 bytes, without a codec, and
  -- with both a length and a bit rate or neither, and fewer than 2 ^ 32 results are asked for, then
  -- the packet made of a result of db_search_files is read to its end: behind the header and the
  -- opcode stand the number of entries and exactly so many entries, each with as many tags as it
  -- announces. And these are no more than were asked for.
  pub db_search_files-skip_result :
      (root : Node) (count : ℕ) (result : List ℕ) (n : ℕ)
      → count < 2 ^ 32
      → db_search_files q root count db ≡ some (result, n)
      → (skip_result (search_result result n) ≡ some []) × (n ≤ count)
  unfolding db_search_files
  db_search_files-skip_result root count result n less h =
      let (read, le) = walked count result n _ h in
      (search_result-skip_result result n (omega arith) ∙ read, le)
