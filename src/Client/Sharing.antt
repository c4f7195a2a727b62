-- ===== src/Client/Sharing.antt =====
-- src/client.c: what a client shares, and the sources that it asks for.
use ed2kd.Base.{
  ℕ, ◌+◌, Bool, true, false, ◌||◌, List, [], ◌∷◌, none, some, u32, ltb, eqb, length, codes,
}
use ed2kd.Proto.{max_found_sources}
use ed2kd.State.{ok, M, ◌>>=◌, ◌>>◌, pure, get, set_client, write}
use ed2kd.Db.{PubFile, Sqlite, make_sid, db_share_files, db_get_sources}
use ed2kd.Packet.{server_message, found_sources}

-- Is a hash in the set of the client's shared files (HASH_FIND)?
unfoldable pub shared : List ℕ → List (List ℕ) → Bool
shared hash [] = false
shared hash (h ∷ hashes) = eqb h hash || shared hash hashes

-- The loop of client_share_files: the files, duplicates marked by an empty name; the set; and how
-- many files were new to it.
unfoldable pub mark_files : List (List ℕ) → List PubFile → List PubFile × List (List ℕ) × ℕ
mark_files hashes [] = ([], hashes, 0)
mark_files hashes (f ∷ files) = elim (shared f.hash hashes) [
  | true ↦
      let (files', hashes', n) = mark_files hashes files in
      (record f { name_len = 0 } ∷ files', hashes', n)
  | false ↦
      let (files', hashes', n) = mark_files (f.hash ∷ hashes) files in (f ∷ files', hashes', n + 1)
]

abbrev pub client_limit_warning : List ℕ
client_limit_warning = codes "WARNING: You reached shared files limit"

abbrev pub server_limit_warning : List ℕ
server_limit_warning = codes "WARNING: Server reached shared files limit"

-- send_server_message with sizeof(msg) - 1.
abbrev pub send_text : {D : Type 0} → List ℕ → M D (Unit {0})
send_text msg = write (server_message msg (length msg))

module _ {D : Type 0} (q : Sqlite D) where
  -- The end of client_share_files: the new files are counted if the database took them.
  unfoldable pub publish : List PubFile → ℕ → M D (Unit {0})
  publish files real_count w =
      let (done, db') = db_share_files q (make_sid w.clnt.id w.clnt.port) files w.db in
      let w' = record w { db = db' } in
      elim done [
        | true ↦ ok (
          tt,
          record w' {
            clnt = record (w'.clnt) { file_count = u32 (w'.clnt.file_count + real_count) };
            srv = record (w'.srv) { file_count = u32 (w'.srv.file_count + real_count) };
          },
        )
        | false ↦ ok (tt, w')
      ]

  -- client_share_files
  unfoldable pub client_share_files : List PubFile → M D (Unit {0})
  unfolding publish write
  client_share_files files = do
    w ← get
    elim (ltb w.cfg.max_files_per_client w.clnt.file_count) [
      | true ↦ send_text client_limit_warning
      | false ↦ elim (ltb w.cfg.max_files w.srv.file_count) [
        | true ↦ send_text server_limit_warning
        | false ↦
            let (files', hashes, real_count) = mark_files w.clnt.shared_files files in
            set_client (λ c. record c { shared_files = hashes }) >> publish files' real_count
      ]
    ]

  -- client_get_sources
  unfoldable pub client_get_sources : List ℕ → M D (Unit {0})
  unfolding write
  client_get_sources hash = do
    w ← get
    elim (db_get_sources q hash max_found_sources w.db) [
      | none ↦ pure tt
      | some sources ↦ write (found_sources hash sources)
    ]
