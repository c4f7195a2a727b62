-- ===== src/Client/Share.antt =====
-- client_share_files: the set of shared hashes, and the counters of files.
use ed2kd.Base.{
  ℕ, ◌+◌, ◌^◌, ◌≤◌, ◌<◌, ◌≡◌, refl, true, false, List, [], ◌∷◌, arith, length, eqb_refl, inl, inr,
  Bool-cases, ◌∙◌, sym,
}
use mathlib.Core.Path.{subst}
use ed2kd.State.{Client, World, ok, Ensures}
use ed2kd.Db.{PubFile, Sqlite, db_share_files, make_sid}
use ed2kd.Db.Share.{named, db_share_files-named}
use ed2kd.Client.{shared, mark_files, client_share_files, publish}

-- Every file keeps its place, the set grows by the number of new files, and it holds them all.
pub mark_files-length :
    (hashes : List (List ℕ)) (files : List PubFile)
    → let (files', hashes', n) = mark_files hashes files in
      (length files' ≡ length files) × (length hashes' ≡ length hashes + n) × (n ≤ length files)
unfolding mark_files
mark_files-length hashes [] = ground arith
mark_files-length hashes (f ∷ files) =
    ground (arith, mark_files-length hashes files, mark_files-length (f.hash ∷ hashes) files)

-- What is in the set stays there.
shared-mark_files :
    (h : List ℕ) (hashes : List (List ℕ)) (files : List PubFile)
    → shared h hashes ≡ true
    → shared h (mark_files hashes files).1 ≡ true
unfolding mark_files shared
shared-mark_files h hashes [] e = e
shared-mark_files h hashes (f ∷ files) e =
    ground (arith, shared-mark_files h hashes files, shared-mark_files h (f.hash ∷ hashes) files)

-- All files of a list are in a set.
unfoldable pub AllShared : List (List ℕ) → List PubFile → Type 0
AllShared hashes [] = Unit {0}
AllShared hashes (f ∷ files) = (shared f.hash hashes ≡ true) × AllShared hashes files

shared_head : (h : List ℕ) (hashes : List (List ℕ)) → shared h (h ∷ hashes) ≡ true
unfolding shared
shared_head h hashes = rw eqb_refl

mark_files_old :
    (f : PubFile) (hashes : List (List ℕ)) (files : List PubFile)
    → shared f.hash hashes ≡ true
    → (mark_files hashes (f ∷ files)).1 ≡ (mark_files hashes files).1
unfolding mark_files
mark_files_old f hashes files e = ground arith

mark_files_new :
    (f : PubFile) (hashes : List (List ℕ)) (files : List PubFile)
    → shared f.hash hashes ≡ false
    → (mark_files hashes (f ∷ files)).1 ≡ (mark_files (f.hash ∷ hashes) files).1
unfolding mark_files
mark_files_new f hashes files e = ground arith

mark_files-AllShared :
    (hashes : List (List ℕ)) (files : List PubFile) → AllShared (mark_files hashes files).1 files
unfolding AllShared
mark_files-AllShared hashes [] = tt
mark_files-AllShared hashes (f ∷ files) = elim (Bool-cases (shared f.hash hashes)) [
  | inl old ↦
      subst (λ s. AllShared s (f ∷ files)) (sym (mark_files_old f hashes files old))
        (shared-mark_files f.hash hashes files old, mark_files-AllShared hashes files)
  | inr new ↦
      subst (λ s. AllShared s (f ∷ files)) (sym (mark_files_new f hashes files new))
        (
          shared-mark_files f.hash (f.hash ∷ hashes) files (shared_head f.hash hashes),
          mark_files-AllShared (f.hash ∷ hashes) files,
        )
]

-- A list whose files are all in the set is marked through and through.
mark_files-old :
    (hashes : List (List ℕ)) (files : List PubFile)
    → AllShared hashes files
    → (named (mark_files hashes files).0 ≡ [])
      × ((mark_files hashes files).1 ≡ hashes)
      × ((mark_files hashes files).2 ≡ 0)
unfolding AllShared mark_files named
mark_files-old hashes [] a = (refl, refl, refl)
mark_files-old hashes (f ∷ files) a = ground (arith, mark_files-old hashes files a.1)

-- The client and the server are below their limits of files.
abbrev pub BelowLimits : {D : Type 0} → World D → Type 0
BelowLimits w =
    (w.clnt.file_count ≤ w.cfg.max_files_per_client) × (w.srv.file_count ≤ w.cfg.max_files)

-- The counter of a client's files is the size of its set.
abbrev pub IsCounted : Client → Type 0
IsCounted c = c.file_count ≡ length c.shared_files

module _ {D : Type 0} (q : Sqlite D) where
  publish_nothing :
      (files : List PubFile) (w : World D)
      → named files ≡ []
      → w.clnt.file_count < 2 ^ 32
      → w.srv.file_count < 2 ^ 32
      → publish q files 0 w ≡ ok (tt, w)
  unfolding publish db_share_files
  publish_nothing files w none_new c s =
      let same : db_share_files q (make_sid w.clnt.id w.clnt.port) files w.db ≡ (true, w.db) =
        db_share_files-named q _ files w.db ∙ rw (none_new, db_share_files) in
      rw (same, publish) (ground arith)

  -- Files that a client shares already change nothing, in the database or elsewhere, if neither the
  -- client nor the server is over its limit.
  pub client_share_files_again :
      (files : List PubFile) (w : World D)
      → BelowLimits w
      → w.clnt.file_count < 2 ^ 32
      → w.srv.file_count < 2 ^ 32
      → AllShared w.clnt.shared_files files
      → client_share_files q files w ≡ ok (tt, w)
  unfolding client_share_files
  client_share_files_again files w (b1, b2) c s a = ground (
    arith,
    mark_files-old w.clnt.shared_files files a,
    publish_nothing (mark_files w.clnt.shared_files files).0 w,
  )

  -- When the database takes the files of a client whose counter is the size of its set, neither it
  -- nor the server is over its limit, and no counter overflows, the client's counter stays the size
  -- of its set, the server's counter grows by as much, and the set holds all the files.
  pub client_share_files-IsCounted :
      (files : List PubFile) (w : World D)
      → BelowLimits w
      → IsCounted w.clnt
      → w.clnt.file_count + length files < 2 ^ 32
      → w.srv.file_count + length files < 2 ^ 32
      → ((sid : ℕ) (fs : List PubFile) → (db_share_files q sid fs w.db).0 ≡ true)
      → Ensures (client_share_files q files w) (λ _ w'.
        IsCounted w'.clnt
        × (w'.srv.file_count + w.clnt.file_count ≡ w.srv.file_count + w'.clnt.file_count)
        × AllShared w'.clnt.shared_files files)
  unfolding client_share_files publish
  client_share_files-IsCounted files w (b1, b2) k c s taken = ground (
    arith,
    mark_files-length w.clnt.shared_files files,
    mark_files-AllShared w.clnt.shared_files files,
    taken (make_sid w.clnt.id w.clnt.port) (mark_files w.clnt.shared_files files).0,
  )

  -- When the database fails, and neither the client nor the server is over its limit, all the files
  -- are in the client's set nevertheless, so that it cannot share them again, and no counter grows.
  pub client_share_files_failed :
      (files : List PubFile) (w : World D)
      → BelowLimits w
      → (db_share_files q
          (make_sid w.clnt.id w.clnt.port)
          (mark_files w.clnt.shared_files files).0
          w.db).0
        ≡ false
      → Ensures (client_share_files q files w) (λ _ w'.
        AllShared w'.clnt.shared_files files
        × (w'.clnt.file_count ≡ w.clnt.file_count)
        × (w'.srv.file_count ≡ w.srv.file_count))
  unfolding client_share_files publish
  client_share_files_failed files w (b1, b2) refused =
      ground (arith, mark_files-AllShared w.clnt.shared_files files)
