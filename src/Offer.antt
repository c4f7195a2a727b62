-- ===== src/Offer.antt =====
-- src/server.c: process_offer_files.
pub mod Fields
use ed2kd.Base.{
  ℕ, zero, suc, ◌+◌, ◌*◌, ◌/◌, ◌%◌, ◌^◌, Bool, true, false, List, [], ◌∷◌, ◌==◌, ◌&&◌,
  if◌then◌else◌, ltb, leb, u64,
}
use ed2kd.Proto.{max_filename_len, max_mcodec_len, ed2k_hash_size}
use ed2kd.Proto.Tt
use ed2kd.Proto.Tn
use ed2kd.Proto.Tns
use ed2kd.State.{World, M, ok, fault}
use ed2kd.Util.FileType.{get_ed2k_file_type, strncmp_eq}
use ed2kd.Db.{PubFile, Sqlite}
use ed2kd.Client.{client_share_files}
use ed2kd.Wire.{
  P, Out, go, malformed, ◌>>=◌, ◌>>◌, pure, modify, check, here, seek, memcpy_into, read16, read32,
  read_string_into, skip_taghdr, tag_type, tag_name_len, tag_name_at, clip,
}

-- A file as calloc makes it.
abbrev pub no_file : PubFile
no_file = record {
  hash = [];
  name_len = 0;
  name = [];
  size = 0;
  rating = 0;
  type = 0;
  media_length = 0;
  media_bitrate = 0;
  media_codec_len = 0;
  media_codec = [];
  complete = false;
}

-- The texts that are copied into a file.
abbrev pub set_hash : List ℕ → PubFile → PubFile
set_hash bytes f = record f { hash = bytes }

abbrev pub set_name : List ℕ → PubFile → PubFile
set_name bytes f = record f { name = bytes }

abbrev pub set_codec : List ℕ → PubFile → PubFile
set_codec bytes f = record f { media_codec = bytes }

-- The state is *cur_file. The source reads some fields in place before the check; on `malformed`
-- the files are dropped, so here a field is set once its value has been read.
-- The tags with a text for a name; PB_READ_STRING writes the codec's length to a local variable.
unfoldable pub named_value : (ℕ → ℕ) → ℕ → ℕ → ℕ → ℕ → P PubFile (Unit {0})
unfolding check read16 read32 seek read_string_into
named_value m e type name_at name_len =
    if strncmp_eq Tns.media_length m name_at name_len
    then (if type == Tt.uint32
        then (do v ← read32 m e; modify (λ f. record f { media_length = v }))
        else if type == Tt.string
        then (do len ← read16 m e; seek e len)
        else check false)
    else if strncmp_eq Tns.media_bitrate m name_at name_len
    then (do
      check (Tt.uint32 == type)
      v ← read32 m e
      modify (λ f. record f { media_bitrate = v }))
    else if strncmp_eq Tns.media_codec m name_at name_len
    then (do check (Tt.string == type); read_string_into m e max_mcodec_len set_codec)
    else check false

-- The cases of the switch.
unfoldable pub filename_value : (ℕ → ℕ) → ℕ → ℕ → P PubFile (Unit {0})
unfolding check read16 memcpy_into
filename_value m e type = do
  check (Tt.string == type)
  len ← read16 m e
  modify (λ f. record f { name_len = clip len max_filename_len })
  memcpy_into m e (clip len max_filename_len) set_name

unfoldable pub filesize_value : (ℕ → ℕ) → ℕ → ℕ → P PubFile (Unit {0})
unfolding check read32
filesize_value m e type = do
  check (Tt.uint32 == type)
  v ← read32 m e
  modify (λ f. record f { size = v })

unfoldable pub filesize_hi_value : (ℕ → ℕ) → ℕ → ℕ → P PubFile (Unit {0})
unfolding check read32
filesize_hi_value m e type = do
  check (Tt.uint32 == type)
  size_hi ← read32 m e
  modify (λ f. record f { size = u64 (f.size + size_hi * 2 ^ 32) })

unfoldable pub filerating_value : (ℕ → ℕ) → ℕ → ℕ → P PubFile (Unit {0})
unfolding check read32
filerating_value m e type = do
  check (Tt.uint32 == type)
  v ← read32 m e
  modify (λ f. record f { rating = if ltb 5 v then 5 else v })

unfoldable pub filetype_value : (ℕ → ℕ) → ℕ → ℕ → P PubFile (Unit {0})
unfolding check read32 read16 seek
filetype_value m e type =
    if type == Tt.uint32
    then (do v ← read32 m e; modify (λ f. record f { type = v }))
    else if type == Tt.string
    then (do
      len ← read16 m e
      at ← here
      modify (λ f. record f { type = get_ed2k_file_type m at len })
      seek e len)
    else check false

unfoldable pub offer_value : (ℕ → ℕ) → ℕ → ℕ → ℕ → P PubFile (Unit {0})
unfolding filename_value filesize_value filesize_hi_value filerating_value filetype_value
offer_value m e type name =
    if name == Tn.filename
    then filename_value m e type
    else if name == Tn.filesize
    then filesize_value m e type
    else if name == Tn.filesize_hi
    then filesize_hi_value m e type
    else if name == Tn.filerating
    then filerating_value m e type
    else if name == Tn.filetype
    then filetype_value m e type
    else check false

-- A tag whose name is longer than one byte is named by its text; the others by their first byte.
unfoldable pub offer_tag : (ℕ → ℕ) → ℕ → P PubFile (Unit {0})
unfolding named_value offer_value skip_taghdr
offer_tag m e = do
  at ← here
  check (tag_type m at / 128 % 2 == 0)
  skip_taghdr m e at
  (if ltb 1 (tag_name_len m at)
      then named_value m e (tag_type m at) (tag_name_at at) (tag_name_len m at)
      else offer_value m e (tag_type m at) (m (tag_name_at at)))

unfoldable pub offer_tags : (ℕ → ℕ) → ℕ → ℕ → P PubFile (Unit {0})
unfolding offer_tag
offer_tags m e zero p f = go p f tt
offer_tags m e (suc n) p f = elim (offer_tag m e p f) [
  | go p' f' _ ↦ offer_tags m e n p' f'
  | malformed f' ↦ malformed f'
]

-- One file: hash, id and port, which mark a complete source, and its tags.
unfoldable pub offer_file : (ℕ → ℕ) → ℕ → P PubFile (Unit {0})
unfolding offer_tags memcpy_into read32 read16
offer_file m e = do
  memcpy_into m e ed2k_hash_size set_hash
  id ← read32 m e
  port ← read16 m e
  modify (λ f. if 0xfbfbfbfb == id && 0xfbfb == port then record f { complete = true } else f)
  tag_count ← read32 m e
  offer_tags m e tag_count

-- while (i-- > 0): the array of files, from the address on.
unfoldable pub offer_files : (ℕ → ℕ) → ℕ → ℕ → P (Unit {0}) (List PubFile)
unfolding offer_file
offer_files m e zero p s = go p s []
offer_files m e (suc n) p s = elim (offer_file m e p no_file) [
  | malformed _ ↦ malformed s
  | go p' f _ ↦ elim (offer_files m e n p' s) [
    | malformed _ ↦ malformed s
    | go p'' _ files ↦ go p'' s (f ∷ files)
  ]
]

-- The statements up to client_share_files.
unfoldable pub parse_offer : (ℕ → ℕ) → ℕ → P (Unit {0}) (List PubFile)
unfolding offer_files read32 check
parse_offer m e = do count ← read32 m e; check (leb count 200); offer_files m e count

-- process_offer_files, with the packet at address 0.
unfoldable pub process_offer_files : {D : Type 0} → Sqlite D → (ℕ → ℕ) → ℕ → M D Bool
unfolding parse_offer client_share_files
process_offer_files q m e w = elim (parse_offer m e 0 tt) [
  | malformed _ ↦ ok (false, w)
  | go _ _ files ↦ elim (client_share_files q files w) [
    | ok (_, w') ↦ ok (true, w')
    | fault f ↦ fault f
  ]
]
