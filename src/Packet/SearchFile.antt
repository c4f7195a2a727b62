-- ===== src/Packet/SearchFile.antt =====
-- src/packet.c: write_search_file, and src/packet.h: struct search_file.
use ed2kd.Base.{
  ℕ, ◌+◌, ◌*◌, ◌/◌, ◌%◌, List, [], ◌∷◌, ◌++◌, le16, le32, le64, ltb, to_bit, if◌then◌else◌, length,
  u8, u16,
}
use ed2kd.Proto.Tt
use ed2kd.Proto.Tn
use ed2kd.Proto.Tns
use ed2kd.Packet.{tag_header, tag_strval}

-- struct search_file
pub record SearchFile : Type 0 where
  pub hash : List ℕ
  pub client_id : ℕ
  pub client_port : ℕ
  pub name_len : ℕ
  pub name : List ℕ
  pub size : ℕ
  pub type : ℕ
  pub rating : ℕ
  pub rated_count : ℕ
  pub ext_len : ℕ
  pub ext : List ℕ
  pub media_length : ℕ
  pub media_bitrate : ℕ
  pub media_codec_len : ℕ
  pub media_codec : List ℕ
  pub srcavail : ℕ
  pub srccomplete : ℕ

-- sfe.tag_count
unfoldable pub announced : SearchFile → ℕ
announced f =
    1
    + 1
    + to_bit (ltb 0 f.ext_len)
    + 1
    + 1
    + to_bit (ltb 0 f.rated_count)
    + to_bit (ltb 0 f.media_length)
    + to_bit (ltb 0 f.media_length)
    + to_bit (ltb 0 f.media_codec_len)

-- struct search_file_entry
unfoldable pub entry_header : SearchFile → List ℕ
unfolding announced
entry_header f = f.hash ++ le32 f.client_id ++ le16 f.client_port ++ le32 (announced f)

-- A tag with a text for its name.
abbrev pub named_header : ℕ → List ℕ → List ℕ
named_header type name = type ∷ le16 (length name) ++ name

-- The rating's 16 bits: the percentage of the sources that rated the file, cut to a byte, in the
-- high byte, and the average rating, rounded, times 51, in the low byte. rated_count is not 0. The
-- source divides in floating point; for numbers below 2 ^ 24 the rounded quotients are these.
unfoldable pub rating_word : SearchFile → ℕ
rating_word f = u16 (
    u16 (100 * u8 (f.srcavail / f.rated_count) * 256)
    + u16 ((2 * f.rating + f.rated_count) / (2 * f.rated_count)) * 51 % 256)

-- The tags, each or nothing; in the source's order.
unfoldable pub name_tag : SearchFile → List ℕ
name_tag f = tag_header Tt.string Tn.filename ++ tag_strval f.name f.name_len

unfoldable pub size_tag : SearchFile → List ℕ
size_tag f = tag_header Tt.uint64 Tn.filesize ++ le64 f.size

unfoldable pub ext_tag : SearchFile → List ℕ
ext_tag f =
    if ltb 0 f.ext_len then tag_header Tt.string Tn.fileformat ++ tag_strval f.ext f.ext_len else []

unfoldable pub sources_tag : SearchFile → List ℕ
sources_tag f = tag_header Tt.uint32 Tn.sources ++ le32 f.srcavail

unfoldable pub complete_tag : SearchFile → List ℕ
complete_tag f = tag_header Tt.uint32 Tn.complete_sources ++ le32 f.srccomplete

unfoldable pub rating_tag : SearchFile → List ℕ
unfolding rating_word
rating_tag f =
    if ltb 0 f.rated_count then tag_header Tt.uint16 Tn.filerating ++ le16 (rating_word f) else []

unfoldable pub length_tag : SearchFile → List ℕ
length_tag f =
    if ltb 0 f.media_length
    then named_header Tt.uint32 Tns.media_length ++ le32 f.media_length
    else []

unfoldable pub bitrate_tag : SearchFile → List ℕ
bitrate_tag f =
    if ltb 0 f.media_bitrate
    then named_header Tt.uint32 Tns.media_bitrate ++ le32 f.media_bitrate
    else []

-- The type is the one that the source assigns, and what follows is a text.
unfoldable pub codec_tag : SearchFile → List ℕ
codec_tag f =
    if ltb 0 f.media_codec_len
    then named_header Tt.uint32 Tns.media_codec ++ tag_strval f.media_codec f.media_codec_len
    else []

unfoldable pub write_search_file : List ℕ → SearchFile → List ℕ
write_search_file buf f =
    buf
    ++ (entry_header f
        ++ (name_tag f
            ++ (size_tag f
                ++ (ext_tag f
                    ++ (sources_tag f
                        ++ (complete_tag f
                            ++ (rating_tag f
                                ++ (length_tag f ++ (bitrate_tag f ++ codec_tag f)))))))))
