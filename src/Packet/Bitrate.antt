-- ===== src/Packet/Bitrate.antt =====
-- src/packet.c: an entry with a length and no bit rate.
use ed2kd.Base.{ℕ, ◌<◌, ◌≡◌, List, [], ◌++◌, arith, length, ltb, to_bit, ◌∙◌}
use ed2kd.Packet.SearchFile.{SearchFile, announced, write_search_file}
use ed2kd.Packet.Skip.{skip_tag, skip_tags, skip_entry}
use ed2kd.Packet.Tags.{write_search_file-tags, written, tags_read, announced-written, Fits}
use ed2kd.Packet.Entry.{entry_read}

announced-extra :
    (f : SearchFile)
    → f.media_codec_len ≡ 0
    → 0 < f.media_length
    → f.media_bitrate ≡ 0
    → announced f
      ≡ written
          (ltb 0 f.ext_len)
          (ltb 0 f.rated_count)
          (ltb 0 f.media_length)
          (ltb 0 f.media_bitrate)
          1
unfolding written
announced-extra f c len rate =
    let long : to_bit (ltb 0 f.media_length) ≡ 1 = ground arith in
    let no_rate : to_bit (ltb 0 f.media_bitrate) ≡ 0 = ground arith in
    omega (arith, announced-written f c, long, no_rate)

skip_tags_one : (bytes : List ℕ) → skip_tags 1 bytes ≡ skip_tag bytes
unfolding skip_tags
skip_tags_one bytes = ground arith

-- With a length and no bit rate one tag too many is announced: the reader takes the first bytes
-- of what follows the entry for a tag of it.
pub write_search_file_no_bitrate :
    (f : SearchFile) (rest : List ℕ)
    → length f.hash ≡ 16
    → Fits f.name f.name_len
    → Fits f.ext f.ext_len
    → f.media_codec_len ≡ 0
    → 0 < f.media_length
    → f.media_bitrate ≡ 0
    → skip_entry (write_search_file [] f ++ rest) ≡ skip_tag rest
write_search_file_no_bitrate f rest h n x c len rate = rw (write_search_file-tags f rest) (
    entry_read f _ h
    ∙ rw (announced-extra f c len rate) (tags_read f 1 rest n x c ∙ skip_tags_one rest))
