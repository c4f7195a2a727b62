-- ===== src/Packet/Entry.antt =====
-- src/packet.c: an entry of a search result, as a reader of the protocol takes it.
use ed2kd.Base.{
  ℕ, ◌^◌, ◌≤◌, ◌<◌, ◌≡◌, refl, Bool, true, false, some, List, [], ◌++◌, arith, le16, le32, length,
  length-append, ltb, to_bit, append_assoc, ◌∙◌, ap,
}
use ed2kd.Packet.SearchFile.{SearchFile, announced, entry_header, write_search_file}
use ed2kd.Packet.Skip.{skip-append, skip, skip_tags, skip_count, skip_entry}
use ed2kd.Packet.Tags.{Fits, write_search_file-tags, written, tags_read, announced-written}

skip_front : (n : ℕ) (xs ys : List ℕ) → length xs ≡ n → skip n (xs ++ ys) ≡ some ys
skip_front n xs ys h = rw (← h) (skip-append xs ys)

skip_count-le32 :
    (n : ℕ) (bytes : List ℕ) → n < 2 ^ 32 → skip_count (le32 n ++ bytes) ≡ skip_tags n bytes
unfolding skip_count
skip_count-le32 n bytes h = ap (λ (k : ℕ). skip_tags k bytes) (omega arith)

skip_entry_front :
    (front bytes : List ℕ) (n : ℕ)
    → length front ≡ 22
    → n < 2 ^ 32
    → skip_entry (front ++ (le32 n ++ bytes)) ≡ skip_tags n bytes
unfolding skip_entry
skip_entry_front front bytes n h k =
    rw (skip_front 22 front (le32 n ++ bytes) h, skip_entry) (skip_count-le32 n bytes k)

to_bit-le : (b : Bool) → to_bit b ≤ 1
to_bit-le true = omega arith
to_bit-le false = omega arith

announced-lt : (f : SearchFile) → announced f < 2 ^ 32
unfolding announced
announced-lt f = omega (
  arith,
  to_bit-le (ltb 0 f.ext_len),
  to_bit-le (ltb 0 f.rated_count),
  to_bit-le (ltb 0 f.media_length),
  to_bit-le (ltb 0 f.media_codec_len),
)

entry_header_front :
    (f : SearchFile) (bytes : List ℕ)
    → entry_header f ++ bytes
      ≡ (f.hash ++ (le32 f.client_id ++ le16 f.client_port)) ++ (le32 (announced f) ++ bytes)
unfolding entry_header
entry_header_front f bytes = simp append_assoc

pub entry_read :
    (f : SearchFile) (bytes : List ℕ)
    → length f.hash ≡ 16
    → skip_entry (entry_header f ++ bytes) ≡ skip_tags (announced f) bytes
entry_read f bytes h = rw (entry_header_front f bytes) (
    skip_entry_front _ bytes (announced f)
      (omega (arith, length-append f.hash (le32 f.client_id ++ le16 f.client_port)))
      (announced-lt f))

-- An entry of a search result, of a file without a codec whose length and bit rate are both known
-- or both unknown, is read over exactly: a reader that takes as many tags as the entry announces
-- comes to whatever follows the entry.
pub write_search_file-skip_entry :
    (f : SearchFile) (rest : List ℕ)
    → length f.hash ≡ 16
    → Fits f.name f.name_len
    → Fits f.ext f.ext_len
    → f.media_codec_len ≡ 0
    → ltb 0 f.media_length ≡ ltb 0 f.media_bitrate
    → skip_entry (write_search_file [] f ++ rest) ≡ some rest
write_search_file-skip_entry f rest h n x c same = rw (write_search_file-tags f rest) (
    entry_read f _ h
    ∙ rw
        (announced-written f c
          ∙ ap
              (λ (b : Bool).
                written (ltb 0 f.ext_len) (ltb 0 f.rated_count) (ltb 0 f.media_length) b 0)
              same)
        (tags_read f 0 rest n x c ∙ unfold skip_tags in refl))
