-- ===== src/Packet/Tags.antt =====
-- src/packet.c: the tags of write_search_file, as a reader of the protocol takes them.
use ed2kd.Base.{
  ℕ, suc, ◌+◌, ◌*◌, ◌/◌, ◌%◌, ◌≤◌, ◌<◌, ◌≡◌, refl, Bool, true, false, some, List, [], ◌++◌, arith,
  length, length-take, take, ltb, if◌then◌else◌, to_bit, append_assoc, ◌∙◌,
}
use ed2kd.Proto.Tt
use ed2kd.Proto.Tn
use ed2kd.Packet.{tag_header, tag_strval}
use ed2kd.Packet.SearchFile.{
  SearchFile, announced, entry_header, name_tag, size_tag, ext_tag, sources_tag, complete_tag,
  rating_tag, length_tag, bitrate_tag, codec_tag, write_search_file,
}
use ed2kd.Packet.Skip.{skip-append, skip_tag, skip_tags}

-- A text and its length, as a tag can hold it.
abbrev pub Fits : List ℕ → ℕ → Type 0
Fits str len = (len ≤ length str) × (len < 65536)

text_tag :
    (name : ℕ) (str : List ℕ) (len : ℕ) (rest : List ℕ)
    → Fits str len
    → skip_tag ((tag_header Tt.string name ++ tag_strval str len) ++ rest) ≡ some rest
unfolding skip_tag
text_tag name str len rest (h, k) =
    let e : len % 256 + 256 * (len / 256 % 256) ≡ length (take len str) =
      omega (arith, length-take len str) in
    rw e (skip-append (take len str) rest)

-- A tag that is there is read over.
one_tag :
    (k : ℕ) (t rest : List ℕ)
    → skip_tag (t ++ rest) ≡ some rest
    → skip_tags (suc k) (t ++ rest) ≡ skip_tags k rest
unfolding skip_tags
one_tag k t rest h = rw (h, skip_tags)

-- A tag that is counted if it is there.
maybe_tag :
    (b : Bool) (k : ℕ) (t rest : List ℕ)
    → (b ≡ true → skip_tag (t ++ rest) ≡ some rest)
    → skip_tags (to_bit b + k) ((if b then t else []) ++ rest) ≡ skip_tags k rest
maybe_tag true k t rest h = let e : 1 + k ≡ suc k = omega arith in rw e (one_tag k t rest (h refl))
maybe_tag false k t rest h = let e : 0 + k ≡ k = omega arith in rw e

-- The tags of an entry, and what follows the entry.
unfoldable pub tags_then : SearchFile → List ℕ → List ℕ
tags_then f rest =
    name_tag f
    ++ (size_tag f
        ++ (ext_tag f
            ++ (sources_tag f
                ++ (complete_tag f
                    ++ (rating_tag f
                        ++ (length_tag f ++ (bitrate_tag f ++ (codec_tag f ++ rest))))))))

pub write_search_file-tags :
    (f : SearchFile) (rest : List ℕ)
    → write_search_file [] f ++ rest ≡ entry_header f ++ tags_then f rest
unfolding write_search_file tags_then
write_search_file-tags f rest = simp append_assoc

-- How many tags are written, of a file without a codec.
unfoldable pub written : Bool → Bool → Bool → Bool → ℕ → ℕ
written ext rating len bitrate k =
    suc (suc (to_bit ext + suc (suc (to_bit rating + (to_bit len + (to_bit bitrate + k))))))

name_tag_step :
    (f : SearchFile) (k : ℕ) (rest : List ℕ)
    → Fits f.name f.name_len
    → skip_tags (suc k) (name_tag f ++ rest) ≡ skip_tags k rest
unfolding name_tag
name_tag_step f k rest n =
    one_tag k (name_tag f) rest (text_tag Tn.filename f.name f.name_len rest n)

ext_tag_step :
    (f : SearchFile) (k : ℕ) (rest : List ℕ)
    → Fits f.ext f.ext_len
    → skip_tags (to_bit (ltb 0 f.ext_len) + k) (ext_tag f ++ rest) ≡ skip_tags k rest
unfolding ext_tag
ext_tag_step f k rest x =
    maybe_tag (ltb 0 f.ext_len) k _ rest (λ _. text_tag Tn.fileformat f.ext f.ext_len rest x)

size_tag_step :
    (f : SearchFile) (k : ℕ) (rest : List ℕ)
    → skip_tags (suc k) (size_tag f ++ rest) ≡ skip_tags k rest
unfolding size_tag skip_tag
size_tag_step f k rest = one_tag k (size_tag f) rest refl

sources_tag_step :
    (f : SearchFile) (k : ℕ) (rest : List ℕ)
    → skip_tags (suc k) (sources_tag f ++ rest) ≡ skip_tags k rest
unfolding sources_tag skip_tag
sources_tag_step f k rest = one_tag k (sources_tag f) rest refl

complete_tag_step :
    (f : SearchFile) (k : ℕ) (rest : List ℕ)
    → skip_tags (suc k) (complete_tag f ++ rest) ≡ skip_tags k rest
unfolding complete_tag skip_tag
complete_tag_step f k rest = one_tag k (complete_tag f) rest refl

rating_tag_step :
    (f : SearchFile) (k : ℕ) (rest : List ℕ)
    → skip_tags (to_bit (ltb 0 f.rated_count) + k) (rating_tag f ++ rest) ≡ skip_tags k rest
unfolding rating_tag skip_tag
rating_tag_step f k rest = maybe_tag (ltb 0 f.rated_count) k _ rest (λ _. refl)

length_tag_step :
    (f : SearchFile) (k : ℕ) (rest : List ℕ)
    → skip_tags (to_bit (ltb 0 f.media_length) + k) (length_tag f ++ rest) ≡ skip_tags k rest
unfolding length_tag skip_tag
length_tag_step f k rest = maybe_tag (ltb 0 f.media_length) k _ rest (λ _. refl)

bitrate_tag_step :
    (f : SearchFile) (k : ℕ) (rest : List ℕ)
    → skip_tags (to_bit (ltb 0 f.media_bitrate) + k) (bitrate_tag f ++ rest) ≡ skip_tags k rest
unfolding bitrate_tag skip_tag
bitrate_tag_step f k rest = maybe_tag (ltb 0 f.media_bitrate) k _ rest (λ _. refl)

codec_tag_none : (f : SearchFile) → f.media_codec_len ≡ 0 → codec_tag f ≡ []
unfolding codec_tag
codec_tag_none f c = ground arith

pub tags_read :
    (f : SearchFile) (k : ℕ) (rest : List ℕ)
    → Fits f.name f.name_len
    → Fits f.ext f.ext_len
    → f.media_codec_len ≡ 0
    → skip_tags
        (written
          (ltb 0 f.ext_len)
          (ltb 0 f.rated_count)
          (ltb 0 f.media_length)
          (ltb 0 f.media_bitrate)
          k)
        (tags_then f rest)
      ≡ skip_tags k rest
unfolding tags_then written
tags_read f k rest n x c =
    name_tag_step f _ _ n
    ∙ size_tag_step f _ _
    ∙ ext_tag_step f _ _ x
    ∙ sources_tag_step f _ _
    ∙ complete_tag_step f _ _
    ∙ rating_tag_step f _ _
    ∙ length_tag_step f _ _
    ∙ bitrate_tag_step f _ _
    ∙ rw (codec_tag_none f c)

-- The number of tags that the entry announces, in the order in which they are written.
pub announced-written :
    (f : SearchFile)
    → f.media_codec_len ≡ 0
    → announced f
      ≡ written
          (ltb 0 f.ext_len)
          (ltb 0 f.rated_count)
          (ltb 0 f.media_length)
          (ltb 0 f.media_length)
          0
unfolding announced written
announced-written f c = rw c (omega arith)
