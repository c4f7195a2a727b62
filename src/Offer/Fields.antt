-- ===== src/Offer/Fields.antt =====
-- src/server.c, process_offer_files: what it stores in a struct pub_file.
use ed2kd.Base.{
  ℕ, zero, suc, ◌≤◌, ◌≡◌, refl, Bool, true, false, List, arith, ◌==◌, ◌&&◌, length, if◌then◌else◌,
  ltb, leb, leb→le, All, inl, inr,
}
use ed2kd.Proto.{max_filename_len, max_mcodec_len, ed2k_hash_size}
use ed2kd.Proto.Tt
use ed2kd.Proto.Tn
use ed2kd.Proto.Tns
use ed2kd.Util.FileType.{strncmp_eq}
use ed2kd.Db.{PubFile}
use mathlib.Core.Path.{subst}
use ed2kd.Wire.{
  check, read32, go, malformed, ◌>>=◌, ◌>>◌, Out, clip, tag_type, tag_name_len, tag_name_at,
}
use ed2kd.Wire.Locality.{Out-cases}
use ed2kd.Wire.Keeping.{
  Holds, Keeps, Keeps->>=, Keeps-if, Holds->>=, Keeps-here, Keeps-check, Keeps-modify, Keeps-seek,
  Keeps-skip_taghdr, Keeps-read16, Keeps-read32, Keeps-memcpy_into, Keeps-read_string_into,
}
use ed2kd.Offer.{
  no_file, set_hash, set_name, set_codec, named_value, filename_value, filesize_value,
  filesize_hi_value, filerating_value, filetype_value, offer_value, offer_tag, offer_tags,
  offer_file, offer_files, parse_offer,
}

-- The name, the codec and the rating are within their limits. The codec's length stays 0: no
-- statement of the handler sets it.
abbrev pub FileFits : PubFile → Type 0
FileFits f =
    (f.name_len ≤ max_filename_len)
    × (length f.name ≤ max_filename_len)
    × (length f.media_codec ≤ max_mcodec_len)
    × (f.media_codec_len ≡ 0)
    × (f.rating ≤ 5)

-- The files that a packet offers, if it is not malformed: at most n, and all within the limits.
abbrev pub Offered : ℕ → Out (Unit {0}) (List PubFile) → Type 0
Offered n (malformed s) = Unit
Offered n (go p s files) = (length files ≤ n) × All FileFits files

module _ (m : ℕ → ℕ) (e : ℕ) where
  clip_fits : (len : ℕ) → clip len max_filename_len ≤ max_filename_len
  clip_fits len = ground arith

  rating_fits : (v : ℕ) → (if ltb 5 v then 5 else v) ≤ 5
  rating_fits v = ground arith

  complete_fits :
      (b : Bool) (f : PubFile)
      → FileFits f
      → FileFits (if b then record f { complete = true } else f)
  complete_fits true f h = h
  complete_fits false f h = h

  keep_filename : (type : ℕ) → Keeps FileFits (filename_value m e type)
  unfolding filename_value
  keep_filename type = Keeps->>= FileFits _ _ (Keeps-check FileFits _) (λ _.
      Keeps->>= FileFits _ _ (Keeps-read16 FileFits m e) (λ len.
        Keeps->>= FileFits _ _
          (Keeps-modify FileFits _ (λ f h. (clip_fits len, h.1, h.2, h.3, h.4)))
          (λ _.
            Keeps-memcpy_into FileFits m e (clip len max_filename_len) set_name
              (λ bytes f k h. (h.0, omega (arith, clip_fits len), h.2, h.3, h.4)))))

  keep_filesize : (type : ℕ) → Keeps FileFits (filesize_value m e type)
  unfolding filesize_value
  keep_filesize type = Keeps->>= FileFits _ _ (Keeps-check FileFits _) (λ _.
      Keeps->>= FileFits _ _ (Keeps-read32 FileFits m e) (λ v. Keeps-modify FileFits _ (λ f h. h)))

  keep_filesize_hi : (type : ℕ) → Keeps FileFits (filesize_hi_value m e type)
  unfolding filesize_hi_value
  keep_filesize_hi type = Keeps->>= FileFits _ _ (Keeps-check FileFits _) (λ _.
      Keeps->>= FileFits _ _ (Keeps-read32 FileFits m e) (λ v. Keeps-modify FileFits _ (λ f h. h)))

  keep_filerating : (type : ℕ) → Keeps FileFits (filerating_value m e type)
  unfolding filerating_value
  keep_filerating type = Keeps->>= FileFits _ _ (Keeps-check FileFits _) (λ _.
      Keeps->>= FileFits _ _ (Keeps-read32 FileFits m e)
        (λ v. Keeps-modify FileFits _ (λ f h. (h.0, h.1, h.2, h.3, rating_fits v))))

  keep_filetype : (type : ℕ) → Keeps FileFits (filetype_value m e type)
  unfolding filetype_value
  keep_filetype type =
      Keeps-if FileFits (type == Tt.uint32) _ _
        (Keeps->>= FileFits _ _ (Keeps-read32 FileFits m e)
          (λ v. Keeps-modify FileFits _ (λ f h. h)))
        (Keeps-if FileFits (type == Tt.string) _ _
          (Keeps->>= FileFits _ _ (Keeps-read16 FileFits m e) (λ len.
            Keeps->>= FileFits _ _ (Keeps-here FileFits) (λ at.
              Keeps->>= FileFits _ _ (Keeps-modify FileFits _ (λ f h. h))
                (λ _. Keeps-seek FileFits e len))))
          (Keeps-check FileFits false))

  keep_named : (type name_at name_len : ℕ) → Keeps FileFits (named_value m e type name_at name_len)
  unfolding named_value
  keep_named type name_at name_len =
      Keeps-if FileFits (strncmp_eq Tns.media_length m name_at name_len) _ _
        (Keeps-if FileFits (type == Tt.uint32) _ _
          (Keeps->>= FileFits _ _ (Keeps-read32 FileFits m e)
            (λ v. Keeps-modify FileFits _ (λ f h. h)))
          (Keeps-if FileFits (type == Tt.string) _ _
            (Keeps->>= FileFits _ _ (Keeps-read16 FileFits m e) (λ len. Keeps-seek FileFits e len))
            (Keeps-check FileFits false)))
        (Keeps-if FileFits (strncmp_eq Tns.media_bitrate m name_at name_len) _ _
          (Keeps->>= FileFits _ _ (Keeps-check FileFits _) (λ _.
            Keeps->>= FileFits _ _ (Keeps-read32 FileFits m e)
              (λ v. Keeps-modify FileFits _ (λ f h. h))))
          (Keeps-if FileFits (strncmp_eq Tns.media_codec m name_at name_len) _ _
            (Keeps->>= FileFits _ _ (Keeps-check FileFits _) (λ _.
              Keeps-read_string_into FileFits m e max_mcodec_len set_codec
                (λ bytes f k h. (h.0, h.1, k, h.3, h.4))))
            (Keeps-check FileFits false)))

  keep_value : (type name : ℕ) → Keeps FileFits (offer_value m e type name)
  unfolding offer_value
  keep_value type name = Keeps-if FileFits (name == Tn.filename) _ _ (keep_filename type) (
      Keeps-if FileFits (name == Tn.filesize) _ _ (keep_filesize type) (
        Keeps-if FileFits (name == Tn.filesize_hi) _ _ (keep_filesize_hi type) (
          Keeps-if FileFits (name == Tn.filerating) _ _ (keep_filerating type) (
            Keeps-if FileFits (name == Tn.filetype) _ _ (keep_filetype type)
              (Keeps-check FileFits false)))))

  keep_tag : Keeps FileFits (offer_tag m e)
  unfolding offer_tag
  keep_tag = Keeps->>= FileFits _ _ (Keeps-here FileFits) (λ at.
      Keeps->>= FileFits _ _ (Keeps-check FileFits _) (λ _.
        Keeps->>= FileFits _ _ (Keeps-skip_taghdr FileFits m e at) (λ _.
          Keeps-if FileFits (ltb 1 (tag_name_len m at)) _ _
            (keep_named (tag_type m at) (tag_name_at at) (tag_name_len m at))
            (keep_value (tag_type m at) (m (tag_name_at at))))))

  keep_tags : (n : ℕ) → Keeps FileFits (offer_tags m e n)
  unfolding offer_tags
  keep_tags zero = record { keep = λ p f h. h }
  keep_tags (suc n) =
      let ih = keep_tags n in
      record {
        keep = λ p f h.
            Holds->>= FileFits (offer_tag m e p f) (λ _. offer_tags m e n) (keep_tag.keep p f h)
              (λ _. ih);
      }

  keep_file : Keeps FileFits (offer_file m e)
  unfolding offer_file
  keep_file =
      Keeps->>= FileFits _ _
        (Keeps-memcpy_into FileFits m e ed2k_hash_size set_hash (λ bytes f k h. h))
        (λ _. Keeps->>= FileFits _ _ (Keeps-read32 FileFits m e) (λ id.
          Keeps->>= FileFits _ _ (Keeps-read16 FileFits m e) (λ port.
            Keeps->>= FileFits _ _
              (Keeps-modify FileFits _ (complete_fits (0xfbfbfbfb == id && 0xfbfb == port)))
              (λ _. Keeps->>= FileFits _ _ (Keeps-read32 FileFits m e) (λ n. keep_tags n)))))

  one_more :
      (n p : ℕ) (s : Unit {0}) (o : Out PubFile (Unit {0}))
      → Holds FileFits o
      → ((p' : ℕ) → Offered n (offer_files m e n p' s))
      → offer_file m e p no_file ≡ o
      → Offered (suc n) (offer_files m e (suc n) p s)
  unfolding offer_files
  one_more n p s (malformed f) h ih eq = rw (eq, offer_files, Offered) tt
  one_more n p s (go p' f u) h ih eq = elim (Out-cases (offer_files m e n p' s)) [
    | inl (q, t, files, eq') ↦
        let fit = subst (Offered n) eq' (ih p') in
        rw (eq, eq', offer_files, Offered) (omega (arith, fit.0), (h, fit.1))
    | inr (t, eq') ↦ rw (eq, eq', offer_files, Offered) tt
  ]

  all_fit : (n p : ℕ) (s : Unit {0}) → Offered n (offer_files m e n p s)
  unfolding offer_files
  all_fit zero p s = (omega arith, tt)
  all_fit (suc n) p s =
      one_more n p s _
        (keep_file.keep p no_file (omega arith, omega arith, omega arith, refl, omega arith))
        (λ p'. all_fit n p' s) refl

  Offered-le : (n k : ℕ) (o : Out (Unit {0}) (List PubFile)) → n ≤ k → Offered n o → Offered k o
  Offered-le n k (malformed s) le h = tt
  Offered-le n k (go p s files) le h = (omega (arith, h.0), h.1)

  counted :
      (count : ℕ) (b : Bool) (p : ℕ)
      → leb count 200 ≡ b
      → Offered 200 ((check b >> offer_files m e count) p tt)
  unfolding check
  counted count true p h = Offered-le count 200 _ (leb→le count 200 h) (all_fit count p tt)
  counted count false p h = tt

  -- Whatever the packet holds, an offer is malformed or gives at most 200 files, and each of them
  -- has a name of at most 255 bytes, a codec of at most 64, a rating of at most 5, and a codec
  -- length of 0.
  pub parse_offer-FileFits : (p : ℕ) → Offered 200 (parse_offer m e p tt)
  unfolding parse_offer
  parse_offer-FileFits p = elim (Out-cases (read32 m e p tt)) [
    | inl (p', s, count, eq) ↦ rw (eq, ◌>>=◌) (counted count (leb count 200) p' refl)
    | inr (s, eq) ↦ rw (eq, ◌>>=◌) tt
  ]
