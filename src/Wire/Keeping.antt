-- ===== src/Wire/Keeping.antt =====
-- Properties of the state that a handler keeps, whichever way it leaves its statements.
use ed2kd.Base.{
  ℕ, ◌+◌, ◌≤◌, ◌≡◌, Bool, true, false, List, arith, leb, if◌then◌else◌, length, load16, load32,
  block, length-block,
}
use ed2kd.Wire.{
  Out, go, malformed, P, ◌>>=◌, check, modify, seek, here, pure, read16_into, read32_into, read32,
  read16, memcpy_into, read_string_into, skip_taghdr, clip,
}

abbrev pub Holds : {S A : Type 0} → (S → Type 0) → Out S A → Type 0
Holds I (go p s a) = I s
Holds I (malformed s) = I s

pub record Keeps {S A : Type 0} (I : S → Type 0) (f : P S A) : Type 0 where
  pub keep : (p : ℕ) (s : S) → I s → Holds I (f p s)

module _ {S : Type 0} (I : S → Type 0) where
  pub Holds->>= :
      {A B : Type 0} (o : Out S A) (g : A → P S B)
      → Holds I o
      → ((a : A) → Keeps I (g a))
      → Holds I (let r : Out S B = elim o [ go p s a ↦ g a p s | malformed s ↦ malformed s ] in r)
  Holds->>= (go p s a) g h k = (k a).keep p s h
  Holds->>= (malformed s) g h k = h

  pub Keeps->>= :
      {A B : Type 0} (f : P S A) (g : A → P S B)
      → Keeps I f
      → ((a : A) → Keeps I (g a))
      → Keeps I (f >>= g)
  Keeps->>= f g hf hg = record { keep = λ p s h. Holds->>= (f p s) g (hf.keep p s h) hg }

  pub Keeps-if :
      {A : Type 0} (b : Bool) (f g : P S A) → Keeps I f → Keeps I g → Keeps I (if b then f else g)
  Keeps-if true f g hf hg = hf
  Keeps-if false f g hf hg = hg

  pub Keeps-pure : {A : Type 0} (a : A) → Keeps I (pure a)
  Keeps-pure a = record { keep = λ p s h. h }

  pub Keeps-here : Keeps I here
  Keeps-here = record { keep = λ p s h. h }

  pub Keeps-check : (b : Bool) → Keeps I (check b)
  unfolding check
  Keeps-check true = record { keep = λ p s h. h }
  Keeps-check false = record { keep = λ p s h. h }

  pub Keeps-modify : (f : S → S) → ((s : S) → I s → I (f s)) → Keeps I (modify f)
  Keeps-modify f k = record { keep = λ p s h. k s h }

  Holds-if :
      {A : Type 0} (b : Bool) (p : ℕ) (s s' : S) (a : A)
      → I s
      → Holds I (if b then go p s a else malformed s)
  Holds-if true p s s' a h = h
  Holds-if false p s s' a h = h

  pub Keeps-seek : (e off : ℕ) → Keeps I (seek e off)
  unfolding seek
  Keeps-seek e off = record { keep = λ p s h. Holds-if (leb (p + off) e) _ s s _ h }

  pub Keeps-skip_taghdr : (m : ℕ → ℕ) (e at : ℕ) → Keeps I (skip_taghdr m e at)
  unfolding skip_taghdr
  Keeps-skip_taghdr m e at = record { keep = λ p s h. Holds-if (leb _ e) _ s s _ h }

  pub Keeps-read16 : (m : ℕ → ℕ) (e : ℕ) → Keeps I (read16 m e)
  unfolding read16
  Keeps-read16 m e = record { keep = λ p s h. Holds-if (leb (p + 2) e) _ s s _ h }

  pub Keeps-read32 : (m : ℕ → ℕ) (e : ℕ) → Keeps I (read32 m e)
  unfolding read32
  Keeps-read32 m e = record { keep = λ p s h. Holds-if (leb (p + 4) e) _ s s _ h }

  pub Keeps-read16_into :
      (m : ℕ → ℕ) (e : ℕ) (put : ℕ → S → S)
      → ((v : ℕ) (s : S) → I s → I (put v s))
      → Keeps I (read16_into m e put)
  unfolding read16_into
  Keeps-read16_into m e put k = record {
    keep = λ p s h. Holds-if (leb (p + 2) e) _ (put (load16 m p) s) s _ (k _ s h);
  }

  pub Keeps-read32_into :
      (m : ℕ → ℕ) (e : ℕ) (put : ℕ → S → S)
      → ((v : ℕ) (s : S) → I s → I (put v s))
      → Keeps I (read32_into m e put)
  unfolding read32_into
  Keeps-read32_into m e put k = record {
    keep = λ p s h. Holds-if (leb (p + 4) e) _ (put (load32 m p) s) s _ (k _ s h);
  }

  -- What is copied has the length that was asked for.
  pub Keeps-memcpy_into :
      (m : ℕ → ℕ) (e n : ℕ) (put : List ℕ → S → S)
      → ((bytes : List ℕ) (s : S) → length bytes ≡ n → I s → I (put bytes s))
      → Keeps I (memcpy_into m e n put)
  unfolding memcpy_into
  Keeps-memcpy_into m e n put k = record {
    keep = λ p s h.
        Holds-if (leb (p + n) e) _ (put (block m p n) s) s _ (k _ s (length-block m p n) h);
  }

  clip-le-max : (len max_len : ℕ) → clip len max_len ≤ max_len
  clip-le-max len max_len = ground arith

  -- A text is clipped to the room that there is for it.
  pub Keeps-read_string_into :
      (m : ℕ → ℕ) (e max_len : ℕ) (put : List ℕ → S → S)
      → ((bytes : List ℕ) (s : S) → length bytes ≤ max_len → I s → I (put bytes s))
      → Keeps I (read_string_into m e max_len put)
  unfolding read_string_into
  Keeps-read_string_into m e max_len put k = Keeps->>= _ _ (Keeps-read16 m e) (λ len. record {
    keep = λ p s h.
        Holds-if (leb (p + len) e) _ (put (block m p (clip len max_len)) s) s _
          (k _ s (omega (arith, length-block m p (clip len max_len), clip-le-max len max_len)) h);
  })
