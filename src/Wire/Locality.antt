-- ===== src/Wire/Locality.antt =====
-- src/packet.h: handlers on two memories that hold the same packet.
use ed2kd.Base.{ℕ, ◌+◌, ◌≤◌, ◌<◌, ◌≡◌, refl, List, arith, leb, load16, load32}
use ed2kd.Base.{block, block-agree, if◌then◌else◌, Bool-cases, inl, inr, leb→le, ◌⊎◌}
use ed2kd.Wire.{
  Out, go, malformed, P, ◌>>=◌, read16_into, read32_into, read32, read16, memcpy_into,
  read_string_into, clip,
}

-- Two memories that hold the same packet, up to its end.
abbrev pub Agree : (ℕ → ℕ) → (ℕ → ℕ) → ℕ → Type 0
Agree m m' e = (i : ℕ) → i < e → m i ≡ m' i

-- Where the first handler goes on, the second does the same.
pub record Same {S A : Type 0} (f g : P S A) : Type 0 where
  pub run : (p : ℕ) (s : S) (p' : ℕ) (s' : S) (a : A) → f p s ≡ go p' s' a → g p s ≡ go p' s' a

pub Out-cases :
    {S A : Type 0} (o : Out S A)
    → ((p : ℕ) × (s : S) × (a : A) × (o ≡ go p s a)) ⊎ ((s : S) × (o ≡ malformed s))
Out-cases (go p s a) = inl (p, s, a, refl)
Out-cases (malformed s) = inr (s, refl)

pub Same->>= :
    {S A B : Type 0} (f f' : P S A) (g g' : A → P S B)
    → Same f f'
    → ((a : A) → Same (g a) (g' a))
    → Same (f >>= g) (f' >>= g')
Same->>= f f' g g' hf hg = record {
  run = λ p s p' s' b e. elim (Out-cases (f p s)) [
    | inl (q, t, a, h) ↦
        rw (hf.run p s q t a h, ◌>>=◌) ((hg a).run q t p' s' b (rw (h, ◌>>=◌) at e))
    | inr (t, h) ↦ cc (rw (h, ◌>>=◌) at e)
  ];
}

pub Same-refl : {S A : Type 0} (f : P S A) → Same f f
Same-refl f = record { run = λ p s p' s' a e. e }

clip-le : (len max_len : ℕ) → clip len max_len ≤ len
clip-le len max_len = ground arith

module _ (m m' : ℕ → ℕ) (e : ℕ) (h : Agree m m' e) where
  load16-agree : (p : ℕ) → p + 2 ≤ e → load16 m p ≡ load16 m' p
  load16-agree p le = omega (arith, h p (omega arith), h (p + 1) (omega arith))

  load32-agree : (p : ℕ) → p + 4 ≤ e → load32 m p ≡ load32 m' p
  load32-agree p le = omega (
    arith,
    h p (omega arith),
    h (p + 1) (omega arith),
    h (p + 2) (omega arith),
    h (p + 3) (omega arith),
  )

  -- An operation that moves by n bytes and takes a value from them.
  reads :
      {S A V : Type 0} (n : ℕ) (v : (ℕ → ℕ) → ℕ → V) (st : V → S → S) (out : V → A)
      → ((p : ℕ) → p + n ≤ e → v m p ≡ v m' p)
      → Same
          (λ p s.
            if leb (p + n) e
            then go (p + n) (st (v m p) s) (out (v m p))
            else malformed (st (v m p) s))
          (λ p s.
            if leb (p + n) e
            then go (p + n) (st (v m' p) s) (out (v m' p))
            else malformed (st (v m' p) s))
  reads n v st out agree = record {
    run = λ p s p' s' a eq. elim (Bool-cases (leb (p + n) e)) [
      | inl fits ↦ rw (← agree p (leb→le _ _ fits)) eq
      | inr short ↦ cc (rw short at eq)
    ];
  }

  pub Same-read16_into :
      {S : Type 0} (put : ℕ → S → S) → Same (read16_into m e put) (read16_into m' e put)
  unfolding read16_into
  Same-read16_into put = reads 2 load16 put (λ _. tt) load16-agree

  pub Same-read32_into :
      {S : Type 0} (put : ℕ → S → S) → Same (read32_into m e put) (read32_into m' e put)
  unfolding read32_into
  Same-read32_into put = reads 4 load32 put (λ _. tt) load32-agree

  pub Same-read16 : {S : Type 0} → Same {S = S} {A = ℕ} (read16 m e) (read16 m' e)
  unfolding read16
  Same-read16 = reads 2 load16 (λ _ s. s) (λ v. v) load16-agree

  pub Same-read32 : {S : Type 0} → Same {S = S} {A = ℕ} (read32 m e) (read32 m' e)
  unfolding read32
  Same-read32 = reads 4 load32 (λ _ s. s) (λ v. v) load32-agree

  pub Same-memcpy_into :
      {S : Type 0} (n : ℕ) (put : List ℕ → S → S)
      → Same (memcpy_into m e n put) (memcpy_into m' e n put)
  unfolding memcpy_into
  Same-memcpy_into n put =
      reads n (λ k p. block k p n) put (λ _. tt) (λ p le. block-agree m m' e p n h le)

  pub Same-read_string_into :
      {S : Type 0} (max_len : ℕ) (put : List ℕ → S → S)
      → Same (read_string_into m e max_len put) (read_string_into m' e max_len put)
  unfolding read_string_into
  Same-read_string_into max_len put = Same->>= _ _ _ _ Same-read16 (λ len.
      reads len (λ k p. block k p (clip len max_len)) put (λ _. tt)
        (λ p le. block-agree m m' e p (clip len max_len) h (omega (arith, clip-le len max_len))))
