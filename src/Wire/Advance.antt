-- ===== src/Wire/Advance.antt =====
-- src/packet.h: the address at which a handler goes on.
use ed2kd.Base.{ℕ, ◌+◌, ◌≤◌, ◌≡◌, Bool, true, false, arith, leb, if◌then◌else◌, inl, inr}
use ed2kd.Wire.{P, Out, go, malformed, ◌>>=◌, check, seek, here, pure, read8, read16, read32}
use ed2kd.Wire.Locality.{Out-cases}

pub record Advances {S A : Type 0} (f : P S A) : Type 0 where
  pub adv : (p : ℕ) (s : S) (p' : ℕ) (s' : S) (a : A) → f p s ≡ go p' s' a → p ≤ p'

-- The address at which a handler goes on, or the one where it started.
abbrev at_go : {S A : Type 0} → ℕ → Out S A → ℕ
at_go p (go p' s a) = p'
at_go p (malformed s) = p

le_of_go :
    {S A : Type 0} {p p' : ℕ} {s' : S} {a : A} (o : Out S A)
    → p ≤ at_go p o
    → o ≡ go p' s' a
    → p ≤ p'
le_of_go (go q t b) h eq = ground arith
le_of_go (malformed t) h eq = cc

pub Advances->>= :
    {S A B : Type 0} (f : P S A) (g : A → P S B)
    → Advances f
    → ((a : A) → Advances (g a))
    → Advances (f >>= g)
Advances->>= f g hf hg = record {
  adv = λ p s p' s' b e. elim (Out-cases (f p s)) [
    | inl (q, t, a, h) ↦
        omega (arith, hf.adv p s q t a h, (hg a).adv q t p' s' b (rw (h, ◌>>=◌) at e))
    | inr (t, h) ↦ cc (rw (h, ◌>>=◌) at e)
  ];
}

pub Advances-if :
    {S A : Type 0} (b : Bool) (f g : P S A)
    → Advances f
    → Advances g
    → Advances (if b then f else g)
Advances-if true f g hf hg = hf
Advances-if false f g hf hg = hg

pub Advances-pure : {S A : Type 0} (a : A) → Advances {S = S} (pure a)
Advances-pure a = record { adv = λ p s p' s' b e. le_of_go (go p s a) (omega arith) e }

pub Advances-here : {S : Type 0} → Advances {S = S} {A = ℕ} here
Advances-here {S} = record { adv = λ p s p' s' b e. le_of_go {S = S} (go p s p) (omega arith) e }

pub Advances-check : {S : Type 0} (b : Bool) → Advances {S = S} (check b)
unfolding check
Advances-check {S} true = record {
  adv = λ p s p' s' b e. le_of_go {S = S} (go p s tt) (omega arith) e;
}
Advances-check {S} false = record { adv = λ p s p' s' b e. cc }

moves :
    {S A : Type 0} (b : Bool) (n : ℕ) (a : A) (p : ℕ) (s : S) (p' : ℕ) (s' : S) (c : A)
    → (if b then go (p + n) s a else malformed s) ≡ go p' s' c
    → p ≤ p'
moves true n a p s p' s' c e = le_of_go (go (p + n) s a) (omega arith) e
moves false n a p s p' s' c e = cc

pub Advances-seek : {S : Type 0} (e off : ℕ) → Advances {S = S} (seek e off)
unfolding seek
Advances-seek e off = record { adv = λ p s p' s' a h. moves (leb (p + off) e) off tt p s p' s' a h }

pub Advances-read8 : {S : Type 0} (m : ℕ → ℕ) (e : ℕ) → Advances {S = S} {A = ℕ} (read8 m e)
unfolding read8
Advances-read8 m e = record { adv = λ p s p' s' a h. moves (leb (p + 1) e) 1 _ p s p' s' a h }

pub Advances-read16 : {S : Type 0} (m : ℕ → ℕ) (e : ℕ) → Advances {S = S} {A = ℕ} (read16 m e)
unfolding read16
Advances-read16 m e = record { adv = λ p s p' s' a h. moves (leb (p + 2) e) 2 _ p s p' s' a h }

pub Advances-read32 : {S : Type 0} (m : ℕ → ℕ) (e : ℕ) → Advances {S = S} {A = ℕ} (read32 m e)
unfolding read32
Advances-read32 m e = record { adv = λ p s p' s' a h. moves (leb (p + 4) e) 4 _ p s p' s' a h }

pub ruleset advance = (
  Advances->>=, Advances-if, Advances-pure, Advances-here, Advances-check, Advances-seek,
  Advances-read8, Advances-read16, Advances-read32,
)
