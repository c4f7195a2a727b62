-- ===== src/Eb/Loop.antt =====
-- eb/src/main.c: the loop of read_cb.
use ed2kd.Base.{
  ℕ, zero, suc, ◌+◌, ◌≤◌, ◌<◌, ◌≡◌, refl, Bool, true, false, List, Option, none, some, ◌⊎◌, inl,
  inr, arith, leb, ltb, if◌then◌else◌, length, drop, length-drop, load32, place, leb→le, ltb→lt,
  Option-cases,
}
use mathlib.Core.Path.{subst}
use ed2kd.Eb.{EbClient, read_loop, read_cb}

-- No packet is whole: there is no more than a header, or less than the header announces.
abbrev pub IsShort : (ℕ → ℕ) → List ℕ → Type 0
IsShort beyond left = (length left ≤ 5) ⊎ (length left < load32 (place left beyond) 1 + 5)

Drained : (ℕ → ℕ) → Option (List ℕ × EbClient) → Type 0
Drained beyond none = ⊥
Drained beyond (some (left, c)) = IsShort beyond left

Drained-if :
    (beyond : ℕ → ℕ) (input : List ℕ) (c : EbClient) (a b : Bool)
    (rest : Option (List ℕ × EbClient))
    → (a ≡ true → IsShort beyond input)
    → (b ≡ true → IsShort beyond input)
    → (a ≡ false → Drained beyond rest)
    → Drained beyond (if a then some (input, c) else if b then some (input, c) else rest)
unfolding Drained
Drained-if beyond input c true b rest h k l = h refl
Drained-if beyond input c false true rest h k l = k refl
Drained-if beyond input c false false rest h k l = l refl

shorter :
    (n fuel : ℕ) (input : List ℕ)
    → leb (length input) 5 ≡ false
    → length input < suc fuel
    → length (drop (n + 5) input) < fuel
shorter n fuel input long lt = ground (arith, length-drop (n + 5) input)

module _ (uncompress : List ℕ → Option (List ℕ)) (beyond : ℕ → ℕ) where
  read_loop-Drained :
      (fuel : ℕ) (input : List ℕ) (c : EbClient)
      → length input < fuel
      → Drained beyond (read_loop uncompress beyond fuel input c)
  unfolding read_loop
  read_loop-Drained zero input c h = absurd (omega arith)
  read_loop-Drained (suc fuel) input c h =
      Drained-if beyond input c (leb (length input) 5)
        (ltb (length input) (load32 (place input beyond) 1 + 5)) _
        (λ e. inl (leb→le (length input) 5 e))
        (λ e. inr (ltb→lt (length input) (load32 (place input beyond) 1 + 5) e))
        (λ e.
          read_loop-Drained fuel (drop (load32 (place input beyond) 1 + 5) input) _
            (shorter (load32 (place input beyond) 1) fuel input e h))

  -- read_cb comes to an end on every input, and takes every whole packet from it, also those that
  -- it cannot read and those of an unknown protocol.
  pub read_cb-IsShort :
      (input : List ℕ) (c : EbClient)
      → (left : List ℕ) × (c' : EbClient) × (read_cb uncompress beyond input c ≡ some (left, c'))
        × IsShort beyond left
  unfolding read_cb Drained
  read_cb-IsShort input c =
      let done = read_loop-Drained (length input + 1) input c (omega arith) in
      elim (Option-cases (read_cb uncompress beyond input c)) [
        | inl e ↦ absurd (subst (Drained beyond) e done)
        | inr ((left, c'), e) ↦ (left, c', e, subst (Drained beyond) e done)
      ]
