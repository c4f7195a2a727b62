-- ===== src/Client/Lowid.antt =====
-- src/client.c: the ids that get_next_lowid gives out.
use ed2kd.Base.{
  ℕ, zero, suc, ◌+◌, ◌-◌, ◌%◌, ◌≤◌, ◌<◌, ◌≡◌, ◌≢◌, List, [], ◌∷◌, some, arith, All, Bool-cases,
  ◌==◌, ==_iff, inl, inr, ap, sym, ◌∙◌, refl,
}
use ed2kd.Proto.{max_lowid}
use ed2kd.Client.{next_lowid, get_next_lowid}

pub next_lowid_range : (c : ℕ) → c ≤ max_lowid → (1 ≤ next_lowid c) × (next_lowid c ≤ max_lowid)
unfolding next_lowid
next_lowid_range c h = ground arith

-- The counter after n ids have been given out.
pub lowid_after : ℕ → ℕ → ℕ
lowid_after zero c = c
lowid_after (suc n) c = next_lowid (lowid_after n c)

lowid_after_closed :
    (n c : ℕ) → 1 ≤ c → c ≤ max_lowid → lowid_after n c ≡ (c - 1 + n) % 0x1000000 + 1
unfolding lowid_after next_lowid
lowid_after_closed zero c h k = omega arith
lowid_after_closed (suc n) c h k = ground (arith, lowid_after_closed n c h k)

-- From a counter in range, any two ids given out less than MAX_LOWID apart are different.
pub lowid_after-ne :
    (c i n : ℕ)
    → 1 ≤ c
    → c ≤ max_lowid
    → 0 < n
    → n < max_lowid
    → lowid_after i c ≢ lowid_after (i + n) c
lowid_after-ne c i n h k p q =
    omega (arith, lowid_after_closed i c h k, lowid_after_closed (i + n) c h k)

-- From the counter c, n calls of get_next_lowid have exchanged it, one after the other, and the last
-- one has left it at the id that it returned. A call sees in its rounds whatever the others leave,
-- and its exchange succeeds only against the counter.
pub data Served (c : ℕ) : ℕ → ℕ → Type 0 where
  at_first : Served c zero c
  served :
      {n counter id : ℕ}
      → Served c n counter
      → (rounds : List (ℕ × ℕ)) → All (λ r. r.0 ≡ r.1 → r.1 ≡ counter) rounds
      → get_next_lowid rounds ≡ some id
      → Served c (suc n) id

exchanged :
    (rounds : List (ℕ × ℕ)) (counter id : ℕ)
    → All (λ r. r.0 ≡ r.1 → r.1 ≡ counter) rounds
    → get_next_lowid rounds ≡ some id
    → id ≡ next_lowid counter
unfolding get_next_lowid
exchanged [] counter id a h = cc
exchanged ((loaded, current) ∷ rounds) counter id a h = elim (Bool-cases (loaded == current)) [
  | inl same ↦
      let eq : loaded ≡ current = (==_iff loaded current).0 same in
      let found : some (next_lowid loaded) ≡ some id = rw (same, get_next_lowid) at h in
      let answer : next_lowid loaded ≡ id = cc in sym answer ∙ ap next_lowid (eq ∙ a.0 eq)
  | inr other ↦ exchanged rounds counter id a.1 (rw (other, get_next_lowid) at h)
]

Served-lowid_after : {c n id : ℕ} → Served c n id → id ≡ lowid_after n c
unfolding lowid_after
Served-lowid_after at_first = refl
Served-lowid_after (served {counter = counter} {id = id} s rounds a h) =
    exchanged rounds counter id a h ∙ ap next_lowid (Served-lowid_after s)

-- However the threads that ask for a low id come in each other's way: every id lies in
-- 1 .. MAX_LOWID, and two ids that were given out less than MAX_LOWID calls apart are different.
pub get_next_lowid-Served :
    {c i n a b : ℕ}
    → 1 ≤ c
    → c ≤ max_lowid
    → Served c i a
    → Served c (i + n) b
    → 0 < n
    → n < max_lowid
    → (a ≢ b) × (1 ≤ b) × (b ≤ max_lowid)
get_next_lowid-Served {c} {i} {n} {a} {b} low high s s' some_calls few =
    let first : a ≡ lowid_after i c = Served-lowid_after s in
    let second : b ≡ lowid_after (i + n) c = Served-lowid_after s' in
    (
      ground (arith, first, second, lowid_after-ne c i n low high some_calls few),
      omega (arith, second, lowid_after_closed (i + n) c low high),
      omega (arith, second, lowid_after_closed (i + n) c low high),
    )
