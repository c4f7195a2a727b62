-- ===== src/Base/Family.antt =====
-- Families indexed by numbers: one member replaced, and the sum of a weight over the first members.
use Prim.Native.Nat.{ℕ, zero, suc, ◌+◌, ◌≤◌, ◌<◌}
use mathlib.Core.Path.{◌≡◌, refl}
use mathlib.Core.Logic.{◌≢◌}
use native.Mathlib.Omega.{arith}
use ed2kd.Base.Tests.{◌==◌, ltb, if◌then◌else◌, Bool-cases}
use mathlib.Core.Logic.{inl, inr}

module _ {ℓ} {A : Type ℓ} where
  abbrev pub set_at : (ℕ → A) → ℕ → A → ℕ → A
  set_at f i a j = if i == j then a else f j

  pub set_at-here : (f : ℕ → A) (i : ℕ) (a : A) → set_at f i a i ≡ a
  set_at-here f i a = ground arith

  pub set_at-other : (f : ℕ → A) (i j : ℕ) (a : A) → i ≢ j → set_at f i a j ≡ f j
  set_at-other f i j a ne = ground arith

module _ {ℓ} {A : Type ℓ} (weight : A → ℕ) where
  unfoldable pub sum : ℕ → (ℕ → A) → ℕ
  sum zero f = 0
  sum (suc n) f = weight (f n) + sum n f

  sum-beyond : (n : ℕ) (f : ℕ → A) (i : ℕ) (a : A) → n ≤ i → sum n (set_at f i a) ≡ sum n f
  unfolding sum
  sum-beyond zero f i a h = refl
  sum-beyond (suc n) f i a h = ground (arith, sum-beyond n f i a)

  -- The sum changes as the member's weight does.
  pub sum-set_at :
      (n : ℕ) (f : ℕ → A) (i : ℕ) (a : A)
      → i < n
      → sum n (set_at f i a) + weight (f i) ≡ sum n f + weight a
  unfolding sum
  sum-set_at zero f i a h = absurd (omega arith)
  sum-set_at (suc n) f i a h = elim (Bool-cases (ltb i n)) [
    | inl below ↦ ground (arith, sum-set_at n f i a)
    | inr last ↦ ground (arith, sum-beyond n f i a)
  ]

  -- A member's weight is part of the sum.
  pub sum-ge : (n : ℕ) (f : ℕ → A) (i : ℕ) → i < n → weight (f i) ≤ sum n f
  unfolding sum
  sum-ge zero f i h = absurd (omega arith)
  sum-ge (suc n) f i h = ground (arith, sum-ge n f i)

  -- The weights of two members are.
  pub sum-ge_two :
      (n : ℕ) (f : ℕ → A) (i j : ℕ) → i < n → j < n → i ≢ j → weight (f i) + weight (f j) ≤ sum n f
  unfolding sum
  sum-ge_two zero f i j h k ne = absurd (omega arith)
  sum-ge_two (suc n) f i j h k ne = ground (arith, sum-ge_two n f i j, sum-ge n f i, sum-ge n f j)

  pub sum-zero : (n : ℕ) (f : ℕ → A) → ((i : ℕ) → weight (f i) ≡ 0) → sum n f ≡ 0
  unfolding sum
  sum-zero zero f h = refl
  sum-zero (suc n) f h = omega (arith, h n, sum-zero n f h)

  pub sum-le : ((a : A) → weight a ≤ 1) → (n : ℕ) (f : ℕ → A) → sum n f ≤ n
  unfolding sum
  sum-le light zero f = omega arith
  sum-le light (suc n) f = omega (arith, light (f n), sum-le light n f)
