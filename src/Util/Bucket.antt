-- ===== src/Util/Bucket.antt =====
-- src/util.c and src/util.h: the token bucket. The source keeps tokens in a double; they start as
-- a whole number and only whole numbers are added, so they are the integers below.
use ed2kd.Base.{
  ℕ, zero, suc, ◌+◌, ◌-◌, ◌*◌, ◌≤◌, ◌≡◌, refl, Bool, true, false, List, [], ◌∷◌, arith,
  if◌then◌else◌, to_bit, ltb,
}
use Prim.Native.Nat.{min}
use ed2kd.Base.Int.{ℤ, pos, sub_ℕ, ◌+ℤ◌, ◌-ℤ◌, ◌*ℤ◌, ltb_ℤ}

pub record TokenBucket : Type 0 where
  pub tokens : ℤ
  pub last_update : ℕ

-- `now` is the answer of time(NULL).
unfoldable pub token_bucket_init : ℕ → ℕ → TokenBucket
token_bucket_init now tokens = record { tokens = pos tokens; last_update = now }

-- One token is taken, if there is one after `passed` seconds' supply.
unfoldable pub take_token : TokenBucket → TokenBucket × Bool
take_token b =
    if ltb_ℤ b.tokens (pos 1) then (b, false) else (record b { tokens = b.tokens -ℤ pos 1 }, true)

unfoldable pub token_bucket_update : ℕ → TokenBucket → ℕ → TokenBucket × Bool
token_bucket_update now b max_tokens =
    let passed = sub_ℕ now b.last_update in
    let full = b.tokens +ℤ passed *ℤ pos max_tokens in
    take_token (record {
      tokens = if ltb_ℤ (pos max_tokens) full then pos max_tokens else full;
      last_update = now;
    })

-- Requests that come one after the other, each some seconds after the one before: the bucket
-- then, and how many were let through.
pub requests : ℕ → TokenBucket → List ℕ → TokenBucket × ℕ
requests max_tokens b [] = (b, 0)
requests max_tokens b (d ∷ ds) =
    let (b', granted) = token_bucket_update (b.last_update + d) b max_tokens in
    let (b'', n) = requests max_tokens b' ds in (b'', to_bit granted + n)

pub sum : List ℕ → ℕ
sum [] = 0
sum (d ∷ ds) = d + sum ds

supply : (t last d k : ℕ) → pos t +ℤ sub_ℕ (last + d) last *ℤ pos k ≡ pos (t + d * k)
unfolding ◌+ℤ◌ ◌*ℤ◌
supply t last d k = let e : sub_ℕ (last + d) last ≡ pos d = ground arith in rw e (ground arith)

take_token_held :
    (t last : ℕ)
    → take_token (record { tokens = pos t; last_update = last })
      ≡ (record { tokens = pos (t - 1); last_update = last }, ltb 0 t)
unfolding take_token ◌-ℤ◌
take_token_held zero last = refl
take_token_held (suc t) last = ground arith

cap-min : (k x : ℕ) → (if ltb_ℤ (pos k) (pos x) then pos k else pos x) ≡ pos (min k x)
cap-min k x = ground arith

-- An update, d seconds after the one before, of a bucket with t tokens: it gets d * max tokens,
-- keeps at most max, and one of them is taken if there is one.
update_held :
    (k d t last : ℕ)
    → token_bucket_update (last + d) (record { tokens = pos t; last_update = last }) k ≡ (
      record { tokens = pos (min k (t + d * k) - 1); last_update = last + d },
      ltb 0 (min k (t + d * k)),
    )
unfolding token_bucket_update
update_held k d t last = rw (supply, cap-min) (take_token_held (min k (t + d * k)) (last + d))

taken : (y : ℕ) → to_bit (ltb 0 y) + (y - 1) ≡ y
taken y = ground arith

requests_held :
    (k t last : ℕ) (ds : List ℕ)
    → t ≤ k
    → (requests k (record { tokens = pos t; last_update = last }) ds).1 ≤ t + sum ds * k
unfolding requests sum
requests_held k t last [] h = omega arith
requests_held k t last (d ∷ ds) h = rw update_held (
    omega (
      arith,
      taken (min k (t + d * k)),
      requests_held k (min k (t + d * k) - 1) (last + d) ds (omega arith),
    ))

-- However the requests of a client are spread over time, at most max * (1 + seconds) of them are
-- let through, where `seconds` is the time from the start of the bucket to the last one.
pub requests-le :
    (k now : ℕ) (ds : List ℕ) → (requests k (token_bucket_init now k) ds).1 ≤ k * (1 + sum ds)
unfolding token_bucket_init
requests-le k now ds = omega (arith, requests_held k k now ds (omega arith))
