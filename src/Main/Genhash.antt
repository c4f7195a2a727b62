-- ===== src/Main/Genhash.antt =====
-- src/main.c and src/config.c: the hash that --genhash prints, and what the server makes of it.
use ed2kd.Base.{
  ℕ, zero, suc, ◌≡◌, refl, true, List, [], ◌∷◌, ◌++◌, some, arith, All, IsByte, length, take, drop,
  length-append, length-take, length-drop,
}
use mathlib.Core.Path.{subst}
use ed2kd.Util.Hex.{parse_hex, bin2hex, hex_digits, parse_hex-digits}
use ed2kd.Config.{Settings}
use ed2kd.Main.{Opt, genhash, success, Answers, main, get_random_user_hash}

module _ {A : Type 0} (P : A → Type 0) where
  All-append : (xs ys : List A) → All P xs → All P ys → All P (xs ++ ys)
  All-append [] ys hs ks = ks
  All-append (x ∷ xs) ys (h, hs) ks = (h, All-append xs ys hs ks)

  All-take : (n : ℕ) (xs : List A) → All P xs → All P (take n xs)
  All-take zero xs hs = tt
  All-take (suc n) [] hs = tt
  All-take (suc n) (x ∷ xs) (h, hs) = (h, All-take n xs hs)

  All-drop : (n : ℕ) (xs : List A) → All P xs → All P (drop n xs)
  All-drop zero xs hs = hs
  All-drop (suc n) [] hs = tt
  All-drop (suc n) (x ∷ xs) (h, hs) = All-drop n xs hs

-- What --genhash prints, of 16 random bytes and whatever options follow: the text, with its null
-- byte, reads back, two digits a byte, as the hash of 16 bytes that get_random_user_hash made.
pub main-genhash :
    (a : Answers) (others : List Opt) (s : Settings)
    → a.seeded ≡ true
    → length a.random ≡ 16
    → All IsByte a.random
    → (text : List ℕ) × (main a (genhash ∷ others) s ≡ success (some text))
      × (parse_hex text ≡ get_random_user_hash a.random)
      × (length (get_random_user_hash a.random) ≡ 16)
unfolding main get_random_user_hash bin2hex
main-genhash a others s seeded size bytes =
    let first = take 6 a.random in
    let second = take 8 (drop 7 a.random) in
    let hash = get_random_user_hash a.random in
    let full : length hash ≡ 16 = omega (
      arith,
      size,
      length-append first (14 ∷ (second ++ 111 ∷ [])),
      length-append second (111 ∷ []),
      length-take 6 a.random,
      length-take 8 (drop 7 a.random),
      length-drop 7 a.random,
    ) in
    let marked : All IsByte hash =
      All-append IsByte first (14 ∷ (second ++ 111 ∷ [])) (All-take IsByte 6 a.random bytes) (
        omega arith,
        All-append IsByte second (111 ∷ []) (All-take IsByte 8 _ (All-drop IsByte 7 a.random bytes))
            (omega arith, tt),
      ) in
    (
      hex_digits 16 hash ++ 0 ∷ [],
      rw (seeded, main) refl,
      subst (λ n. parse_hex (hex_digits n hash ++ 0 ∷ []) ≡ hash) full
          (parse_hex-digits hash marked),
      full,
    )
