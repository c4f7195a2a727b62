-- ===== src/Log.antt =====
-- src/log.c: the line that a message is printed with.
use ed2kd.Base.{
  ℕ, ◌≤◌, ◌≡◌, refl, List, [], ◌∷◌, ◌++◌, arith, length, take, codes, suc, zero, ap, length-append,
}

-- enum log_severity, with LOG_DBG left out; `other` is any number that is none of them.
pub data Severity : Type 0 where
  nfo wrn err other : Severity

unfoldable pub severity_str : Severity → List ℕ
severity_str nfo = codes "nfo"
severity_str wrn = codes "wrn"
severity_str err = codes "err"
severity_str other = codes "???"

-- What evutil_snprintf puts into the array of 1024 bytes, and vfprintf takes for its format.
unfoldable pub log_format : Severity → List ℕ → List ℕ
unfolding severity_str
log_format svrt fmt =
    take 1023 (codes "[" ++ (severity_str svrt ++ (codes "] " ++ (fmt ++ 10 ∷ []))))

take_all : (n : ℕ) (xs : List ℕ) → length xs ≤ n → take n xs ≡ xs
take_all zero [] h = refl
take_all zero (x ∷ xs) h = absurd (omega arith)
take_all (suc n) [] h = refl
take_all (suc n) (x ∷ xs) h = ap (λ ys. x ∷ ys) (take_all n xs (omega arith))

severity-length : (svrt : Severity) → length (severity_str svrt) ≡ 3
unfolding severity_str
severity-length nfo = refl
severity-length wrn = refl
severity-length err = refl
severity-length other = refl

-- A message of at most 1016 bytes keeps its line feed.
pub log_format-whole :
    (svrt : Severity) (fmt : List ℕ)
    → length fmt ≤ 1016
    → log_format svrt fmt ≡ codes "[" ++ (severity_str svrt ++ (codes "] " ++ (fmt ++ 10 ∷ [])))
unfolding log_format
log_format-whole svrt fmt h = take_all 1023 _ (
    omega (
      arith,
      severity-length svrt,
      length-append (severity_str svrt) (codes "] " ++ (fmt ++ 10 ∷ [])),
      length-append fmt (10 ∷ []),
    ))
