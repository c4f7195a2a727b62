-- ===== src/Config/Load.antt =====
-- src/config.c: which files are accepted, and what becomes of their texts.
use Prim.Native.Nat.{min}
use ed2kd.Base.{
  ℕ, zero, suc, ◌+◌, ◌-◌, ◌%◌, ◌^◌, ◌≤◌, ◌<◌, ◌≡◌, ◌↔◌, refl, ◌∙◌, ap, true, List, [], ◌∷◌, ◌++◌,
  Option, none, some, arith, length, take, length-append, length-take, codes, ltb, if◌then◌else◌,
}
use ed2kd.Config.{Settings, server_load_config, load_welcome, load_text, fill, srv_ver}

abbrev pub IsThere : {A : Type 0} → Option A → Type 0
IsThere none = ⊥
IsThere (some a) = Unit

-- The settings that a file must have.
pub record IsComplete (s : Settings) : Type 0 where
  pub parses : s.parsed ≡ true
  pub addr : IsThere (s.lookup_string (codes "listen_addr"))
  pub port : IsThere (s.lookup_int (codes "listen_port"))
  pub backlog : IsThere (s.lookup_int (codes "listen_backlog"))
  pub hash : IsThere (s.lookup_string (codes "server_hash"))
  pub lowid : IsThere (s.lookup_int (codes "allow_lowid"))
  pub timeout : IsThere (s.lookup_int (codes "portcheck_timeout"))
  pub interval : IsThere (s.lookup_int (codes "status_notify_interval"))
  pub clients : IsThere (s.lookup_int (codes "max_clients"))
  pub files : IsThere (s.lookup_int (codes "max_files"))
  pub per_client : IsThere (s.lookup_int (codes "max_files_per_client"))
  pub offers : IsThere (s.lookup_int (codes "max_offers_limit"))
  pub searches : IsThere (s.lookup_int (codes "max_searches_limit"))

-- A file is accepted exactly if it can be parsed and has each of the twelve settings that are not
-- optional; no value of a setting makes it fail.
pub server_load_config-IsComplete : (s : Settings) → IsThere (server_load_config s) ↔ IsComplete s
unfolding server_load_config
server_load_config-IsComplete s = ground arith

length-fill : (n : ℕ) (xs : List ℕ) → length (fill n xs) ≡ n
unfolding fill
length-fill zero xs = refl
length-fill (suc n) [] = ap suc (length-fill n [])
length-fill (suc n) (x ∷ xs) = ap suc (length-fill n xs)

take-fill : (n : ℕ) (xs : List ℕ) → length xs < n → take (length xs + 1) (fill n xs) ≡ xs ++ 0 ∷ []
unfolding fill
take-fill zero xs h = absurd (omega arith)
take-fill (suc n) [] h = refl
take-fill (suc n) (x ∷ xs) h = ground (arith, take-fill n xs)

take_all : (n : ℕ) (xs : List ℕ) → length xs ≤ n → take n xs ≡ xs
take_all zero [] h = refl
take_all zero (x ∷ xs) h = absurd (omega arith)
take_all (suc n) [] h = refl
take_all (suc n) (x ∷ xs) h = ground (arith, take_all n xs)

-- The welcome message is the server's version, a line feed and the text of the file. Its length
-- counts the null byte behind it, and lies inside the array of 1025 bytes exactly if the text has at
-- most 996 bytes; the array then starts with the message and its null byte.
pub load_welcome-take :
    (str_val : List ℕ)
    → let (len, msg) = load_welcome (some str_val) in
      (length msg ≡ 1025)
      × ((len ≤ length msg) ↔ (length str_val ≤ 996))
      × (length str_val ≤ 996 → take len msg ≡ srv_ver ++ (b'\n' ∷ str_val) ++ 0 ∷ [])
unfolding load_welcome
load_welcome-take str_val =
    let text = srv_ver ++ b'\n' ∷ str_val in
    let full = length-fill 1025 (take 1024 text) in
    let size : length srv_ver + 1 + length str_val + 1 ≡ length text + 1 = omega arith in
    (
      full,
      (λ h. omega (arith, full), λ h. omega (arith, full)),
      λ h.
          ap (λ n. take n (fill 1025 (take 1024 text))) size
          ∙ ap (λ t. take (length text + 1) (fill 1025 t))
              (take_all 1024 text (omega (arith, size)))
          ∙ take-fill 1025 text (omega (arith, size)),
    )

take-fill_more : (n k : ℕ) (xs : List ℕ) → k ≤ length xs → k ≤ n → take k (fill n xs) ≡ take k xs
unfolding fill
take-fill_more n zero xs h l = refl
take-fill_more zero (suc k) xs h l = absurd (omega arith)
take-fill_more (suc n) (suc k) [] h l = absurd (omega arith)
take-fill_more (suc n) (suc k) (x ∷ xs) h l = ground (arith, take-fill_more n k xs)

take-take_append :
    (k n : ℕ) (xs ys : List ℕ) → k ≤ n → k ≤ length xs → take k (take n (xs ++ ys)) ≡ take k xs
take-take_append zero n xs ys h l = refl
take-take_append (suc k) zero xs ys h l = absurd (omega arith)
take-take_append (suc k) (suc n) [] ys h l = absurd (omega arith)
take-take_append (suc k) (suc n) (x ∷ xs) ys h l = ground (arith, take-take_append k n xs ys)

copied :
    (max_len n : ℕ) (str : List ℕ) (last : ℕ)
    → n ≤ max_len
    → n ≤ length str
    → take n (fill (max_len + 1) (take (n + 1) (str ++ last ∷ []))) ≡ take n str
copied max_len n str last h k =
    let size = length-append str (last ∷ []) in
    let room : n ≤ length (take (n + 1) (str ++ last ∷ [])) =
      omega (arith, size, length-take (n + 1) (str ++ last ∷ [])) in
    take-fill_more (max_len + 1) n _ room (omega arith)
    ∙ take-take_append n (n + 1) str (last ∷ []) (omega arith) k

-- A name or description that is not empty, of fewer than 2^64 bytes, loses its last character: the
-- length is that of the text without it, or the limit if that is less, and so many bytes of the text
-- are in the array, which has one byte more than the limit.
pub load_text-take :
    (max_len : ℕ) (str : List ℕ) (last : ℕ)
    → max_len < 2 ^ 64
    → length str + 1 < 2 ^ 64
    → let (len, text) = load_text max_len (some (str ++ last ∷ [])) in
      (len ≡ min max_len (length str))
      × (length text ≡ max_len + 1)
      × (take len text ≡ take len str)
unfolding load_text
load_text-take max_len str last h k =
    let all = length-append str (last ∷ []) in
    let wraps : (length (str ++ last ∷ []) + 2 ^ 64 - 1) % 2 ^ 64 ≡ length str =
      omega (arith, all) in
    let e : (if ltb ((length (str ++ last ∷ []) + 2 ^ 64 - 1) % 2 ^ 64) max_len
          then (length (str ++ last ∷ []) + 2 ^ 64 - 1) % 2 ^ 64
          else max_len)
        ≡ min max_len (length str) =
      ground (arith, wraps) in
    (
      e,
      length-fill (max_len + 1) _,
      copied max_len _ str last (omega (arith, e)) (omega (arith, e)),
    )
