-- ===== src/Util/Extension.antt =====
-- src/util.c: file_extension. A name is the contents of its buffer; a pointer into it is an offset.
use native.Mathlib.Decide.{dec_lt}
use ed2kd.Base.{
  ℕ, zero, suc, ◌+◌, ◌<◌, ◌≡◌, ◌≢◌, refl, Option, none, some, List, [], ◌∷◌, arith, ◌==◌,
  if◌then◌else◌, get_or,
}

-- strlen: the characters before the first null byte.
pub strlen : List ℕ → ℕ
strlen [] = 0
strlen (c ∷ s) = if c == 0 then 0 else suc (strlen s)

-- while ((name <= ext) && ('.' != *ext)) ext--, with k for ext - name + 1.
pub scan_back : List ℕ → ℕ → ℕ
scan_back name zero = 0
scan_back name (suc k) =
    let rest = scan_back name k in if get_or name k 0 == b'.' then suc k else rest

-- `none` is NULL. After the loop `name == ext` says k = 1, and `ext++` makes the offset k.
unfoldable pub file_extension : List ℕ → ℕ → Option ℕ
unfolding strlen scan_back
file_extension name len =
    let k = scan_back name (if len == 0 then strlen name else len) in
    if k == 1 then none else some k

abbrev HasDot : List ℕ → ℕ → Type 0
HasDot name i = get_or name i 0 ≡ b'.'

scan_back_found :
    (name : List ℕ) (len i : ℕ)
    → i < len
    → HasDot name i
    → ((j : ℕ) → i < j → j < len → get_or name j 0 ≢ b'.')
    → scan_back name len ≡ suc i
unfolding scan_back
scan_back_found name zero i lt dot last = absurd (omega arith)
scan_back_found name (suc k) i lt dot last = elim (dec_lt i k) [
  | yes below ↦ ground (
    arith,
    last k below (omega arith),
    scan_back_found name k i below dot (λ j p q. last j p (omega arith)),
  )
  | no here ↦ let e : k ≡ i = omega arith in rw (e, dot)
]

scan_back_none :
    (name : List ℕ) (len : ℕ)
    → ((j : ℕ) → j < len → get_or name j 0 ≢ b'.')
    → scan_back name len ≡ 0
unfolding scan_back
scan_back_none name zero h = refl
scan_back_none name (suc k) h =
    ground (arith, h k (omega arith), scan_back_none name k (λ j p. h j (omega arith)))

-- Of a name of len characters whose last dot is at i, the extension starts behind the dot;
-- where the dot is the first character there is no extension.
pub file_extension_last_dot :
    (name : List ℕ) (len i : ℕ)
    → i < len
    → HasDot name i
    → ((j : ℕ) → i < j → j < len → get_or name j 0 ≢ b'.')
    → file_extension name len ≡ (if i == 0 then none else some (i + 1))
unfolding file_extension
file_extension_last_dot name len i lt dot last =
    ground (arith, scan_back_found name len i lt dot last)

-- Of a name of len > 0 characters without a dot, the extension is the whole name, and not NULL.
pub file_extension_no_dot :
    (name : List ℕ) (len : ℕ)
    → 0 < len
    → ((j : ℕ) → j < len → get_or name j 0 ≢ b'.')
    → file_extension name len ≡ some 0
unfolding file_extension
file_extension_no_dot name len pos none_there = ground (arith, scan_back_none name len none_there)
