-- ===== src/Util/Hex.antt =====
-- src/util.c: hex2bin and bin2hex.
use mathlib.Core.Option
use ed2kd.Base.{
  ℕ, zero, suc, ◌+◌, ◌-◌, ◌*◌, ◌/◌, ◌%◌, ◌≤◌, ◌<◌, ◌≡◌, refl, Bool, true, false, Option, none, some,
  List, [], ◌∷◌, ◌++◌, arith, ltb, leb, ◌==◌, if◌then◌else◌, ◌&&◌, ◌||◌, get_or, length, u8, IsByte,
  All, ◌⊎◌, inl, inr, ap,
}

-- A char is signed: a byte from 128 on is negative, below every letter and digit.
abbrev ge_char : ℕ → ℕ → Bool
ge_char c k = ltb c 128 && leb k c

abbrev le_char : ℕ → ℕ → Bool
le_char c k = leb 128 c || leb c k

-- The first of the two digits of a byte.
high_digit : ℕ → Option ℕ
high_digit c =
    if ge_char c b'0' && le_char c b'9'
    then some (c - b'0')
    else if ge_char c b'a' && le_char c b'f'
    then some (c - b'a' + 10)
    else if ge_char c b'A' && le_char c b'F'
    then some (c - b'A' + 10)
    else none

-- The second digit `c`; the last test looks at `d`, the character src[i + i], and not at `c`.
-- The difference may be negative, and is taken modulo 256, as the byte that it is added to.
low_digit : ℕ → ℕ → Option ℕ
low_digit c d =
    if ge_char c b'0' && le_char c b'9'
    then some (c - b'0')
    else if ge_char c b'a' && le_char c b'f'
    then some (c - b'a' + 10)
    else if ge_char d b'A' && le_char c b'F'
    then some ((c + 256 - b'A' + 10) % 256)
    else none

-- Rounds `i` and on, `n` of them: whether all passed, and the bytes written to dst from i on.
pub hex2bin_from : (ℕ → ℕ) → ℕ → ℕ → Bool × List ℕ
unfolding high_digit low_digit
hex2bin_from src i zero = (true, [])
hex2bin_from src i (suc n) =
    let rest = hex2bin_from src (i + 1) n in
    elim (high_digit (src i)) [
      | none ↦ (false, 0 ∷ [])
      | some h ↦ elim (low_digit (src (i + 1)) (src (i + i))) [
        | none ↦ (false, 16 * h ∷ [])
        | some l ↦ (rest.0, u8 (16 * h + l) ∷ rest.1)
      ]
    ]

-- hex2bin: true stands for 0 and false for -1.
unfoldable pub hex2bin : (ℕ → ℕ) → ℕ → Bool × List ℕ
unfolding hex2bin_from
hex2bin src dst_len = hex2bin_from src 0 dst_len

-- static unsigned char hex[]
abbrev hex : List ℕ
hex =
    b'0' ∷ b'1' ∷ b'2' ∷ b'3' ∷ b'4' ∷ b'5' ∷ b'6' ∷ b'7' ∷ b'8' ∷ b'9' ∷ b'a' ∷ b'b' ∷ b'c' ∷ b'd'
    ∷ b'e' ∷ b'f' ∷ []

-- The loop: two digits a byte, for the first `n` bytes of src.
unfoldable pub hex_digits : ℕ → List ℕ → List ℕ
hex_digits zero src = []
hex_digits (suc n) [] = []
hex_digits (suc n) (b ∷ src) = get_or hex (b / 16 % 16) 0 ∷ get_or hex (b % 16) 0 ∷ hex_digits n src

-- bin2hex: `none` stands for -1, and the result is what dst holds, its null byte included.
unfoldable pub bin2hex : List ℕ → ℕ → Option (List ℕ)
unfolding hex_digits
bin2hex src dst_len =
    if dst_len % 2 == 0 then none else some (hex_digits (dst_len / 2) src ++ 0 ∷ [])

-- The value of a hexadecimal digit, as the documentation of hex2bin reads it.
abbrev pub digit_value : ℕ → ℕ
digit_value c = if leb c b'9' then c - b'0' else if leb c b'F' then c - b'A' + 10 else c - b'a' + 10

-- Text to bytes, two digits a byte: "DEADBEEF" -> {0xDE,0xAD,0xBE,0xEF}.
pub parse_hex : List ℕ → List ℕ
parse_hex (a ∷ b ∷ rest) = (16 * digit_value a + digit_value b) ∷ parse_hex rest
parse_hex _ = []

abbrev pub IsLowerHex : ℕ → Type 0
IsLowerHex c = ((b'0' ≤ c) × (c ≤ b'9')) ⊎ ((b'a' ≤ c) × (c ≤ b'f'))

high_digit-value : (c : ℕ) → IsLowerHex c → high_digit c ≡ some (digit_value c)
unfolding high_digit
high_digit-value c (inl h) = ground arith
high_digit-value c (inr h) = ground arith

low_digit-value : (c d : ℕ) → IsLowerHex c → low_digit c d ≡ some (digit_value c)
unfolding low_digit
low_digit-value c d (inl h) = ground arith
low_digit-value c d (inr h) = ground arith

digit_value-lt : (c : ℕ) → IsLowerHex c → digit_value c < 16
digit_value-lt c (inl h) = ground arith
digit_value-lt c (inr h) = ground arith

-- The bytes that hex2bin makes: each digit is paired with the next one.
pub windows : (ℕ → ℕ) → ℕ → ℕ → List ℕ
windows src i zero = []
windows src i (suc n) =
    (16 * digit_value (src i) + digit_value (src (i + 1))) ∷ windows src (i + 1) n

hex2bin_from-windows :
    (src : ℕ → ℕ) (i n : ℕ)
    → ((k : ℕ) → k ≤ i + n → IsLowerHex (src k))
    → hex2bin_from src i n ≡ (true, windows src i n)
unfolding hex2bin_from windows
hex2bin_from-windows src i zero h = refl
hex2bin_from-windows src i (suc n) h =
    let first = h i (omega arith) in
    let second = h (i + 1) (omega arith) in
    ground (
      arith,
      high_digit-value (src i) first,
      low_digit-value (src (i + 1)) (src (i + i)) second,
      digit_value-lt (src i) first,
      digit_value-lt (src (i + 1)) second,
      hex2bin_from-windows src (i + 1) n (λ k le. h k (omega arith)),
    )

-- On a text that starts with n + 1 lower-case hexadecimal digits hex2bin succeeds, and byte i of its
-- result is made of the digits i and i + 1 of the text; not of the digits 2 i and 2 i + 1.
pub hex2bin-windows :
    (src : ℕ → ℕ) (n : ℕ)
    → ((k : ℕ) → k ≤ n → IsLowerHex (src k))
    → hex2bin src n ≡ (true, windows src 0 n)
unfolding hex2bin
hex2bin-windows src n h = hex2bin_from-windows src 0 n (λ k le. h k (omega arith))

-- The characters of a text are the digits from a value on, in their order.
Ascending : ℕ → List ℕ → Type 0
Ascending k [] = Unit
Ascending k (c ∷ text) = (digit_value c ≡ k) × Ascending (k + 1) text

digit_at :
    (text : List ℕ) (k d : ℕ)
    → Ascending k text
    → d < length text
    → digit_value (get_or text d 0) ≡ k + d
unfolding Ascending
digit_at [] k d a lt = absurd (omega arith)
digit_at (c ∷ text) k zero a lt = omega (arith, a.0)
digit_at (c ∷ text) k (suc d) a lt = omega (arith, digit_at text (k + 1) d a.1 (omega arith))

hex-Ascending : Ascending 0 hex
unfolding Ascending
hex-Ascending = (
  refl,
  (
    refl,
    (
      refl,
      (
        refl,
        (
          refl,
          (
            refl,
            (refl, (refl, (refl, (refl, (refl, (refl, (refl, (refl, (refl, (refl, tt)))))))))),
          ),
        ),
      ),
    ),
  ),
)

digit_value-hex : (d : ℕ) → d < 16 → digit_value (get_or hex d 0) ≡ d
digit_value-hex d lt = omega (arith, digit_at hex 0 d hex-Ascending lt)

pub parse_hex-digits :
    (src : List ℕ) → All IsByte src → parse_hex (hex_digits (length src) src ++ 0 ∷ []) ≡ src
unfolding parse_hex hex_digits
parse_hex-digits [] h = refl
parse_hex-digits (b ∷ src) (hb, hs) = ground (
  arith,
  digit_value-hex (b / 16 % 16) (omega arith),
  digit_value-hex (b % 16) (omega arith),
  parse_hex-digits src hs,
)

-- bin2hex, given room for two digits a byte and the null byte, writes a text which reads back,
-- two digits a byte, as the bytes that it was given.
pub bin2hex-parse_hex :
    (src : List ℕ)
    → All IsByte src
    → Option.map parse_hex (bin2hex src (2 * length src + 1)) ≡ some src
unfolding bin2hex
bin2hex-parse_hex src h =
    let odd : (2 * length src + 1) % 2 ≡ 1 = omega arith in
    let half : (2 * length src + 1) / 2 ≡ length src = omega arith in
    rw (odd, half) (ap some (parse_hex-digits src h))
