-- ===== src/Base/Bytes.antt =====
-- Memory as bytes: little-endian integers, and a region that holds a list.
use Prim.Native.Char.{code}
use Prim.Native.String.{String}
use Prim.Native.Nat.{ℕ, zero, suc, ◌+◌, ◌*◌, ◌/◌, ◌%◌, ◌^◌, ◌≤◌, ◌<◌}
use mathlib.Core.Path.{◌≡◌, refl}
use mathlib.Core.List.{List, [], ◌∷◌, ◌++◌}
use native.Mathlib.Omega.{arith}
use ed2kd.Base.Lists.{length}

abbrev pub IsByte : ℕ → Type 0
IsByte b = b < 256

-- The bytes of a uint16_t, uint32_t and uint64_t, in the order of a little-endian machine.
abbrev pub le16 : ℕ → List ℕ
le16 n = n % 256 ∷ n / 256 % 256 ∷ []

abbrev pub le32 : ℕ → List ℕ
le32 n = n % 256 ∷ n / 256 % 256 ∷ n / 65536 % 256 ∷ n / 16777216 % 256 ∷ []

abbrev pub le64 : ℕ → List ℕ
le64 n = le32 n ++ le32 (n / 2 ^ 32)

-- What a store into a field of 64, 32, 16 or 8 bits keeps.
abbrev pub u64 : ℕ → ℕ
u64 value = value % 2 ^ 64

abbrev pub u32 : ℕ → ℕ
u32 value = value % 2 ^ 32

abbrev pub u16 : ℕ → ℕ
u16 value = value % 65536

abbrev pub u8 : ℕ → ℕ
u8 value = value % 256

-- Unaligned loads from memory.
abbrev pub load16 : (ℕ → ℕ) → ℕ → ℕ
load16 m p = m p + 256 * m (p + 1)

abbrev pub load32 : (ℕ → ℕ) → ℕ → ℕ
load32 m p = m p + 256 * m (p + 1) + 65536 * m (p + 2) + 16777216 * m (p + 3)

abbrev pub load64 : (ℕ → ℕ) → ℕ → ℕ
load64 m p = load32 m p + 2 ^ 32 * load32 m (p + 4)

-- The n bytes from an address on (memcpy).
unfoldable pub block : (ℕ → ℕ) → ℕ → ℕ → List ℕ
block m p zero = []
block m p (suc n) = m p ∷ block m (p + 1) n

-- Memory that holds a list from address 0 on, and whatever `beyond` says behind it.
unfoldable pub place : List ℕ → (ℕ → ℕ) → ℕ → ℕ
place [] beyond i = beyond i
place (x ∷ xs) beyond zero = x
place (x ∷ xs) beyond (suc i) = place xs beyond i

pub length-block : (m : ℕ → ℕ) (p n : ℕ) → length (block m p n) ≡ n
unfolding block
length-block m p zero = refl
length-block m p (suc n) = omega (arith, length-block m (p + 1) n)

-- Memories that agree below an address give the same block there.
pub block-agree :
    (m m' : ℕ → ℕ) (e p n : ℕ)
    → ((i : ℕ) → i < e → m i ≡ m' i)
    → p + n ≤ e
    → block m p n ≡ block m' p n
unfolding block
block-agree m m' e p zero h le = refl
block-agree m m' e p (suc n) h le =
    ground (arith, h p (omega arith), block-agree m m' e (p + 1) n h (omega arith))

-- The characters of a text: its bytes, if it is ASCII. `String` has its own `[]` and `∷`.
abbrev pub codes : String → List ℕ
codes String.[] = []
codes (String.◌∷◌ c s) = code c ∷ codes s
