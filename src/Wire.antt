-- ===== src/Wire.antt =====
-- src/packet.h: the packet buffer and the PB_* macros.
-- A buffer is memory `m` with the address `e` of its end; the current address is passed along.
-- Memory is total: the macros load before they check, and what lies behind the end is arbitrary.
pub mod Locality
pub mod Keeping
pub mod Advance
use ed2kd.Base.{ℕ, ◌+◌, ◌-◌, ◌<◌, Bool, true, false, List, if◌then◌else◌, leb, ltb}
use ed2kd.Base.{load16, load32, load64, block}

-- How a handler leaves its statements: past the last one, with the address, the state that it
-- changes and a value; or by `goto malformed`, with the state as it is then.
pub data Out (S A : Type 0) : Type 0 where
  go : ℕ → S → A → Out S A
  malformed : S → Out S A

abbrev pub P : Type 0 → Type 0 → Type 0
P S A = ℕ → S → Out S A

infixl 5 ◌>>=◌ ◌>>◌
abbrev pub ◌>>=◌ : {S A B : Type 0} → P S A → (A → P S B) → P S B
◌>>=◌ f g p s = elim (f p s) [ go p' s' a ↦ g a p' s' | malformed s' ↦ malformed s' ]

abbrev pub ◌>>◌ : {S B : Type 0} → P S (Unit {0}) → P S B → P S B
f >> g = f >>= λ _. g

abbrev pub pure : {S A : Type 0} → A → P S A
pure a p s = go p s a

-- An assignment to a field of the state.
abbrev pub modify : {S : Type 0} → (S → S) → P S (Unit {0})
modify f p s = go p (f s) tt

-- PB_CHECK
unfoldable pub check : {S : Type 0} → Bool → P S (Unit {0})
check true p s = go p s tt
check false p s = malformed s

-- PB_LEFT
abbrev pub left : ℕ → ℕ → ℕ
left e p = e - p

-- PB_SEEK: the address moves first, and the check is of the new address.
unfoldable pub seek : {S : Type 0} → ℕ → ℕ → P S (Unit {0})
seek e off p s = if leb (p + off) e then go (p + off) s tt else malformed s

-- PB_READ_UINT8, 16, 32 and 64 into a place of the state: the store comes before the check.
unfoldable pub read8_into : {S : Type 0} → (ℕ → ℕ) → ℕ → (ℕ → S → S) → P S (Unit {0})
unfolding seek
read8_into m e put p s = seek e 1 p (put (m p) s)

unfoldable pub read16_into : {S : Type 0} → (ℕ → ℕ) → ℕ → (ℕ → S → S) → P S (Unit {0})
unfolding seek
read16_into m e put p s = seek e 2 p (put (load16 m p) s)

unfoldable pub read32_into : {S : Type 0} → (ℕ → ℕ) → ℕ → (ℕ → S → S) → P S (Unit {0})
unfolding seek
read32_into m e put p s = seek e 4 p (put (load32 m p) s)

unfoldable pub read64_into : {S : Type 0} → (ℕ → ℕ) → ℕ → (ℕ → S → S) → P S (Unit {0})
unfolding seek
read64_into m e put p s = seek e 8 p (put (load64 m p) s)

-- The same into a local variable.
unfoldable pub read8 : {S : Type 0} → (ℕ → ℕ) → ℕ → P S ℕ
read8 m e p s = if leb (p + 1) e then go (p + 1) s (m p) else malformed s

unfoldable pub read16 : {S : Type 0} → (ℕ → ℕ) → ℕ → P S ℕ
read16 m e p s = if leb (p + 2) e then go (p + 2) s (load16 m p) else malformed s

unfoldable pub read32 : {S : Type 0} → (ℕ → ℕ) → ℕ → P S ℕ
read32 m e p s = if leb (p + 4) e then go (p + 4) s (load32 m p) else malformed s

-- PB_MEMCPY into a place of the state.
unfoldable pub memcpy_into : {S : Type 0} → (ℕ → ℕ) → ℕ → ℕ → (List ℕ → S → S) → P S (Unit {0})
unfolding seek
memcpy_into m e n put p s = seek e n p (put (block m p n) s)

-- What PB_READ_STRING copies of a string of a given length.
abbrev pub clip : ℕ → ℕ → ℕ
clip len max_len = if ltb max_len len then max_len else len

-- PB_READ_STRING: the length, at most `max_len` bytes into the destination, a seek over all.
-- `put` gets the bytes copied; their number is the new value of the third macro argument.
unfoldable pub read_string_into : {S : Type 0} → (ℕ → ℕ) → ℕ → ℕ → (List ℕ → S → S) → P S (Unit {0})
unfolding read16 seek
read_string_into m e max_len put = do
  len ← read16 m e
  λ p s. seek e len p (put (block m p (clip len max_len)) s)

-- The fields of the tag header at the current address: type, name_len, and the name's first byte.
abbrev pub tag_type : (ℕ → ℕ) → ℕ → ℕ
tag_type m p = m p

abbrev pub tag_name_len : (ℕ → ℕ) → ℕ → ℕ
tag_name_len m p = load16 m (p + 1)

-- The address of `tag_hdr->name`.
abbrev pub tag_name_at : ℕ → ℕ
tag_name_at p = p + 3

-- PB_SKIP_TAGHDR; `at` is the address that `tag_hdr` points to.
unfoldable pub skip_taghdr : {S : Type 0} → (ℕ → ℕ) → ℕ → ℕ → P S (Unit {0})
unfolding seek
skip_taghdr m e at = seek e (1 + 2 + tag_name_len m at)

-- The current address, as in `tag_hdr = (struct tag_header *) pb->ptr`.
abbrev pub here : {S : Type 0} → P S ℕ
here p s = go p s p
