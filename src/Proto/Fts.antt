-- ===== src/Proto/Fts.antt =====
-- src/ed2k_proto.h: the string file types.
use ed2kd.Base.{ℕ, List, [], ◌∷◌}

abbrev pub audio : List ℕ
audio = b'A' ∷ b'u' ∷ b'd' ∷ b'i' ∷ b'o' ∷ []

abbrev pub video : List ℕ
video = b'V' ∷ b'i' ∷ b'd' ∷ b'e' ∷ b'o' ∷ []

abbrev pub image : List ℕ
image = b'I' ∷ b'm' ∷ b'a' ∷ b'g' ∷ b'e' ∷ []

abbrev pub document : List ℕ
document = b'D' ∷ b'o' ∷ b'c' ∷ []

abbrev pub program : List ℕ
program = b'P' ∷ b'r' ∷ b'o' ∷ []

abbrev pub archive : List ℕ
archive = b'A' ∷ b'r' ∷ b'c' ∷ []

abbrev pub cdimage : List ℕ
cdimage = b'I' ∷ b's' ∷ b'o' ∷ []

abbrev pub emulecollection : List ℕ
emulecollection =
    b'E' ∷ b'm' ∷ b'u' ∷ b'l' ∷ b'e' ∷ b'C' ∷ b'o' ∷ b'l' ∷ b'l' ∷ b'e' ∷ b'c' ∷ b't' ∷ b'i' ∷ b'o'
    ∷ b'n' ∷ []
