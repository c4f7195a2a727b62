-- ===== src/Proto/Tns.antt =====
-- src/ed2k_proto.h: the string tag names.
use ed2kd.Base.{ℕ, List, [], ◌∷◌}

abbrev pub media_length : List ℕ
media_length = b'l' ∷ b'e' ∷ b'n' ∷ b'g' ∷ b't' ∷ b'h' ∷ []

abbrev pub media_bitrate : List ℕ
media_bitrate = b'b' ∷ b'i' ∷ b't' ∷ b'r' ∷ b'a' ∷ b't' ∷ b'e' ∷ []

abbrev pub media_codec : List ℕ
media_codec = b'c' ∷ b'o' ∷ b'd' ∷ b'e' ∷ b'c' ∷ []
