-- ===== src/Util/FileType.antt =====
-- src/util.c: get_ed2k_file_type, with the strncmp that it calls on a constant.
use ed2kd.Base.{
  ℕ, zero, suc, ◌+◌, ◌≤◌, ◌<◌, ◌≡◌, refl, Bool, true, List, [], ◌∷◌, arith, ◌==◌, if◌then◌else◌,
  ◌&&◌, length, place,
}
use ed2kd.Proto.Ft
use ed2kd.Proto.Fts

-- strncmp(s, str, n) == 0, for a constant `s` without its null byte, and `str` at address p.
pub strncmp_eq : List ℕ → (ℕ → ℕ) → ℕ → ℕ → Bool
strncmp_eq [] m p zero = true
strncmp_eq [] m p (suc n) = m p == 0
strncmp_eq (c ∷ s) m p zero = true
strncmp_eq (c ∷ s) m p (suc n) = m p == c && strncmp_eq s m (p + 1) n

-- The type's text starts at address p.
unfoldable pub get_ed2k_file_type : (ℕ → ℕ) → ℕ → ℕ → ℕ
get_ed2k_file_type m p len =
    if strncmp_eq Fts.audio m p len
    then Ft.audio
    else if strncmp_eq Fts.video m p len
    then Ft.video
    else if strncmp_eq Fts.image m p len
    then Ft.image
    else if strncmp_eq Fts.document m p len
    then Ft.document
    else if strncmp_eq Fts.program m p len
    then Ft.program
    else if strncmp_eq Fts.archive m p len
    then Ft.archive
    else if strncmp_eq Fts.cdimage m p len
    then Ft.cdimage
    else if strncmp_eq Fts.emulecollection m p len
    then Ft.emulecollection
    else Ft.any

-- The name of each file type in the protocol.
pub type_name : ℕ → List ℕ
type_name (suc zero) = Fts.audio
type_name (suc (suc zero)) = Fts.video
type_name (suc (suc (suc zero))) = Fts.image
type_name (suc (suc (suc (suc zero)))) = Fts.program
type_name (suc (suc (suc (suc (suc zero))))) = Fts.document
type_name (suc (suc (suc (suc (suc (suc zero)))))) = Fts.archive
type_name (suc (suc (suc (suc (suc (suc (suc zero))))))) = Fts.cdimage
type_name _ = Fts.emulecollection

-- The name of a type, whatever stands behind it in memory, is read as that type.
pub get_ed2k_file_type-type_name :
    (t : ℕ) (rest : ℕ → ℕ)
    → 1 ≤ t
    → t ≤ 8
    → get_ed2k_file_type (place (type_name t) rest) 0 (length (type_name t)) ≡ t
unfolding get_ed2k_file_type type_name strncmp_eq place
get_ed2k_file_type-type_name zero rest h k = absurd (omega arith)
get_ed2k_file_type-type_name (suc zero) rest h k = refl
get_ed2k_file_type-type_name (suc (suc zero)) rest h k = refl
get_ed2k_file_type-type_name (suc (suc (suc zero))) rest h k = refl
get_ed2k_file_type-type_name (suc (suc (suc (suc zero)))) rest h k = refl
get_ed2k_file_type-type_name (suc (suc (suc (suc (suc zero))))) rest h k = refl
get_ed2k_file_type-type_name (suc (suc (suc (suc (suc (suc zero)))))) rest h k = refl
get_ed2k_file_type-type_name (suc (suc (suc (suc (suc (suc (suc zero))))))) rest h k = refl
get_ed2k_file_type-type_name (suc (suc (suc (suc (suc (suc (suc (suc zero)))))))) rest h k = refl
get_ed2k_file_type-type_name (suc (suc (suc (suc (suc (suc (suc (suc (suc t))))))))) rest h k =
    absurd (omega arith)

pub strncmp_eq-agree :
    (s : List ℕ) (m m' : ℕ → ℕ) (e p n : ℕ)
    → ((i : ℕ) → i < e → m i ≡ m' i)
    → p + n ≤ e
    → strncmp_eq s m p n ≡ strncmp_eq s m' p n
unfolding strncmp_eq
strncmp_eq-agree [] m m' e p zero h le = refl
strncmp_eq-agree [] m m' e p (suc n) h le = ground (arith, h p (omega arith))
strncmp_eq-agree (c ∷ s) m m' e p zero h le = refl
strncmp_eq-agree (c ∷ s) m m' e p (suc n) h le =
    ground (arith, h p (omega arith), strncmp_eq-agree s m m' e (p + 1) n h (omega arith))
