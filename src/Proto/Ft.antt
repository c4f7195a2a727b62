-- ===== src/Proto/Ft.antt =====
-- src/ed2k_proto.h: enum file_type.
use ed2kd.Base.{ℕ}

abbrev pub any : ℕ
any = 0

abbrev pub audio : ℕ
audio = 1

abbrev pub video : ℕ
video = 2

abbrev pub image : ℕ
image = 3

abbrev pub program : ℕ
program = 4

abbrev pub document : ℕ
document = 5

abbrev pub archive : ℕ
archive = 6

abbrev pub cdimage : ℕ
cdimage = 7

abbrev pub emulecollection : ℕ
emulecollection = 8
