-- ===== src/Eb/Login.antt =====
-- eb/src/main.c against src/server.c and src/packet.c: what one side sends and the other reads.
use ed2kd.Base.{
  ℕ, zero, suc, ◌+◌, ◌*◌, ◌/◌, ◌%◌, ◌^◌, ◌<◌, ◌≡◌, ap, Option, some, true, List, [], ◌∷◌, arith,
  length, place, codes, block,
}
use ed2kd.Proto.{ed2k_hash_size}
use ed2kd.State.{Client, Config}
use ed2kd.Wire.{
  malformed, check, seek, read16_into, read32_into, read32, read16, memcpy_into, read_string_into,
  skip_taghdr,
}
use ed2kd.Login.{
  parse_login, login_tags, login_tag, login_taghdr, login_value, nick_value, port_value,
  version_value, flags_value,
}
use ed2kd.Packet.{id_change}
use ed2kd.Eb

-- A claim about all lists of `n` numbers, as one about `n` numbers.
abbrev ForAll : ℕ → (List ℕ → Type 0) → Type 0
ForAll zero P = P []
ForAll (suc n) P = (x : ℕ) → ForAll n (λ xs. P (x ∷ xs))

for_all : (n : ℕ) (P : List ℕ → Type 0) → ForAll n P → (xs : List ℕ) → length xs ≡ n → P xs
for_all zero P h [] len = h
for_all zero P h (x ∷ xs) len = absurd (omega (arith, len))
for_all (suc n) P h [] len = absurd (omega (arith, len))
for_all (suc n) P h (x ∷ xs) len = for_all n (λ ys. P (x ∷ ys)) (h x) xs (omega (arith, len))

-- The login packet of eb, as the server sees it behind its header and opcode.
abbrev pub login_memory : List ℕ → ℕ → (ℕ → ℕ) → ℕ → ℕ
login_memory hash pad beyond i = place (Eb.login_body hash pad) beyond (i + 1)

module _ (beyond : ℕ → ℕ) (c : Client) where
  -- The server refuses eb's login, whatever its hash of 16 bytes and its byte of padding: behind the
  -- nick, which it has stored with the hash and the port, the padding shifts the next tag, whose name
  -- then does not end within the packet.
  pub parse_login-login_body :
      (pad : ℕ) (hash : List ℕ)
      → length hash ≡ ed2k_hash_size
      → parse_login (login_memory hash pad beyond) 60 0 c
        ≡ malformed (record c { hash = hash; port = 0; nick = codes "ebtst"; nick_len = 5 })
  unfolding parse_login login_tags login_tag login_taghdr login_value nick_value port_value
      version_value flags_value check seek read16_into read32_into read32 read16 memcpy_into
      read_string_into skip_taghdr place Eb.login_body block
  parse_login-login_body pad =
      for_all 16
        (λ hash.
          parse_login (login_memory hash pad beyond) 60 0 c
          ≡ malformed (record c { hash = hash; port = 0; nick = codes "ebtst"; nick_len = 5 }))
        (λ a b d f g h i j k l m n o p q r. ground arith)

load32-le32 :
    (n : ℕ)
    → n < 2 ^ 32
    → n % 256 + 256 * (n / 256 % 256) + 65536 * (n / 65536 % 256) + 16777216 * (n / 16777216 % 256)
      ≡ n
load32-le32 n h = omega arith

-- eb reads the packet that tells a client its id: whatever the configuration, it takes the whole
-- packet from its input, stores the id, and creates its timer.
pub read_cb-id_change :
    (uncompress : List ℕ → Option (List ℕ)) (beyond : ℕ → ℕ) (cfg : Config) (id : ℕ)
    (c : Eb.EbClient)
    → id < 2 ^ 32
    → Eb.read_cb uncompress beyond (id_change cfg id) c
      ≡ some ([], record c { id = id; ev_action = true })
unfolding Eb.read_cb Eb.read_loop Eb.process_body Eb.process_packet Eb.process_id_change id_change
    place seek read32 read32_into
read_cb-id_change uncompress beyond cfg id c h =
    ap (λ n. some ([], record c { id = n; ev_action = true })) (load32-le32 id h)
