-- ===== src/Login/Keeping.antt =====
-- src/server.c, process_login_request: properties of the client that its assignments keep.
use ed2kd.Base.{ℕ, zero, suc, List, ◌≤◌, false, ◌==◌, length}
use ed2kd.Proto.{max_nick_len, ed2k_hash_size}
use ed2kd.Proto.Tn
use ed2kd.State.{Client}
use ed2kd.Wire.Keeping.{
  Keeps, Keeps->>=, Keeps-if, Holds->>=, Keeps-pure, Keeps-here, Keeps-check, Keeps-modify,
  Keeps-seek, Keeps-skip_taghdr, Keeps-read32, Keeps-read16_into, Keeps-read32_into,
  Keeps-memcpy_into, Keeps-read_string_into,
}
use ed2kd.Login.{
  set_hash, set_port, set_nick, set_tcp_flags, login_taghdr, nick_value, port_value, version_value,
  flags_value, emule_value, login_value, login_tag, login_tags, parse_login,
}

-- A property that each of the assignments keeps.
pub record IsStable (I : Client → Type 0) : Type 0 where
  pub hash : (bytes : List ℕ) (c : Client) → I c → I (set_hash bytes c)
  pub port : (v : ℕ) (c : Client) → I c → I (set_port v c)
  pub flags : (v : ℕ) (c : Client) → I c → I (set_tcp_flags v c)
  pub limit : (c : Client) → I c → I (record c { nick_len = max_nick_len })
  pub nick :
      (bytes : List ℕ) (c : Client) → length bytes ≤ max_nick_len → I c → I (set_nick bytes c)

module _ (I : Client → Type 0) (stable : IsStable I) (m : ℕ → ℕ) (e : ℕ) where
  keep_taghdr : Keeps I (login_taghdr m e)
  unfolding login_taghdr
  keep_taghdr = search (Keeps->>=, Keeps-pure, Keeps-here, Keeps-check, Keeps-skip_taghdr) depth 9

  keep_nick : (type : ℕ) → Keeps I (nick_value m e type)
  unfolding nick_value
  keep_nick type = Keeps->>= I _ _ (Keeps-check I _) (λ _.
      Keeps->>= I _ _ (Keeps-modify I _ stable.limit)
        (λ _. Keeps-read_string_into I m e max_nick_len set_nick stable.nick))

  keep_port : (type : ℕ) → Keeps I (port_value m e type)
  unfolding port_value
  keep_port type =
      Keeps->>= I _ _ (Keeps-check I _) (λ _. Keeps-read16_into I m e set_port stable.port)

  keep_version : (type : ℕ) → Keeps I (version_value m e type)
  unfolding version_value
  keep_version type = search (Keeps->>=, Keeps-check, Keeps-read32)

  keep_flags : (type : ℕ) → Keeps I (flags_value m e type)
  unfolding flags_value
  keep_flags type =
      Keeps->>= I _ _ (Keeps-check I _) (λ _. Keeps-read32_into I m e set_tcp_flags stable.flags)

  keep_emule : (type : ℕ) → Keeps I (emule_value m e type)
  unfolding emule_value
  keep_emule type = search (Keeps->>=, Keeps-check, Keeps-read32, Keeps-pure)

  keep_value : (type name : ℕ) → Keeps I (login_value m e type name)
  unfolding login_value
  keep_value type name = Keeps-if I (name == Tn.name) _ _ (keep_nick type) (
      Keeps-if I (name == Tn.port) _ _ (keep_port type) (
        Keeps-if I (name == Tn.version) _ _ (keep_version type) (
          Keeps-if I (name == Tn.server_flags) _ _ (keep_flags type)
            (Keeps-if I (name == Tn.emule_version) _ _ (keep_emule type) (Keeps-check I false)))))

  keep_tag : Keeps I (login_tag m e)
  unfolding login_tag
  keep_tag = Keeps->>= I _ _ keep_taghdr (λ t. keep_value t.0 t.1)

  keep_tags : (n : ℕ) → Keeps I (login_tags m e n)
  unfolding login_tags
  keep_tags zero = record { keep = λ p c h. h }
  keep_tags (suc n) =
      let ih = keep_tags n in
      record {
        keep = λ p c h.
            Holds->>= I (login_tag m e p c) (λ _. login_tags m e n) (keep_tag.keep p c h) (λ _. ih);
      }

  pub parse_login-Keeps : Keeps I (parse_login m e)
  unfolding parse_login
  parse_login-Keeps =
      (Keeps->>= I _ _
        (Keeps-memcpy_into I m e ed2k_hash_size set_hash (λ bytes c k h. stable.hash bytes c h))
        (λ _. Keeps->>= I _ _ (Keeps-seek I e 4) (λ _.
          Keeps->>= I _ _ (Keeps-read16_into I m e set_port stable.port)
            (λ _. Keeps->>= I _ _ (Keeps-read32 I m e) (λ n. keep_tags n)))))
