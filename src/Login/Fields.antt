-- ===== src/Login/Fields.antt =====
-- src/server.c, process_login_request: what it stores of the nick.
use ed2kd.Base.{ℕ, ◌≤◌, arith, length}
use ed2kd.Proto.{max_nick_len}
use ed2kd.State.{Client}
use ed2kd.Wire.Keeping.{Holds}
use ed2kd.Login.{parse_login}
use ed2kd.Login.Keeping.{IsStable, parse_login-Keeps}

-- The nick and its terminating null byte lie in the 256 bytes of `char nick[MAX_NICK_LEN + 1]`.
abbrev pub NickFits : Client → Type 0
NickFits c = (c.nick_len ≤ max_nick_len) × (length c.nick ≤ max_nick_len)

NickFits-IsStable : IsStable NickFits
NickFits-IsStable = record {
  hash = λ bytes c h. h;
  port = λ v c h. h;
  flags = λ v c h. h;
  limit = λ c h. omega arith;
  nick = λ bytes c le h. (le, le);
}

module _ (m : ℕ → ℕ) (e : ℕ) where
  -- Whatever the packet holds, accepted or malformed, a nick that was inside its buffer is so
  -- afterwards.
  pub parse_login-NickFits :
      (p : ℕ) (c : Client) → NickFits c → Holds NickFits (parse_login m e p c)
  parse_login-NickFits = (parse_login-Keeps NickFits NickFits-IsStable m e).keep
