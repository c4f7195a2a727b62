-- ===== src/Login/Reads.antt =====
-- src/server.c, process_login_request: the bytes that it reads.
use ed2kd.Base.{
  ℕ, zero, suc, ◌+◌, ◌*◌, ◌/◌, ◌%◌, ◌≤◌, ◌≡◌, Bool, true, false, arith, ◌==◌, leb, if◌then◌else◌,
  Bool-cases, leb→le, inl, inr,
}
use ed2kd.Proto.Tn
use ed2kd.State.{Client}
use ed2kd.Wire.{P, go, ◌>>=◌, ◌>>◌, check, here, seek, pure, skip_taghdr}
use ed2kd.Wire.Locality.{
  Agree, Same, Same->>=, Same-refl, Out-cases, Same-read16_into, Same-read32_into, Same-read32,
  Same-memcpy_into, Same-read_string_into,
}
use ed2kd.Login.{
  login_taghdr, nick_value, port_value, version_value, flags_value, emule_value, login_value,
  login_tag, login_tags, parse_login,
}

Same-if :
    {A : Type 0} (b : Bool) (f f' g g' : P Client A)
    → Same f f'
    → Same g g'
    → Same (if b then f else g) (if b then f' else g')
Same-if true f f' g g' hf hg = hf
Same-if false f f' g g' hf hg = hg

-- The header as a function of its four bytes.
taghdr_of : ℕ → ℕ → ℕ → ℕ → ℕ → P Client (ℕ × ℕ)
unfolding check skip_taghdr
taghdr_of e type lo hi name = do
  at ← here
  check (type / 128 % 2 == 0)
  check (1 == lo + 256 * hi)
  seek e (1 + 2 + (lo + 256 * hi))
  pure (type, name)

too_short :
    (e type lo hi name p : ℕ) (s : Client) (p' : ℕ) (s' : Client) (a : ℕ × ℕ)
    → leb (p + 4) e ≡ false
    → taghdr_of e type lo hi name p s ≡ go p' s' a
    → ⊥
unfolding taghdr_of
too_short e type lo hi name p s p' s' a short eq = elim (Bool-cases (type / 128 % 2 == 0)) [
  | inr odd ↦ cc (rw (odd, taghdr_of) at eq)
  | inl old ↦ elim (Bool-cases (1 == lo + 256 * hi)) [
    | inr long ↦ cc (rw (long, check) at (rw (old, taghdr_of) at eq))
    | inl one ↦
        let n : lo + 256 * hi ≡ 1 = ground arith in
        let past : leb (p + (1 + 2 + 1)) e ≡ false = ground arith in
        cc (rw (past, seek, ◌>>=◌) at (rw n at (rw (one, check) at (rw (old, taghdr_of) at eq))))
  ]
]

module _ (m m' : ℕ → ℕ) (e : ℕ) (h : Agree m m' e) where
  Same-login_taghdr : Same (login_taghdr m e) (login_taghdr m' e)
  unfolding login_taghdr taghdr_of
  Same-login_taghdr = record {
    run = λ p s p' s' a eq. elim (Bool-cases (leb (p + 4) e)) [
      | inl fits ↦ agreed p s p' s' a (leb→le _ _ fits) eq
      | inr short ↦
          absurd (too_short e (m p) (m (p + 1)) (m (p + 1 + 1)) (m (p + 3)) p s p' s' a short eq)
    ];
  }
    where
      agreed :
          (p : ℕ) (s : Client) (p' : ℕ) (s' : Client) (a : ℕ × ℕ)
          → p + 4 ≤ e
          → taghdr_of e (m p) (m (p + 1)) (m (p + 1 + 1)) (m (p + 3)) p s ≡ go p' s' a
          → taghdr_of e (m' p) (m' (p + 1)) (m' (p + 1 + 1)) (m' (p + 3)) p s ≡ go p' s' a
      agreed p s p' s' a le eq =
          rw
            (
              ← h p (omega arith),
              ← h (p + 1) (omega arith),
              ← h (p + 1 + 1) (omega arith),
              ← h (p + 3) (omega arith),
            )
            eq

  Same-nick_value : (type : ℕ) → Same (nick_value m e type) (nick_value m' e type)
  unfolding nick_value
  Same-nick_value type = search (Same->>=, Same-refl, Same-read_string_into m m' e h)

  Same-port_value : (type : ℕ) → Same (port_value m e type) (port_value m' e type)
  unfolding port_value
  Same-port_value type = search (Same->>=, Same-refl, Same-read16_into m m' e h)

  Same-version_value : (type : ℕ) → Same (version_value m e type) (version_value m' e type)
  unfolding version_value
  Same-version_value type = search (Same->>=, Same-refl, Same-read32 m m' e h)

  Same-flags_value : (type : ℕ) → Same (flags_value m e type) (flags_value m' e type)
  unfolding flags_value
  Same-flags_value type = search (Same->>=, Same-refl, Same-read32_into m m' e h)

  Same-emule_value : (type : ℕ) → Same (emule_value m e type) (emule_value m' e type)
  unfolding emule_value
  Same-emule_value type = search (Same->>=, Same-refl, Same-read32 m m' e h)

  Same-login_value : (type name : ℕ) → Same (login_value m e type name) (login_value m' e type name)
  unfolding login_value
  Same-login_value type name = Same-if (name == Tn.name) _ _ _ _ (Same-nick_value type) (
      Same-if (name == Tn.port) _ _ _ _ (Same-port_value type) (
        Same-if (name == Tn.version) _ _ _ _ (Same-version_value type) (
          Same-if (name == Tn.server_flags) _ _ _ _ (Same-flags_value type)
            (Same-if (name == Tn.emule_version) _ _ _ _ (Same-emule_value type) (Same-refl _)))))

  Same-login_tag : Same (login_tag m e) (login_tag m' e)
  unfolding login_tag
  Same-login_tag = Same->>= _ _ _ _ Same-login_taghdr (λ t. Same-login_value t.0 t.1)

  Same-login_tags : (n : ℕ) → Same (login_tags m e n) (login_tags m' e n)
  unfolding login_tags
  Same-login_tags zero = record { run = λ p c p' c' a eq. eq }
  Same-login_tags (suc n) =
      let ih = Same-login_tags n in
      record {
        run = λ p c p' c' a eq. elim (Out-cases (login_tag m e p c)) [
          | inl (q, t, u, k) ↦
              rw (Same-login_tag.run p c q t u k, login_tags)
                (ih.run q t p' c' a (rw (k, login_tags) at eq))
          | inr (t, k) ↦ cc (rw (k, login_tags) at eq)
        ];
      }

  Same-parse_login : Same (parse_login m e) (parse_login m' e)
  unfolding parse_login
  Same-parse_login =
      search
        (
          Same->>=,
          Same-refl,
          Same-memcpy_into m m' e h,
          Same-read16_into m m' e h,
          Same-read32 m m' e h,
          Same-login_tags,
        )
        depth 9

  -- If a login is accepted with the packet in one memory, it is accepted with the same result in
  -- every memory that holds the same packet, whatever lies behind the packet.
  pub parse_login-agree :
      (p p' : ℕ) (c c' : Client)
      → parse_login m e p c ≡ go p' c' tt
      → parse_login m' e p c ≡ go p' c' tt
  parse_login-agree p p' c c' accepted = Same-parse_login.run p c p' c' tt accepted
