-- ===== src/Start/Tokens.antt =====
-- The life of a token (internal/auth/auth.go: Issue, Parse; internal/api/server.go: requireAuth).
use mechmind.Base.{
  ℕ, Bool-cases, ◌+◌, ◌*◌, ◌/◌, ◌≡◌, refl, inl, inr, none, some, ◌++◌, ltb, if◌then◌else◌,
}
use mechmind.Text.{Text, codes, has_prefix}
use mechmind.Store.{holds}
use mechmind.Http.{answered, refused}
use mechmind.Api.{Outside, authorize, bearer}
use mechmind.Start.Auth.{Manager, Token, Jwt, second, token_at, issue, parse_token}

-- What the JWT library documents: a signed token is parsed with the same secret until it expires,
-- and not after.
unfoldable pub Verifies : Jwt → Type 0
Verifies J =
    (secret t : Text) (x : Token) (now : ℕ)
    → J.sign secret x ≡ holds t
    → J.parse secret now t ≡ (if ltb now (x.expires_at * second) then some x else none)

-- The handlers' interface with the tokens of a manager.
unfoldable pub with_tokens : {F : Type 0} → Jwt → Manager → Outside F → Outside F
unfolding issue parse_token
with_tokens J m O = record O { issue = issue J m; parse_token = parse_token J m }

module _ (J : Jwt) (m : Manager) (verifies : Verifies J) where
  -- The end of a token's life.
  unfoldable pub ends_at : ℕ → ℕ
  ends_at now = (now + m.ttl) / second * second

  parse_token-issue :
      (now later : ℕ) (technician org email role t : Text)
      → issue J m now technician org email role ≡ holds t
      → parse_token J m later t ≡ (
          if ltb later (ends_at now)
          then some
              (record { technician_id = technician; org_id = org; email = email; role = role })
          else none)
  unfolding parse_token issue ends_at token_at Verifies
  parse_token-issue now later technician org email role t signed =
      let x =
        token_at J m now
          (record { technician_id = technician; org_id = org; email = email; role = role }) in
      rw (verifies m.secret t x later signed)
        (elim (Bool-cases (ltb later ((now + m.ttl) / second * second))) [
          | inl alive ↦ rw alive refl
          | inr dead ↦ rw dead refl
        ])

  -- A token that is issued opens the API to its claims until the second in which its lifetime ends,
  -- and is refused as invalid from then on.
  pub authorize-issue :
      {F : Type 0} (O : Outside F) (now later : ℕ) (technician org email role t : Text)
      → (with_tokens J m O).issue now technician org email role ≡ holds t
      → authorize (with_tokens J m O) later (bearer ++ t) ≡ (
          if ltb later (ends_at now)
          then answered 200
              (record { technician_id = technician; org_id = org; email = email; role = role })
          else refused 401 (codes "invalid token"))
  unfolding with_tokens authorize has_prefix
  authorize-issue O now later technician org email role t signed =
      rw (parse_token-issue now later technician org email role t signed)
        (elim (Bool-cases (ltb later (ends_at now))) [
          | inl alive ↦ rw alive refl
          | inr dead ↦ rw dead refl
        ])
