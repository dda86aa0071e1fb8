-- ===== src/Start/Auth.antt =====
-- Tokens and the first administrator (internal/auth/auth.go: Manager, BootstrapFromEnv). The JWT
-- library is a parameter. Times are nanoseconds, and those of a token seconds.
use mechmind.Base.{ℕ, zero, suc, ◌+◌, ◌/◌, not, ◌&&◌, Option, none, some, [], if◌then◌else◌}
use mechmind.Base.Int.{ℤ, pos, negsuc}
use mechmind.Text.{Text, codes, text_eq, trim_space}
use mechmind.Store.{Stored}
use mechmind.Http.{Result, fails, gives}
use mechmind.Api.{Claims}
use mechmind.Start.Settings.{Env}
use mathlib.Core.Option

pub record Manager : Type 0 where
  pub secret : Text
  pub ttl : ℕ

-- What a token holds: the claims with those that are registered.
pub record Token : Type 0 where
  pub claims : Claims
  pub subject : Text
  pub expires_at : ℕ
  pub issued_at : ℕ
  pub id : Text

pub record Jwt : Type 0 where
  -- `SignedString` with HS256, by the secret.
  pub sign : Text → Token → Stored Text
  -- `ParseWithClaims` at a time, with HS256 and the secret: a token that is valid.
  pub parse : Text → ℕ → Text → Option Token
  -- `uuid.NewString`, by the time.
  pub new_id : ℕ → Text

abbrev pub second : ℕ
second = 1000000000

-- A lifetime that is not positive is 24 hours.
unfoldable pub ttl_or_day : ℤ → ℕ
ttl_or_day (pos zero) = 86400000000000
ttl_or_day (pos (suc n)) = suc n
ttl_or_day (negsuc n) = 86400000000000

unfoldable pub new_manager : Text → ℤ → Result Manager
unfolding text_eq trim_space ttl_or_day
new_manager secret ttl =
    if text_eq (trim_space secret) []
    then fails (codes "JWT_SECRET is required")
    else gives (record { secret = secret; ttl = ttl_or_day ttl })

module _ (J : Jwt) (m : Manager) where
  unfoldable pub token_at : ℕ → Claims → Token
  token_at now c = record {
    claims = c;
    subject = c.technician_id;
    expires_at = (now + m.ttl) / second;
    issued_at = now / second;
    id = J.new_id now;
  }

  unfoldable pub issue : ℕ → Text → Text → Text → Text → Stored Text
  unfolding token_at
  issue now technician org email role = J.sign m.secret (
      token_at now
        (record { technician_id = technician; org_id = org; email = email; role = role }))

  unfoldable pub parse_token : ℕ → Text → Option Claims
  parse_token now t = Option.map (λ (x : Token). x.claims) (J.parse m.secret now t)

-- The administrator that the environment names.
pub record Bootstrap : Type 0 where
  pub email : Text
  pub password : Text
  pub name : Text

-- None where the email or the password is missing.
unfoldable pub bootstrap_from_env : Env → Option Bootstrap
unfolding trim_space text_eq
bootstrap_from_env E =
    let email = trim_space (E.get (codes "BOOTSTRAP_ADMIN_EMAIL")) in
    let password = E.get (codes "BOOTSTRAP_ADMIN_PASSWORD") in
    let name = trim_space (E.get (codes "BOOTSTRAP_ADMIN_NAME")) in
    if not (text_eq email []) && not (text_eq password [])
    then some (record {
      email = email;
      password = password;
      name = if text_eq name [] then codes "Super Admin" else name;
    })
    else none
