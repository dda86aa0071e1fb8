-- ===== src/Tests/Tokens.antt =====
-- Runs of tokens (internal/auth/auth.go) with a library that knows one token.
use mechmind.Base.{
  ℕ, both, Bool-cases, ◌*◌, ◌≡◌, refl, inl, inr, Bool, true, false, ◌&&◌, none, some, ◌++◌, arith,
  ltb, ◌==◌, if◌then◌else◌,
}
use mechmind.Text.{Text, codes, text_eq}
use mechmind.Text.Laws.{text_eq_iff}
use mechmind.Store.{Stored, erred, holds, other}
use mechmind.Http.{answered, refused}
use mechmind.Api.{authorize, bearer}
use mechmind.Start.Auth.{Manager, Token, Jwt, second}
use mechmind.Start.Tokens.{Verifies, with_tokens, ends_at, authorize-issue}
use mechmind.Store.Sessions.Serve.{outside}
use mechmind.Tests.Sessions.{server}
use mechmind.Tests.Decodes.{gateway}

abbrev known : Token
known = record {
  claims = record {
    technician_id = codes "t";
    org_id = codes "o";
    email = codes "a@b";
    role = codes "technician";
  };
  subject = codes "t";
  expires_at = 90;
  issued_at = 30;
  id = codes "j";
}

is_known : Token → Bool
unfolding text_eq
is_known x =
    text_eq x.claims.technician_id (codes "t")
    && (text_eq x.claims.org_id (codes "o")
        && (text_eq x.claims.email (codes "a@b")
            && (text_eq x.claims.role (codes "technician")
                && (text_eq x.subject (codes "t")
                    && (x.expires_at == 90 && (x.issued_at == 30 && text_eq x.id (codes "j")))))))

same_number : (a b : ℕ) → a == b ≡ true → a ≡ b
same_number a b h = ground arith

is_known-known : (x : Token) → is_known x ≡ true → x ≡ known
unfolding is_known
is_known-known x h =
    let (a, h1) = both _ _ h in
    let (b, h2) = both _ _ h1 in
    let (c, h3) = both _ _ h2 in
    let (d, h4) = both _ _ h3 in
    let (e, h5) = both _ _ h4 in
    let (f, h6) = both _ _ h5 in
    let (g, k) = both _ _ h6 in
    cc (
      (text_eq_iff x.claims.technician_id (codes "t")).0 a,
      (text_eq_iff x.claims.org_id (codes "o")).0 b,
      (text_eq_iff x.claims.email (codes "a@b")).0 c,
      (text_eq_iff x.claims.role (codes "technician")).0 d,
      (text_eq_iff x.subject (codes "t")).0 e,
      same_number x.expires_at 90 f,
      same_number x.issued_at 30 g,
      (text_eq_iff x.id (codes "j")).0 k,
    )

signed : Bool → Stored Text
signed true = holds (codes "jwt")
signed false = erred (other (codes "unknown"))

unsigned : {A : Type 0} (t : Text) → signed false ≡ holds t → A
unfolding signed
unsigned t e = cc

abbrev jwt : Jwt
jwt = record {
  sign = λ secret x. signed (is_known x);
  parse = λ secret now t. if ltb now (90 * second) then some known else none;
  new_id = λ n. codes "j";
}

jwt-Verifies : Verifies jwt
unfolding Verifies signed
jwt-Verifies secret t x now h = elim (Bool-cases (is_known x)) [
  | inl same ↦ rw (is_known-known x same) refl
  | inr strange ↦ unsigned t (rw strange at h)
]

abbrev manager : Manager
manager = record { secret = codes "s3cret"; ttl = 60 * second }

issued :
    (with_tokens jwt manager (outside server gateway)).issue 30000000000
      (codes "t")
      (codes "o")
      (codes "a@b")
      (codes "technician")
    ≡ holds (codes "jwt")
unfolding with_tokens is_known signed
issued = refl

authorize-issue_example :
    authorize (with_tokens jwt manager (outside server gateway)) 40000000000 (bearer ++ codes "jwt")
    ≡ (if ltb 40000000000 (ends_at jwt manager jwt-Verifies 30000000000)
        then answered 200 known.claims
        else refused 401 (codes "invalid token"))
authorize-issue_example =
    authorize-issue jwt manager jwt-Verifies (outside server gateway) 30000000000 40000000000
      (codes "t") (codes "o") (codes "a@b") (codes "technician") (codes "jwt") issued
