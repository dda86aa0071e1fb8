-- ===== src/Bay/Handlers/Session.antt =====
-- The token of the session (cmd/bayui/server.go: handleLogin, handleRegister, handleLogout).
use mechmind.Bay.Handlers.{
  use_url, RegisterRequest, login_first, LoginRequest, ScanRequest, handle_logout, handle_register,
  keep_token, handle_login, open_session, handle_scan,
}
use mechmind.Http.{answered, gives, fails, refused, Answer, Result}
use mechmind.Bay.Client.{api_json, login, token_of, Host}
use mechmind.Base.{Bool-cases, ℕ, ◌≡◌, refl, inl, inr, false, Option, some, [], ◌∷◌}
use mechmind.Text.{Text, codes, text_eq}

module _ {F W : Type 0} (H : Host F W) where
  open H use {Doc, bay, put_bay, encode}

  -- Where the answer is not an error, the server holds a token.
  pub HasSession : {A : Type 0} → Answer A × W → Type 0
  HasSession (refused s e, w) = Unit
  HasSession (answered s a, w) = text_eq (bay w).token [] ≡ false

  -- The token of the reply, where there is one, is not empty.
  HasToken : Result (Text × Option Doc) → Type 0
  HasToken (fails e) = Unit
  HasToken (gives (tok, tech)) = text_eq tok [] ≡ false

  token_of-HasToken : (what : Text) (r : Result Doc) → HasToken (token_of H what r)
  unfolding HasToken token_of
  token_of-HasToken what (fails e) = tt
  token_of-HasToken what (gives doc) =
      elim (Bool-cases (text_eq (H.text_at (codes "token") doc) [])) [
        | inl missing ↦ rw missing tt
        | inr there ↦ rw there there
      ]

  open_session-HasSession :
      (bad good : ℕ) (r : Result (Text × Option Doc)) (w : W)
      → HasToken r
      → HasSession (open_session H bad good r w)
  unfolding open_session keep_token HasSession HasToken
  open_session-HasSession bad good (fails e) w h = tt
  open_session-HasSession bad good (gives (tok, tech)) w h =
      rw
        (
          H.bay-save_token tok (put_bay (record (bay w) { token = tok }) w),
          H.bay-put_bay (record (bay w) { token = tok }) w,
        )
        h

  handle_login-HasSession : (l : Result LoginRequest) (w : W) → HasSession (handle_login H l w)
  unfolding handle_login login HasSession
  handle_login-HasSession (fails e) w = tt
  handle_login-HasSession (gives req) w =
      let body = encode ((codes "email", req.email) ∷ (codes "password", req.password) ∷ []) in
      let (r, w1) =
        api_json H (codes "POST") (codes "/v1/auth/login") (some (gives body))
          (use_url H req.api_url w) in
      open_session-HasSession 401 200 (token_of H (codes "login") r) w1
        (token_of-HasToken (codes "login") r)

  handle_register-HasSession :
      (l : Result RegisterRequest) (w : W) → HasSession (handle_register H l w)
  unfolding handle_register HasSession
  handle_register-HasSession (fails e) w = tt
  handle_register-HasSession (gives req) w =
      open_session-HasSession 400 201 _ _ (token_of-HasToken (codes "register") _)

  -- A login or a registration is answered without an error only where the server then holds a
  -- token that is not empty.
  pub session-HasSession :
      (l : Result LoginRequest) (r : Result RegisterRequest) (w : W)
      → HasSession (handle_login H l w) × HasSession (handle_register H r w)
  session-HasSession l r w = (handle_login-HasSession l w, handle_register-HasSession r w)

  -- After a logout a scan is refused, and nothing of the world changes.
  handle_logout-handle_scan :
      (req : ScanRequest) (w : W)
      → handle_scan H (gives req) (handle_logout H w).1
        ≡ (refused 401 login_first, (handle_logout H w).1)
  unfolding handle_scan handle_logout text_eq
  handle_logout-handle_scan req w =
      rw
        (
          H.bay-remove_token (put_bay (record (bay w) { token = [] }) w),
          H.bay-put_bay (record (bay w) { token = [] }) w,
        )
        refl
