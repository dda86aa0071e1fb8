-- ===== src/Bay/Client.antt =====
-- The bay's calls of the API (cmd/bayui/server.go: apiJSON, login, uploadScan, explain,
-- apiErrBody). JSON, the HTTP client, the clock, the serial ports and the token file are a
-- parameter, over the states W of the world, which holds the server.
use mechmind.Base.{
  ℕ, ◌≡◌, Bool, not, ◌&&◌, ◌||◌, Option, none, some, List, [], ◌∷◌, ◌++◌, leb, if◌then◌else◌,
}
use mechmind.Text.{Text, codes, text_eq, trim_space, has_prefix}
use mechmind.Http.{replied, gives, unsent, fails, Sent, Result, trim_slashes}
use mechmind.Obd.Types.{ScanResult}
use mechmind.Obd.Detect.{SerialPort}
use mechmind.Bay.{BayServer}

pub record Host (F W : Type 0) : Type 1 where
  -- A decoded JSON object.
  pub Doc : Type 0
  pub bay : W → BayServer F Doc
  pub put_bay : BayServer F Doc → W → W
  pub bay-put_bay : (b : BayServer F Doc) (w : W) → bay (put_bay b w) ≡ b
  -- Nanoseconds, and the time of day as "15:04:05".
  pub now : W → ℕ
  pub stamp : W → Text
  -- The string under a key, and the empty text where there is none.
  pub text_at : Text → Doc → Text
  pub doc_at : Text → Doc → Option Doc
  -- A document with a text under a key; `none` for the nil map that a JSON null is decoded to, of
  -- which the assignment panics.
  pub with_text : Text → Text → Doc → Option Doc
  pub parse : Text → Result Doc
  -- The `error` of a body, and the empty text where there is none.
  pub error_field : Text → Text
  pub encode : List (Text × Text) → Text
  pub encode_scan : ScanResult F → Result Text
  pub path_escape : Text → Text
  pub query_escape : Text → Text
  -- `http.NewRequest`: the error, if any, of a method and a URL.
  pub check_request : Text → Text → Option Text
  -- Method, URL, body and token.
  pub exchange : Text → Text → Option Text → Option Text → W → Sent × W
  pub save_token : Text → W → W
  pub remove_token : W → W
  -- The file of the token is not part of the server.
  pub bay-save_token : (t : Text) (w : W) → bay (save_token t w) ≡ bay w
  pub bay-remove_token : (w : W) → bay (remove_token w) ≡ bay w
  pub list_ports : W → Result (List SerialPort)
  pub inspect : W → Text → SerialPort

abbrev is_auth_path : Text → Bool
is_auth_path path =
    has_prefix path (codes "/v1/auth/login") || has_prefix path (codes "/v1/auth/register")

-- The token that goes with a request.
unfoldable pub token_for : Text → Text → Option Text
unfolding text_eq has_prefix
token_for token path =
    if not (text_eq token []) && not (is_auth_path path) then some token else none

module _ {F W : Type 0} (H : Host F W) where
  open H use {
    Doc, bay, parse, error_field, check_request, exchange, encode, encode_scan, text_at, doc_at,
  }

  unfoldable pub api_err_body : Text → Text
  unfolding text_eq trim_space
  api_err_body raw =
      let s = trim_space raw in
      if not (text_eq (error_field raw) [])
      then error_field raw
      else if text_eq s []
      then codes "request failed"
      else s

  -- What `apiJSON` makes of the end of the exchange.
  unfoldable pub read_answer : Text → Sent → Result Doc
  unfolding api_err_body
  read_answer base (unsent e) = fails (codes "API unreachable at " ++ base ++ codes ": " ++ e)
  read_answer base (replied status raw) =
      if leb 300 status then fails (api_err_body raw) else parse raw

  -- A request that cannot be made is not sent.
  abbrev pub unless_rejected : Option Text → W → Result Doc × W → Result Doc × W
  unless_rejected none w r = r
  unless_rejected (some e) w r = (fails e, w)

  unfoldable pub send_request : Text → Text → Option Text → W → Result Doc × W
  unfolding read_answer token_for trim_slashes
  send_request method path body w =
      let b = bay w in
      let url = trim_slashes b.api_url ++ path in
      let (r, w1) = exchange method url body (token_for b.token path) w in
      unless_rejected (check_request method url) w (read_answer b.api_url r, w1)

  -- A body that cannot be encoded is an error.
  unfoldable pub api_json : Text → Text → Option (Result Text) → W → Result Doc × W
  unfolding send_request
  api_json method path none w = send_request method path none w
  api_json method path (some (fails e)) w = (fails e, w)
  api_json method path (some (gives raw)) w = send_request method path (some raw) w

  -- A reply must hold a token; the token and the technician.
  unfoldable pub token_of : Text → Result Doc → Result (Text × Option Doc)
  unfolding text_eq
  token_of what (fails e) = fails e
  token_of what (gives doc) =
      let tok = text_at (codes "token") doc in
      if text_eq tok []
      then fails (what ++ codes " response missing token")
      else gives (tok, doc_at (codes "technician") doc)

  unfoldable pub login : Text → Text → W → Result (Text × Option Doc) × W
  unfolding api_json token_of
  login email password w =
      let body = encode ((codes "email", email) ∷ (codes "password", password) ∷ []) in
      let (r, w1) = api_json (codes "POST") (codes "/v1/auth/login") (some (gives body)) w in
      (token_of (codes "login") r, w1)

  unfoldable pub upload_scan : ScanResult F → W → Result Doc × W
  unfolding api_json
  upload_scan result w = api_json (codes "POST") (codes "/v1/scans") (some (encode_scan result)) w

  unfoldable pub explain : Text → Text → Bool → W → Result Doc × W
  unfolding api_json
  explain code vin narrative w =
      let path =
        codes "/v1/codes/" ++ H.path_escape code ++ codes "/explain?vin=" ++ H.query_escape vin in
      api_json (codes "GET") (if narrative then path ++ codes "&narrative=1" else path) none w
