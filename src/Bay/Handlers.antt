-- ===== src/Bay/Handlers.antt =====
-- The handlers of the local server (cmd/bayui/server.go). The request's body is decoded JSON, or
-- its error; what a started scan runs on is part of the answer of handleScan.
pub mod Session
pub mod Start
use mechmind.Base.{
  ℕ, zero, suc, ◌+◌, ◌/◌, Bool, not, Option, none, some, List, [], ◌∷◌, ◌++◌, if◌then◌else◌,
}
use mechmind.Base.Int.{ℤ, pos, negsuc}
use mechmind.Text.{Text, codes, text_eq, trim_space}
use mechmind.Http.{fails, gives, refused, answered, Result, Answer, trim_slashes}
use mechmind.Obd.Detect.{
  display_label, j2534_unsupported, no_device, SerialPort, first_elm_path, is_j2534, j2534_text,
  PathError, PortChoice,
}
use mechmind.Bay.{BayServer}
use mechmind.Bay.Jobs.{Status, job_status, start_job, stop_scan, budget}
use mechmind.Bay.Client.{Host, login, explain, api_json, token_of}

pub record LoginRequest : Type 0 where
  pub api_url : Text
  pub email : Text
  pub password : Text

pub record RegisterRequest : Type 0 where
  pub api_url : Text
  pub email : Text
  pub password : Text
  pub display_name : Text
  pub shop_name : Text

pub record ScanRequest : Type 0 where
  pub mock : Bool
  pub device : Text
  pub baud : ℤ

-- The adapter of a scan: the mock with its VIN and codes, or the driver with its path and speed.
pub data Chosen : Type 0 where
  mock_chosen : Text → List Text → Chosen
  usb_chosen : Text → ℕ → Chosen

pub login_first : Text
login_first = codes "log in first — use a shop technician account, not the bootstrap super_admin"

pub path_error_text : PathError → Text
path_error_text no_device =
    codes "no USB serial device found — plug in the ELM327, or use mock mode"
path_error_text j2534_unsupported = j2534_text

-- `NewUSBAdapter` sets 38400, and a speed above 0 replaces it.
pub baud_or : ℤ → ℕ
baud_or (pos zero) = 38400
baud_or (pos (suc n)) = suc n
baud_or (negsuc n) = 38400

usb_path : Result (List SerialPort) → Result Text
usb_path (fails e) = fails e
usb_path (gives ports) = elim (first_elm_path ports) [
  | PortChoice.chosen p ↦ gives p
  | PortChoice.refused e ↦ fails (path_error_text e)
]

abbrev usb_on : ℤ → Result Text → Result Chosen
usb_on baud (fails e) = fails e
usb_on baud (gives path) = gives (usb_chosen path (baud_or baud))

module _ {F W : Type 0} (H : Host F W) where
  open H use {Doc, bay, put_bay, stamp, encode}

  -- The path of a device that the request names: not one of a J2534 adapter.
  named_path : Text → W → Result Text
  named_path path w =
      let info = H.inspect w path in
      if is_j2534 info.kind
      then fails (j2534_text ++ codes " (" ++ display_label info ++ codes ")")
      else gives path

  unfoldable pub build_adapter : ScanRequest → W → Result Chosen
  unfolding usb_path named_path text_eq trim_space
  build_adapter req w =
      let path = trim_space req.device in
      if req.mock
      then gives (mock_chosen (codes "MOCKTESTVIN000001") (codes "P0300" ∷ codes "P0171" ∷ []))
      else if text_eq path []
      then usb_on req.baud (usb_path (H.list_ports w))
      else usb_on req.baud (named_path path w)

  -- An API URL in the request replaces the one in use.
  pub use_url : Text → W → W
  unfolding text_eq trim_space trim_slashes
  use_url url w =
      if text_eq (trim_space url) []
      then w
      else put_bay (record (bay w) { api_url = trim_slashes url }) w

  pub keep_token : Text → W → W
  keep_token tok w = H.save_token tok (put_bay (record (bay w) { token = tok }) w)

  -- The end of a login or a registration: with a token the session is open.
  pub open_session : ℕ → ℕ → Result (Text × Option Doc) → W → Answer (Option Doc) × W
  unfolding keep_token
  open_session bad good (fails e) w = (refused bad e, w)
  open_session bad good (gives (tok, tech)) w = (answered good tech, keep_token tok w)

  unfoldable pub handle_login : Result LoginRequest → W → Answer (Option Doc) × W
  unfolding use_url login open_session
  handle_login (fails e) w = (refused 400 e, w)
  handle_login (gives req) w =
      let (r, w1) = login H req.email req.password (use_url req.api_url w) in
      open_session 401 200 r w1

  -- The organization of the reply is left out of the answer.
  unfoldable pub handle_register : Result RegisterRequest → W → Answer (Option Doc) × W
  unfolding use_url api_json token_of open_session
  handle_register (fails e) w = (refused 400 e, w)
  handle_register (gives req) w =
      let body = encode (
        (codes "email", req.email)
        ∷ (codes "password", req.password)
        ∷ (codes "display_name", req.display_name)
        ∷ (codes "shop_name", req.shop_name)
        ∷ []) in
      let (r, w1) =
        api_json H (codes "POST") (codes "/v1/auth/register") (some (gives body))
          (use_url req.api_url w) in
      open_session 400 201 (token_of H (codes "register") r) w1

  unfoldable pub handle_logout : W → Answer (Unit {0}) × W
  handle_logout w = (answered 200 tt, H.remove_token (put_bay (record (bay w) { token = [] }) w))

  abbrev pub started_or : Option (ℕ × BayServer F Doc) → Chosen → W → Answer (ℕ × Chosen) × W
  started_or none a w = (refused 409 (codes "a scan is already running"), w)
  started_or (some (i, b)) a w = (answered 202 (i, a), put_bay b w)

  -- A started scan: the job and what it runs on.
  pub start_scan : Chosen → W → Answer (ℕ × Chosen) × W
  unfolding start_job
  start_scan a w = started_or (start_job (H.now w) (stamp w) (bay w)) a w

  pub scan_on : Result Chosen → W → Answer (ℕ × Chosen) × W
  unfolding start_scan
  scan_on (fails e) w = (refused 400 e, w)
  scan_on (gives a) w = start_scan a w

  unfoldable pub handle_scan : Result ScanRequest → W → Answer (ℕ × Chosen) × W
  unfolding scan_on build_adapter text_eq
  handle_scan (fails e) w = (refused 400 e, w)
  handle_scan (gives req) w =
      let started = scan_on (build_adapter req w) w in
      if text_eq (bay w).token [] then (refused 401 login_first, w) else started

  unfoldable pub handle_scan_cancel : W → Answer Bool × W
  unfolding stop_scan
  handle_scan_cancel w =
      let (stopped, b) = stop_scan (stamp w) (bay w) in (answered 200 stopped, put_bay b w)

  -- The process then ends, which is not modelled.
  unfoldable pub handle_quit : W → Answer (Unit {0}) × W
  unfolding stop_scan
  handle_quit w = let (stopped, b) = stop_scan (stamp w) (bay w) in (answered 200 tt, put_bay b w)

  handle_scan_status : W → Answer (Status F Doc)
  unfolding job_status
  handle_scan_status w = answered 200 (job_status (H.now w) (bay w))

  ports_answer : Result (List SerialPort) → Answer (List SerialPort)
  ports_answer (fails e) = refused 500 e
  ports_answer (gives ports) = answered 200 ports

  handle_devices : W → Answer (List SerialPort)
  unfolding ports_answer
  handle_devices w = ports_answer (H.list_ports w)

  answer_doc : ℕ → Result Doc → Answer Doc
  answer_doc bad (fails e) = refused bad e
  answer_doc bad (gives d) = answered 200 d

  unfoldable pub handle_explain : Text → Text → Bool → W → Answer Doc × W
  unfolding text_eq explain answer_doc
  handle_explain code vin narrative w =
      let (r, w1) = explain H code vin narrative w in
      if text_eq code [] then (refused 400 (codes "code required"), w) else (answer_doc 502 r, w1)
