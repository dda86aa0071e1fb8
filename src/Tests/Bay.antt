-- ===== src/Tests/Bay.antt =====
-- Runs of the local server (cmd/bayui/server.go).
use mechmind.Obd.Detect.{elm_candidate}
use mechmind.Base.{All, refl, true, false, none, some, [], ◌∷◌}
use mechmind.Base.Int.{ℤ, pos}
use mechmind.Text.{Text, codes}
use mechmind.Http.{replied, gives, fails, Result}
use mechmind.Obd.Types.{usb}
use mechmind.Obd.Scan.{Adapter, scan}
use mechmind.Bay.{BayServer}
use mechmind.Bay.Jobs.{start_job, new_job}
use mechmind.Bay.Client.{Host}
use mechmind.Bay.Machine.{
  scan_started, made, run_found, noting, fresh_bench, after, working, Bench, Reached,
}
use mechmind.Bay.Machine.One.{HasOneRun, Reached-HasOneRun}
use mechmind.Bay.Machine.Sound.{IsSound, Reached-IsSound}
use mechmind.Bay.Run.{run_scan}
use mechmind.Bay.Run.Kept.{HasJob, KeepsJobs}
use mechmind.Bay.Run.Ends.{Ends, run_scan-Ends}
use mechmind.Bay.Handlers.{LoginRequest, RegisterRequest, ScanRequest, handle_scan}
use mechmind.Bay.Handlers.Start.{handle_scan-IsStarted, IsStarted}
use mechmind.Tests.Numbers.{whole}

-- The world is the server, and a JSON object is its text. The API answers with a token.
abbrev shop : Host ℤ (BayServer ℤ Text)
shop = record {
  Doc = Text;
  bay = λ w. w;
  put_bay = λ b w. b;
  bay-put_bay = λ b w. refl;
  now = λ w. 0;
  stamp = λ w. codes "10:00:00";
  text_at = λ k d. d;
  doc_at = λ k d. none;
  with_text = λ k v d. some d;
  parse = λ t. gives t;
  error_field = λ t. [];
  encode = λ m. [];
  encode_scan = λ r. gives [];
  path_escape = λ t. t;
  query_escape = λ t. t;
  check_request = λ m u. none;
  exchange = λ m u b t w. (replied 200 (codes "token"), w);
  save_token = λ t w. w;
  remove_token = λ w. w;
  bay-save_token = λ t w. refl;
  bay-remove_token = λ w. refl;
  list_ports = λ w. gives [];
  inspect = λ w p. record {
    path = p;
    kind = elm_candidate;
    vid = [];
    pid = [];
    manufacturer = [];
    product = [];
    label = p;
  };
}

-- An adapter on the same world: it notes its progress in the server and finds a vehicle.
abbrev noted : Adapter ℤ
noted = record {
  State = BayServer ℤ Text;
  name = codes "elm";
  link_type = usb;
  open_up = λ w. (none, w);
  close = λ w. w;
  identify = λ w. ((record { vin = codes "WVWZZZ1JZXW000001"; ecu = []; proto = [] }, none), w);
  read_dtcs = λ w. ((some [], none), w);
  read_freeze_frame = λ c w. ((none, none), w);
  read_live = none;
  ctx_err = λ w. none;
  report = λ t w. w;
}

-- The first job of a server is running.
abbrev running : BayServer ℤ Text
running = record {
  api_url = codes "http://api/";
  token = codes "t";
  job = some 0;
  jobs = new_job 0 (codes "10:00:00") ∷ [];
}

shop-KeepsJobs : KeepsJobs shop
unfolding KeepsJobs
shop-KeepsJobs i m u b t w h = h

scanned-HasJob : HasJob shop 0 (scan whole noted running).1
unfolding HasJob scan
scanned-HasJob = (new_job 0 (codes "10:00:00"), refl)

run_scan-Ends_example :
    Ends shop 0 false (scan whole noted running).0.0 (run_scan whole noted shop 0 false running)
run_scan-Ends_example = run_scan-Ends whole noted shop shop-KeepsJobs 0 false running scanned-HasJob

-- A server on which a scan was started and then asked to stop.
abbrev quiet : Bench ℤ Text
quiet = fresh_bench (codes "http://api") (codes "t")

abbrev started : Bench ℤ Text
started = record quiet {
  bay = record quiet.bay { job = some 0; jobs = new_job 0 [] ∷ [] };
  runs = working 0 ∷ [];
}

started-Reached : Reached started
unfolding fresh_bench start_job
started-Reached = after (made (codes "http://api") (codes "t")) (scan_started 0 [] 0 refl)

abbrev noting_one : Bench ℤ Text
noting_one = record started { runs = noting 0 0 ∷ [] }

noting_one-Reached : Reached noting_one
noting_one-Reached = after started-Reached (run_found 0 0 [] [] refl refl)

Reached-HasOneRun_example : HasOneRun noting_one.bay noting_one.runs
Reached-HasOneRun_example = Reached-HasOneRun noting_one-Reached

Reached-IsSound_example : All IsSound noting_one.bay.jobs
Reached-IsSound_example = Reached-IsSound noting_one-Reached

abbrev login_request : Result LoginRequest
login_request = gives (record { api_url = []; email = codes "a@b"; password = codes "secret" })

abbrev register_request : Result RegisterRequest
register_request = fails (codes "EOF")

abbrev scan_request : ScanRequest
scan_request = record { mock = true; device = []; baud = pos 0 }

handle_scan-IsStarted_example :
    IsStarted shop running (handle_scan shop (gives scan_request) running)
handle_scan-IsStarted_example = handle_scan-IsStarted shop (gives scan_request) running
