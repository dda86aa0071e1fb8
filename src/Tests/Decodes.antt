-- ===== src/Tests/Decodes.antt =====
-- Runs of the work of the jobs (internal/enrichment/worker.go, nhtsa.go) and of the API over the
-- store.
use mechmind.Base.{ℕ, All, ◌+◌, refl, none, [], ◌∷◌, ◌++◌}
use mechmind.Base.Int.{ℤ, pos}
use mechmind.Text.{codes}
use mechmind.Http.{replied, gives}
use mechmind.Store.{other, erred}
use mechmind.Store.Sessions.Serve.{Gateway, ShowsOwn, served_scans-ShowsOwn}
use mechmind.Enrichment.Adds.{IsIdle}
use mechmind.Enrichment.Nhtsa.{Network, string, LeanVin, new_client}
use mechmind.Enrichment.Nhtsa.Methods.{recalls_by_mmy}
use mechmind.Enrichment.Nhtsa.Bounds.{AllLean, recalls_by_mmy-AllLean}
use mechmind.Enrichment.Decode.{JobJson, keep_vin}
use mechmind.Enrichment.Decode.Work.{worker_tick}
use mechmind.Enrichment.Decode.Idle.{worker_tick-IsIdle}
use mechmind.Enrichment.Decode.Vehicle.{Stops, IsDecoded, keep_vin-IsDecoded}
use mechmind.Api.{Claims}
use mechmind.Tests.Numbers.{whole}
use mechmind.Tests.Enrichment.{steady, waiting, waiting-IsIdle}
use mechmind.Tests.Sessions.{server, one_scan, recalled}

-- A network on which every VIN is a Toyota of 2012 with one recall.
abbrev network : Network ℤ
network = record {
  World = ℕ;
  send = λ url w. (replied 200 (codes "{}"), w + 1);
  path_escape = λ t. t;
  encode = λ make model year. make ++ model ++ year;
  read_results = λ t. gives (
      ((codes "Make", string (codes "TOYOTA"))
        ∷ (codes "Model", string (codes "RAV4"))
        ∷ (codes "ModelYear", string (codes "2012"))
        ∷ [])
      ∷ []);
  read_recalls = λ t. gives (
      ((codes "NHTSACampaignNumber", string (codes "12V1"))
        ∷ (codes "Summary", string (codes "Airbag"))
        ∷ [])
      ∷ []);
  print_float = λ x. [];
}

abbrev json : JobJson
json = record {
  read_vin = λ t. gives (codes "c", codes "WVWZZZ1JZXW000001");
  read_mmy = λ t. gives (record {
    vehicle_id = codes "c";
    make = codes "TOYOTA";
    model = codes "RAV4";
    year = pos 2012;
  });
  write_mmy = λ p. codes "{}";
}

recalls_by_mmy-AllLean_example :
    AllLean (recalls_by_mmy whole network new_client (codes "TOYOTA") (codes "RAV4") (pos 2012) 0).0
recalls_by_mmy-AllLean_example =
    recalls_by_mmy-AllLean whole network new_client (codes "TOYOTA") (codes "RAV4") (pos 2012) 0

worker_tick-IsIdle_example :
    All IsIdle
      (worker_tick whole server steady json network new_client
        (λ s. ((none, []), s))
        (codes "true")
        (waiting, (one_scan, 0))).0.jobs
worker_tick-IsIdle_example =
    worker_tick-IsIdle whole server steady json network new_client (λ n. refl)
      (λ s. ((none, []), s)) (codes "true") (waiting, (one_scan, 0)) waiting-IsIdle

abbrev lean : LeanVin
lean = record {
  make = codes "TOYOTA";
  model = codes "RAV4";
  year = pos 2012;
  body_class = [];
  fuel_type = [];
  displacement_l = codes "2.5";
  cylinders = codes "4";
  drive_type = [];
  engine_note = [];
  error_code = [];
  error_text = [];
}

keep_vin-IsDecoded_example :
    Stops
      (IsDecoded server (codes "c") (codes "c") lean (waiting, recalled))
      (keep_vin server steady json (codes "c") (codes "c") lean waiting recalled)
keep_vin-IsDecoded_example =
    keep_vin-IsDecoded server steady json (codes "c") (codes "c") lean waiting recalled

abbrev pub gateway : Gateway
gateway = record {
  issue = λ n t o e r. erred (other (codes "no key"));
  parse_token = λ n t. none;
  service = steady;
  payloads = record { vin_payload = λ v w. codes "{}"; seed_payload = codes "{}" };
  forced_payload = codes "{}";
  stats_text = λ counts. [];
}

abbrev stranger : Claims
stranger = record {
  technician_id = codes "t2";
  org_id = codes "x";
  email = [];
  role = codes "technician";
}

served_scans-ShowsOwn_example :
    ShowsOwn server gateway stranger (codes "sc") (codes "WVWZZZ1JZXW000001") (one_scan, waiting)
served_scans-ShowsOwn_example =
    served_scans-ShowsOwn server gateway stranger (codes "sc") (codes "WVWZZZ1JZXW000001")
      (one_scan, waiting)
