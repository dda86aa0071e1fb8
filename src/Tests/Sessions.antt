-- ===== src/Tests/Sessions.antt =====
-- Runs of the store's scans (internal/store/store.go, enrichment.go).
use mechmind.Base.{
  ◌*◌, ◌*◌, ◌/◌, ◌/◌, ◌+◌, ◌≡◌, refl, Bool, true, false, none, some, [], ◌∷◌, ltb, ◌==◌,
  if◌then◌else◌,
}
use mechmind.Base.Int.{ℤ, pos}
use mechmind.Text.{Text, codes}
use mechmind.Obd.Types.{Dtc, spelled, confirmed}
use mechmind.Store.{holds}
use mechmind.Store.Tables.{SessionRow, DtcRow, RecallCatalogRow, Tables, Server, after_query}
use mechmind.Store.Tables.Gives.{Gives, IsAtomic}
use mechmind.Store.Sessions.{limit_or}
use mechmind.Store.Sessions.Keyed.{IsKeyed}
use mechmind.Store.Sessions.Make.{create_scan, made_record}
use mechmind.Store.Sessions.Read.{latest_dtcs, latest_observations, get_scan, list_scans_by_vin}
use mechmind.Store.Sessions.Lists.{IsListed, list_scans_by_vin-IsListed}
use mechmind.Store.Sessions.RoundTrip.{returned_scan, get_scan-create_scan, create_scan-IsKeyed}
use mechmind.Store.Knowledge.Explain.{explain_code}
use mechmind.Store.Knowledge.Private.{IsPrivate}
use mechmind.Store.Knowledge.Private.Methods.{queries-IsPrivate}
use mechmind.Store.Knowledge.Article.{IsBest, article_for-IsBest}
use mechmind.Store.Knowledge.{article_for}
use mechmind.Store.Recalls.{attach_recalls}
use mechmind.Store.Recalls.Attach.{attach_recalls-attach_recalls}
use mechmind.Explain.Packet.{KnowledgeArticle}
use mechmind.Api.{ScanInput}
use mechmind.Tests.Numbers.{whole}

-- The order of texts by their bytes.
pub text_before : Text → Text → Bool
text_before [] t = true
text_before (c ∷ s) [] = false
text_before (c ∷ s) (d ∷ t) = if c == d then text_before s t else ltb c d

abbrev pub server : Server ℤ
server = record {
  postgres = record {
    fault = λ n. none;
    duplicate = codes "duplicate key";
    new_id = λ n. (97 + n) ∷ [];
    new_code = λ n. [];
    generate = λ p. holds p;
    compare_hash = λ h p. true;
  };
  clock = λ n. 1000 + n;
  kept_time = λ n. n / 1000 * 1000;
  new_uuid = λ n. b's' ∷ (97 + n) ∷ [];
  write_observations = λ o. holds (codes "{}");
  json_error = λ t. codes "bad JSON";
  read_observations =
      λ t. some (record { live = none; freeze_frames = none; link = none; readiness = [] });
  write_frame = λ f. holds (codes "{}");
  read_frame = λ t. some [];
  parse_uuid = λ t. some t;
  uuid_error = λ t. codes "bad UUID";
  before = text_before;
  lower = λ t. t;
  upper = λ t. t;
  day = λ n. codes "2026-01-01";
}

abbrev pub no_rows : Tables
no_rows = record {
  vehicles = [];
  sessions = [];
  dtc_rows = [];
  articles = [];
  enrichments = [];
  catalog = [];
  vehicle_recalls = [];
  statements = 0;
}

abbrev code_of : Text → Dtc ℤ
code_of c = record { code = c; status = spelled []; freeze_frame = none; description = [] }

abbrev input : ScanInput ℤ
input = record {
  technician_id = codes "t";
  org_id = codes "o";
  vin = codes "WVWZZZ1JZXW000001";
  link_type = codes "usb";
  adapter_name = codes "ELM327";
  protocol = [];
  notes = [];
  dtcs = code_of (codes "P0420") ∷ code_of (codes "P0171") ∷ [];
  observations = none;
}

abbrev row : SessionRow
row = record {
  id = codes "sc";
  vehicle_id = codes "c";
  technician_id = codes "t";
  org_id = codes "o";
  link_type = codes "usb";
  adapter_name = codes "ELM327";
  protocol = [];
  started_at = 1000;
  observations = none;
}

abbrev row_of : Text → DtcRow
row_of c = record {
  scan_session_id = codes "sc";
  code = c;
  status = confirmed;
  freeze_frame = none;
}

-- The rows after the scan.
abbrev pub one_scan : Tables
one_scan = record no_rows {
  vehicles =
      record {
        id = codes "c";
        vin = codes "WVWZZZ1JZXW000001";
        make = none;
        model = none;
        year = none;
        engine = none;
      }
      ∷ [];
  sessions = row ∷ [];
  dtc_rows = row_of (codes "P0420") ∷ row_of (codes "P0171") ∷ [];
  statements = 6;
}

no_rows-IsKeyed : IsKeyed no_rows
no_rows-IsKeyed = record { vehicles = tt; vins = tt; sessions = tt; driven = tt; noted = tt }

made :
    create_scan server input no_rows
    ≡ (holds (made_record input (codes "t") (codes "o") (codes "c") (codes "sc") 1002), one_scan)
unfolding create_scan made_record
made = refl

get_scan-create_scan_example :
    get_scan server
      (made_record input (codes "t") (codes "o") (codes "c") (codes "sc") 1002).id
      one_scan
    ≡ (
      holds (
          returned_scan server
            (made_record input (codes "t") (codes "o") (codes "c") (codes "sc") 1002)),
      after_query (after_query one_scan),
    )
get_scan-create_scan_example =
    get_scan-create_scan server input no_rows one_scan
      (made_record input (codes "t") (codes "o") (codes "c") (codes "sc") 1002) no_rows-IsKeyed made
      refl refl

create_scan-IsKeyed_example :
    Gives (λ rec u. IsKeyed u) (create_scan server input no_rows)
    × IsAtomic no_rows (create_scan server input no_rows)
create_scan-IsKeyed_example = create_scan-IsKeyed server input no_rows no_rows-IsKeyed

list_scans_by_vin-IsListed_example :
    Gives
      (λ recs u.
        IsListed server
          (codes "WVWZZZ1JZXW000001")
          (some (codes "o"))
          (limit_or 20 0)
          one_scan
          recs)
      (list_scans_by_vin server (codes "WVWZZZ1JZXW000001") (some (codes "o")) 0 one_scan)
list_scans_by_vin-IsListed_example =
    list_scans_by_vin-IsListed server (codes "WVWZZZ1JZXW000001") (some (codes "o")) 0 one_scan

queries-IsPrivate_example :
    IsPrivate
      (codes "x")
      (list_scans_by_vin server (codes "WVWZZZ1JZXW000001") (some (codes "x")) 50)
    × IsPrivate (codes "x") (latest_dtcs server (codes "WVWZZZ1JZXW000001") (some (codes "x")))
    × IsPrivate
        (codes "x")
        (latest_observations server (codes "WVWZZZ1JZXW000001") (some (codes "x")))
    × IsPrivate
        (codes "x")
        (explain_code whole server (codes "P0420") (codes "WVWZZZ1JZXW000001") (some (codes "x")))
queries-IsPrivate_example =
    queries-IsPrivate whole server (codes "x") (codes "P0420") (codes "WVWZZZ1JZXW000001") 50

abbrev article : Text → KnowledgeArticle
article scope = record {
  code = codes "P0420";
  vehicle_scope = scope;
  title = [];
  summary = [];
  likely_causes = [];
  tests = [];
  parts = [];
}

abbrev shelf : Tables
shelf = record no_rows {
  articles = article (codes "*") ∷ article (codes "TOYOTA") ∷ article (codes "AVENSIS") ∷ [];
}

article_for-IsBest_example :
    IsBest server
      (codes "P0420")
      (codes "TOYOTA")
      (codes "RAV4")
      shelf.articles
      (article_for server (codes "P0420") (codes "TOYOTA") (codes "RAV4") shelf)
article_for-IsBest_example =
    article_for-IsBest server (codes "P0420") (codes "TOYOTA") (codes "RAV4") shelf

abbrev pub recall : RecallCatalogRow
recall = record {
  make = codes "TOYOTA";
  model = codes "RAV4";
  year = pos 2012;
  campaign_number = codes "12V1";
  component = [];
  summary = [];
  consequence = [];
  remedy = [];
  report_date = [];
  source = codes "nhtsa";
}

abbrev pub recalled : Tables
recalled = record one_scan { catalog = recall ∷ [] }

abbrev attached : Tables
attached = record recalled { vehicle_recalls = (codes "c", recall) ∷ []; statements = 7 }

attaches :
    attach_recalls server (codes "c") (codes "TOYOTA") (codes "RAV4") (pos 2012) recalled
    ≡ (holds 1, attached)
unfolding attach_recalls
attaches = refl

attach_recalls-attach_recalls_example :
    attach_recalls server (codes "c") (codes "TOYOTA") (codes "RAV4") (pos 2012) attached
    ≡ (holds 0, after_query attached)
attach_recalls-attach_recalls_example =
    attach_recalls-attach_recalls server (codes "c") (codes "TOYOTA") (codes "RAV4") (pos 2012)
      recalled attached 1 attaches refl
