-- ===== src/Store/Sessions/Serve.antt =====
-- The store as the API server uses it (internal/api/server.go over internal/store/store.go): the
-- interface of the handlers, filled by the scans and the queue of the store.
use mathlib.Core.Path.{subst}
use mechmind.Base.{
  ℕ, All, All-imp, ◌+◌, ◌≡◌, Option, none, some, List, [], ◌∷◌, ◌++◌, arith, length,
}
use mechmind.Text.{Text, codes}
use mechmind.Store.{Stored, erred, holds, other}
use mechmind.Store.Tables.{Tables, Server, Kept}
use mechmind.Store.Tables.Gives.{Gives, Gives-imp}
use mechmind.Store.Sessions.Make.{create_scan}
use mechmind.Store.Sessions.Read.{get_scan, list_scans_by_vin}
use mechmind.Store.Sessions.Lists.{IsListed, IsOf, list_scans_by_vin-IsListed}
use mechmind.Store.Sessions.{limit_or}
use mechmind.Enrichment.{Queue, Service, enqueue_job, by_fault, next}
use mechmind.Enrichment.Enqueue.{Payloads, enqueue_vin_decode, status_counts}
use mechmind.Api.{Outside, Claims, ScanRecord}
use mechmind.Api.Scans
use mechmind.Api.Routes.Guards.{FiltersByOrg, IsVisible, scans-IsVisible}

-- What the database holds of scans and of jobs.
abbrev pub Database : Type 0
Database = Tables × Queue

-- Tokens, the queue's database, and JSON.
pub record Gateway : Type 0 where
  pub issue : ℕ → Text → Text → Text → Text → Stored Text
  pub parse_token : ℕ → Text → Option Claims
  pub service : Service
  pub payloads : Payloads
  pub forced_payload : Text
  pub stats_text : List (Text × ℕ) → Text

unfoldable pub on_tables : {A : Type 0} → Kept A → Queue → Stored A × Database
on_tables (a, t) q = (a, (t, q))

-- The counts of the rows; a count that fails is 0.
unfoldable pub count_or_zero : Option Text → ℕ → ℕ
count_or_zero none n = n
count_or_zero (some e) n = 0

on_tables-Gives :
    {A : Type 0} (P : A → Type 0) (m : Kept A) (q : Queue) (a : A) (s : Database)
    → Gives (λ x u. P x) m
    → on_tables m q ≡ (holds a, s)
    → P a
unfolding on_tables
on_tables-Gives P (erred x, u) q a s p e = absurd (ground arith)
on_tables-Gives P (holds x, u) q a s p e = let same : x ≡ a = cc in subst P same p

module _ {F : Type 0} (G : Server F) (W : Gateway) where
  open G use {postgres}
  open W use {service}

  -- The counts of `EnrichmentStats`: those of the jobs, and of two tables.
  unfoldable pub enrichment_stats : Database → Stored Text × Database
  unfolding status_counts count_or_zero
  enrichment_stats (t, q) =
      let n = t.statements in
      let counts =
        status_counts q.jobs
        ++ (codes "recall_catalog", count_or_zero (postgres.fault n) (length t.catalog))
          ∷ (
            codes "vehicles_enriched",
            count_or_zero (postgres.fault (n + 1)) (length t.enrichments),
          )
          ∷ [] in
      by_fault (service.fault q.statements) (λ e. (erred (other e), (t, next q)))
        (holds (W.stats_text counts), (record t { statements = n + 2 }, next q))

  unfoldable pub answered_job : Tables → Text → Option Text × Queue → Stored Text × Database
  answered_job t id (some e, q) = (erred (other e), (t, q))
  answered_job t id (none, q) = (holds id, (t, q))

  -- The interface of the handlers.
  unfoldable pub outside : Outside F
  unfolding on_tables create_scan get_scan list_scans_by_vin enqueue_vin_decode enrichment_stats
      answered_job enqueue_job
  outside = record {
    postgres = postgres;
    parse_uuid = G.parse_uuid;
    issue = W.issue;
    parse_token = W.parse_token;
    Scans = Database;
    create_scan = λ input (t, q). on_tables (create_scan G input t) q;
    enqueue_vin_decode =
        λ vehicle vin (t, q). (t, (enqueue_vin_decode service W.payloads vehicle vin q).1);
    get_scan = λ id (t, q). on_tables (get_scan G id t) q;
    list_scans_by_vin = λ vin org n (t, q). on_tables (list_scans_by_vin G vin org n t) q;
    enrichment_stats = enrichment_stats;
    enqueue_job = λ kind now (t, q).
        answered_job t (service.new_id q.statements)
          (enqueue_job service kind W.forced_payload now q);
  }

  -- A list with a filter holds scans of that organization only.
  outside-FiltersByOrg : FiltersByOrg outside
  unfolding FiltersByOrg outside IsOf
  outside-FiltersByOrg vin org n (t, q) s recs e =
      on_tables-Gives (λ rs. All (λ (r : ScanRecord F). r.org_id ≡ org) rs)
        (list_scans_by_vin G vin (some org) n t) q recs s
        (Gives-imp (λ rs u. IsListed G vin (some org) (limit_or 20 n) t rs)
          (λ rs u. All (λ (r : ScanRecord F). r.org_id ≡ org) rs)
          (list_scans_by_vin G vin (some org) n t) (list_scans_by_vin-IsListed G vin (some org) n t)
          λ rs u h.
            All-imp (IsOf vin (some org)) (λ (r : ScanRecord F). r.org_id ≡ org) (λ r own. own.1) rs
              h.own)
        e

  -- What getScan and listVehicleScans answer over the store shows scans of the claims' own
  -- organization only, or any to a super_admin.
  pub ShowsOwn : Claims → Text → Text → Database → Type 0
  unfolding outside
  ShowsOwn c raw vin d =
      IsVisible outside c (Scans.get_scan outside c raw d)
      × IsVisible outside c (Scans.list_vehicle_scans outside c vin d)

  -- Over the store's own queries, getScan and listVehicleScans show scans of the caller's own
  -- organization only, unless the caller is a super_admin.
  pub served_scans-ShowsOwn : (c : Claims) (raw vin : Text) (d : Database) → ShowsOwn c raw vin d
  unfolding ShowsOwn outside
  served_scans-ShowsOwn c raw vin d = scans-IsVisible outside c raw vin d outside-FiltersByOrg
