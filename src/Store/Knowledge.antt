-- ===== src/Store/Knowledge.antt =====
-- What the store knows of a code (internal/store/store.go: ExplainCode, DTCCoOccurrence). Of a hit
-- of the history the day and the status are kept. Rows of equal rank come in the order in which
-- they were made.
pub mod Explain
pub mod Private
pub mod Article
use mechmind.Base.{
  ℕ, take, keep, ◌+◌, ◌*◌, Bool, true, not, ◌&&◌, ◌||◌, Option, none, some, List, [], ◌∷◌, ◌++◌,
  map, leb, if◌then◌else◌, length,
}
use mechmind.Base.Int.{ℤ, pos, negsuc}
use mechmind.Base.Float.{Floats}
use mechmind.Base.Sort.{sort_by}
use mechmind.Text.{Text, codes, text_eq}
use mechmind.Obd.Types.{DtcStatus, pending, confirmed, permanent, spelled, Observations}
use mechmind.Obd.Codes.{describe_code}
use mechmind.Diagnosis.{CoOccurStat}
use mechmind.Explain.Packet.{KnowledgeArticle, HistoryHit}
use mechmind.Store.{Stored, erred, holds}
use mechmind.Store.Accounts.{and_then, find_row, or_missing}
use mechmind.Store.Tables.{
  Vehicle, VehicleEnrichment, RecallCatalogRow, SessionRow, DtcRow, Tables, Server, Kept, has_vin,
  query,
}
use mechmind.Store.Sessions.{joined, in_org, newer, limit_or, first_row}
use mechmind.Store.Sessions.Read.{of_session}
use mechmind.Store.Recalls.{enriches}

unfoldable pub status_text : DtcStatus → Text
status_text pending = codes "pending"
status_text confirmed = codes "confirmed"
status_text permanent = codes "permanent"
status_text (spelled s) = s

-- COALESCE.
abbrev pub or_else : {A : Type 0} → Option A → A → A
or_else none a = a
or_else (some b) a = b

-- What is known of the vehicle: its identifier, make, model and year.
pub record Identity : Type 0 where
  pub id : Text
  pub make : Text
  pub model : Text
  pub year : Option ℤ

unfoldable pub identity : Vehicle → Option VehicleEnrichment → Identity
identity v none = record {
  id = v.id;
  make = or_else v.make [];
  model = or_else v.model [];
  year = v.year;
}
identity v (some e) = record { id = v.id; make = e.make; model = e.model; year = some e.year }

unfoldable pub identity_of : Text → Tables → Option Identity
unfolding has_vin enriches identity
identity_of vin t = with_enrichment (find_row (has_vin vin) t.vehicles)
  where
    with_enrichment : Option Vehicle → Option Identity
    with_enrichment none = none
    with_enrichment (some v) = some (identity v (find_row (enriches v.id) t.enrichments))

-- Rows of codes, each with its scan and its vehicle.
unfoldable pub noted :
    (DtcRow → Bool)
    → List DtcRow
    → List (SessionRow × Vehicle)
    → List ((SessionRow × Vehicle) × DtcRow)
unfolding of_session
noted p rows [] = []
noted p rows (s ∷ ss) =
    map (λ (r : DtcRow). (s, r)) (keep (λ (r : DtcRow). of_session s.0.id r && p r) rows)
    ++ noted p rows ss

-- A VIN that is asked for, or none.
unfoldable pub fits_vin : Text → SessionRow × Vehicle → Bool
unfolding text_eq
fits_vin [] p = true
fits_vin (c ∷ cs) p = text_eq p.1.vin (c ∷ cs)

unfoldable pub newer_hit : (SessionRow × Vehicle) × DtcRow → (SessionRow × Vehicle) × DtcRow → Bool
unfolding newer
newer_hit (p, r) (q, s) = newer p q

-- The ten newest rows of a code.
unfoldable pub history_rows :
    Text → Text → Option Text → Tables → List ((SessionRow × Vehicle) × DtcRow)
unfolding noted fits_vin in_org joined text_eq newer_hit sort_by
history_rows code vin org t = take 10 (
    sort_by newer_hit (
      noted (λ (r : DtcRow). text_eq r.code code) t.dtc_rows
        (keep (λ (p : SessionRow × Vehicle). in_org org p.0 && fits_vin vin p)
          (joined t.vehicles t.sessions))))

-- A code with its count: the count of the first row of the code goes up, or the code is new.
unfoldable pub count_code : Text → List (Text × ℕ) → List (Text × ℕ)
unfolding text_eq
count_code c [] = (c, 1) ∷ []
count_code c ((d, n) ∷ ds) =
    let rest = count_code c ds in if text_eq d c then (d, n + 1) ∷ ds else (d, n) ∷ rest

-- GROUP BY, with counts.
unfoldable pub count_codes : List Text → List (Text × ℕ) → List (Text × ℕ)
unfolding count_code
count_codes [] counts = counts
count_codes (c ∷ cs) counts = count_codes cs (count_code c counts)

unfoldable pub more_often : Text × ℕ → Text × ℕ → Bool
more_often (c, m) (d, n) = leb n m

module _ {F : Type 0} (G : Server F) where
  unfoldable pub history_hit : (SessionRow × Vehicle) × DtcRow → HistoryHit
  unfolding status_text
  history_hit ((s, v), r) = record {
    started_at = G.day s.started_at;
    status = status_text r.status;
  }

  -- The rank of an article for a make and a model.
  unfoldable pub article_rank : Text → Text → KnowledgeArticle → ℕ
  unfolding text_eq
  article_rank make model a =
      if not (text_eq model []) && text_eq (G.upper a.vehicle_scope) (G.upper model)
      then 0
      else if not (text_eq make []) && text_eq (G.upper a.vehicle_scope) (G.upper make)
      then 1
      else if text_eq a.vehicle_scope (codes "*")
      then 2
      else 3

  unfoldable pub article_fits : Text → Text → Text → KnowledgeArticle → Bool
  unfolding text_eq
  article_fits code make model a =
      text_eq a.code code
      && (text_eq a.vehicle_scope (codes "*")
          || (text_eq (G.upper a.vehicle_scope) (G.upper make)
              || (text_eq (G.upper a.vehicle_scope) (G.upper model)
                  || (text_eq make [] && text_eq model []))))

  unfoldable pub article_for : Text → Text → Text → Tables → Option KnowledgeArticle
  unfolding article_fits article_rank sort_by
  article_for code make model t = first_row (
      sort_by
        (λ (a b : KnowledgeArticle). leb (article_rank make model a) (article_rank make model b))
        (keep (article_fits code make model) t.articles))

  -- Whether a row has the code, in any case of its letters.
  unfoldable pub is_code : Text → DtcRow → Bool
  unfolding text_eq
  is_code focus r = text_eq (G.upper r.code) (G.upper focus)

  -- The scans with the code, once for each of its rows.
  unfoldable pub focus_scans : Text → List DtcRow → List SessionRow → List Text
  unfolding of_session is_code
  focus_scans focus rows [] = []
  focus_scans focus rows (s ∷ ss) =
      map (λ (r : DtcRow). r.scan_session_id)
        (keep (λ (r : DtcRow). of_session s.id r && is_code focus r) rows)
      ++ focus_scans focus rows ss

  -- The other codes of those scans.
  unfoldable pub other_codes : Text → List DtcRow → List Text → List Text
  unfolding of_session is_code
  other_codes focus rows [] = []
  other_codes focus rows (id ∷ ids) =
      map (λ (r : DtcRow). r.code)
        (keep (λ (r : DtcRow). of_session id r && not (is_code focus r)) rows)
      ++ other_codes focus rows ids

  -- The codes that come with a code the most often, with their counts, and the count of the code.
  unfoldable pub co_occurring : Text → Option Text → ℕ → Tables → ℕ × List (Text × ℕ)
  unfolding focus_scans other_codes count_codes more_often in_org sort_by
  co_occurring focus org limit t =
      let ids = focus_scans focus t.dtc_rows (keep (in_org org) t.sessions) in
      (
        length ids,
        take limit (sort_by more_often (count_codes (other_codes focus t.dtc_rows ids) [])),
      )
