-- ===== src/Api/Explain.antt =====
-- The handler that explains a code (internal/api/server.go: explainCode): the store's explanation,
-- the findings of the engine, the packet, and the narrative where it is asked for. The queries of
-- the store are a parameter, and of a hit of the history only what the packet reads is kept.
pub mod Answers
use mechmind.Base.{
  ℕ, Bool, true, false, not, ◌&&◌, ◌||◌, Option, none, some, List, [], map, if◌then◌else◌,
}
use mechmind.Base.Float.{Floats}
use mechmind.Text.{Text, codes, text_eq}
use mechmind.Http.{answered, refused, Answer}
use mechmind.Obd.Types.{Dtc, Observations}
use mechmind.Diagnosis.{Finding, CoOccurStat}
use mechmind.Diagnosis.Analyze.{Input, analyze}
use mechmind.Explain.Packet.{
  KnowledgeArticle, HistoryHit, VehicleName, Packet, BuildInput, build_packet,
}
use mechmind.Explain.Narrator.{Outside, Narrator, NarrativeResult, narrate}
use mechmind.Store.{holds, erred, Stored, error_text, super_admin}
use mechmind.Api.{Claims}
use mechmind.Store.Tables.{RecallCatalogRow, VehicleEnrichment}
use mathlib.Core.Option

-- `store.Explanation`.
pub record Explanation (F : Type 0) : Type 0 where
  pub code : Text
  pub generic : Text
  pub article : Option KnowledgeArticle
  pub history : List HistoryHit
  pub vehicle : Option VehicleEnrichment
  pub recalls : List RecallCatalogRow
  pub market_note : Text
  pub observations : Option (Observations F)
  pub co_occurrence : List (CoOccurStat F)

-- What the packet reads of the vehicle.
abbrev pub vehicle_name : VehicleEnrichment → VehicleName
vehicle_name e = record { make = e.make; model = e.model; year = e.year }

-- The queries, by code, VIN and organization.
pub record Library (F : Type 0) : Type 1 where
  pub Shelf : Type 0
  pub explain_code : Text → Text → Option Text → Shelf → Stored (Explanation F) × Shelf
  pub latest_dtcs : Text → Option Text → Shelf → Stored (List (Dtc F)) × Shelf
  -- `uuid.Parse`, with the nil UUID for a text that is none.
  pub org_uuid : Text → Text

pub record Explained (F : Type 0) : Type 0 where
  pub explanation : Explanation F
  pub findings : List Finding
  pub packet : Packet F
  pub narrative : Option (NarrativeResult F)

-- The store, the narrator, which may be nil, and the narrator's world.
pub record Desk (Shelf World : Type 0) : Type 0 where
  pub shelf : Shelf
  pub narrator : Option Narrator
  pub world : World

-- The parameters of the query.
pub record ExplainRequest : Type 0 where
  pub code : Text
  pub vin : Text
  pub narrative : Text
  pub force_narrative : Text

abbrev pub dtcs_or_none : {F : Type 0} → Stored (List (Dtc F)) → List (Dtc F)
dtcs_or_none (erred e) = []
dtcs_or_none (holds ds) = ds

unfoldable pub is_yes : Text → Bool
unfolding text_eq
is_yes t = text_eq t (codes "1") || text_eq t (codes "true")

module _ (R : Floats) (fixed : ℕ → R.F → Text) (scan_float : Text → Option R.F) where
  open R use {F}

  -- What the engine is given.
  unfoldable pub engine_input : Text → Explanation F → List (Dtc F) → Input F
  engine_input code exp dtcs = record {
    focus_code = code;
    dtcs = dtcs;
    observations = exp.observations;
    co_occur = exp.co_occurrence;
  }

  unfoldable pub packet_input : Text → Explanation F → List Finding → BuildInput F
  packet_input code exp findings = record {
    code = code;
    findings = findings;
    article = exp.article;
    vehicle = Option.map vehicle_name exp.vehicle;
    co_occur = exp.co_occurrence;
    history = exp.history;
  }

  -- The answer without its narrative.
  unfoldable pub explained : Text → Explanation F → List (Dtc F) → Explained F
  unfolding engine_input packet_input analyze build_packet
  explained code exp dtcs =
      let findings = analyze R fixed scan_float (engine_input code exp dtcs) in
      record {
        explanation = exp;
        findings = findings;
        packet = build_packet R (packet_input code exp findings);
        narrative = none;
      }

  module _ (L : Library F) (O : Outside F) where
    open L use {Shelf}

    -- The organization that the queries are limited to.
    unfoldable pub org_filter : Claims → Option Text
    unfolding text_eq
    org_filter c =
        if not (text_eq c.role super_admin) && not (text_eq c.org_id [])
        then some (L.org_uuid c.org_id)
        else none

    -- The narrative, where it is asked for and there is a narrator.
    unfoldable pub with_narrative :
        Bool → Bool → Explained F → Desk Shelf O.World → Explained F × Desk Shelf O.World
    unfolding narrate
    with_narrative want force x d = narrated want d.narrator
      where
        narrated : Bool → Option Narrator → Explained F × Desk Shelf O.World
        narrated false n = (x, d)
        narrated true none = (x, d)
        narrated true (some n) =
            let (r, n1, w1) = narrate O x.packet force n d.world in
            (record x { narrative = some r }, record d { narrator = some n1; world = w1 })

    -- The codes of the latest scan, where a VIN is given and the query succeeds.
    unfoldable pub latest : Text → Option Text → Shelf → List (Dtc F) × Shelf
    unfolding text_eq
    latest vin filter s =
        let (found, s1) = L.latest_dtcs vin filter s in
        if text_eq vin [] then ([], s) else (dtcs_or_none found, s1)

    unfoldable pub answer_explained :
        Claims
        → ExplainRequest
        → Stored (Explanation F)
        → Desk Shelf O.World
        → Answer (Explained F) × Desk Shelf O.World
    unfolding org_filter latest explained with_narrative is_yes error_text
    answer_explained c req (erred e) d = (refused 500 (error_text e), d)
    answer_explained c req (holds exp) d =
        let (dtcs, s1) = latest req.vin (org_filter c) d.shelf in
        let (x, d1) =
          with_narrative (is_yes req.narrative) (is_yes req.force_narrative)
            (explained req.code exp dtcs) (record d { shelf = s1 }) in
        (answered 200 x, d1)

    unfoldable pub explain_code :
        Claims → ExplainRequest → Desk Shelf O.World → Answer (Explained F) × Desk Shelf O.World
    unfolding answer_explained org_filter
    explain_code c req d =
        let (exp, s1) = L.explain_code req.code req.vin (org_filter c) d.shelf in
        answer_explained c req exp (record d { shelf = s1 })
