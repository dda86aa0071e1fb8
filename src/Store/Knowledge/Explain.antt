-- ===== src/Store/Knowledge/Explain.antt =====
-- The methods that explain a code (internal/store/store.go: ExplainCode, DTCCoOccurrence).
use mechmind.Base.{ℕ, zero, suc, ◌||◌, Option, none, some, List, [], ◌∷◌, map, if◌then◌else◌}
use mechmind.Base.Int.{ℤ, pos, negsuc}
use mechmind.Base.Float.{Floats}
use mechmind.Text.{Text, codes, text_eq}
use mechmind.Obd.Types.{Observations}
use mechmind.Obd.Codes.{describe_code}
use mechmind.Diagnosis.{CoOccurStat}
use mechmind.Store.{Stored, erred, holds}
use mechmind.Store.Accounts.{and_then, or_missing}
use mechmind.Store.Tables.{VehicleEnrichment, RecallCatalogRow, Tables, Server, Kept, query}
use mechmind.Store.Sessions.{limit_or}
use mechmind.Store.Sessions.Read.{latest_observations, latest_dtcs}
use mechmind.Store.Recalls.{get_enrichment, list_recalls_for_vehicle, list_recalls_mmy}
use mechmind.Store.Knowledge.{
  Identity, identity_of, history_rows, history_hit, article_for, co_occurring,
}
use mechmind.Api.Explain.{Explanation, Library}

-- What a failed query leaves is nothing.
abbrev pub or_nothing : {A : Type 0} → Kept A → Stored (Option A) × Tables
or_nothing (erred e, t) = (holds none, t)
or_nothing (holds a, t) = (holds (some a), t)

abbrev pub or_empty : {A : Type 0} → Kept (List A) → Kept (List A)
or_empty (erred e, t) = (holds [], t)
or_empty (holds xs, t) = (holds xs, t)

-- A query whose rows are used where there are any.
abbrev pub or_when_empty : {A : Type 0} → Kept (List A) → (Tables → Kept (List A)) → Kept (List A)
or_when_empty (holds (x ∷ xs), t) k = (holds (x ∷ xs), t)
or_when_empty (holds [], t) k = k t
or_when_empty (erred e, t) k = k t

unfoldable pub outside_scope : Text
outside_scope =
    codes
      "Outside Nigeria focus scope (Toyota/Honda/Hyundai/Kia/Mercedes-Benz, model year 2010+). Lean decode stored; recall catalog skipped."

-- What is said of the vehicle's market.
unfoldable pub note_of : Option VehicleEnrichment → Text
note_of none = []
note_of (some e) = if e.in_market_scope then [] else outside_scope

-- What is known of a vehicle.
pub record Background : Type 0 where
  pub make : Text
  pub model : Text
  pub vehicle : Option VehicleEnrichment
  pub recalls : List RecallCatalogRow

abbrev pub no_background : Background
no_background = record { make = []; model = []; vehicle = none; recalls = [] }

module _ (R : Floats) (G : Server R.F) where
  open R use {F}

  -- The recalls of the vehicle, and without any those of the catalog.
  unfoldable pub looked_up : Identity → ℤ → Tables → Kept (List RecallCatalogRow)
  unfolding list_recalls_for_vehicle list_recalls_mmy
  looked_up i year t =
      or_when_empty (list_recalls_for_vehicle G i.id t)
        λ u. or_empty (list_recalls_mmy G i.make i.model year u)

  -- Recalls are looked up where the make, the model and the year are known.
  unfoldable pub recalls_in : Identity → Option ℤ → Tables → Kept (List RecallCatalogRow)
  unfolding looked_up text_eq
  recalls_in i none t = (holds [], t)
  recalls_in i (some (negsuc y)) t = (holds [], t)
  recalls_in i (some (pos zero)) t = (holds [], t)
  recalls_in i (some (pos (suc y))) t =
      if text_eq i.make [] || text_eq i.model [] then (holds [], t) else looked_up i (pos (suc y)) t

  unfoldable pub recalls_of : Identity → Tables → Kept (List RecallCatalogRow)
  unfolding recalls_in
  recalls_of i t = recalls_in i i.year t

  unfoldable pub background_of : Option Identity → Tables → Kept Background
  unfolding get_enrichment recalls_of
  background_of none t = (holds no_background, t)
  background_of (some i) t = and_then (or_nothing (get_enrichment G i.id t)) λ e u.
      and_then (recalls_of i u) λ recs w.
        (holds (record { make = i.make; model = i.model; vehicle = e; recalls = recs }), w)

  -- Without a VIN, or where its query fails, nothing is known.
  unfoldable pub background : Text → Tables → Kept Background
  unfolding query identity_of background_of
  background [] t = (holds no_background, t)
  background (c ∷ cs) t =
      and_then (or_nothing (query G (λ u. (or_missing (identity_of (c ∷ cs) u), u)) t))
        λ i u. background_of i u

  unfoldable pub co_row : ℕ → Text × ℕ → CoOccurStat F
  co_row focus (code, n) = record {
    code = code;
    with_count = n;
    focus_count = focus;
    rate = R.div (R.of_int (pos n)) (R.of_int (pos focus));
  }

  unfoldable pub co_occurrence : Text → Option Text → ℕ → Tables → Kept (List (CoOccurStat F))
  unfolding query co_occurring co_row limit_or
  co_occurrence focus org limit = query G λ t.
      let (n, counts) = co_occurring G focus org (limit_or 5 limit) t in
      (holds (map (co_row n) counts), t)

  unfoldable pub observations_of : Text → Option Text → Tables → Kept (Option (Observations F))
  unfolding latest_observations
  observations_of [] org t = (holds none, t)
  observations_of (c ∷ cs) org t = or_nothing (latest_observations G (c ∷ cs) org t)

  unfoldable pub explain_code : Text → Text → Option Text → Tables → Kept (Explanation F)
  unfolding background query article_for history_rows history_hit observations_of co_occurrence
      note_of describe_code
  explain_code code vin org t = and_then (background vin t) λ b t1.
      and_then (query G (λ (u : Tables). (holds (article_for G code b.make b.model u), u)) t1)
        λ article t2.
          and_then
            (query G
              (λ (u : Tables). (holds (map (history_hit G) (history_rows code vin org u)), u)) t2)
            λ history t3. and_then (observations_of vin org t3) λ obs t4.
              and_then (or_empty (co_occurrence code org 5 t4)) λ co t5. (
                holds (record {
                  code = code;
                  generic = describe_code code;
                  article = article;
                  history = history;
                  vehicle = b.vehicle;
                  recalls = b.recalls;
                  market_note = note_of b.vehicle;
                  observations = obs;
                  co_occurrence = co;
                }),
                t5,
              )

  -- The queries of the handler, over the store.
  unfoldable pub library : (Text → Text) → Library F
  unfolding explain_code latest_dtcs
  library org_uuid = record {
    Shelf = Tables;
    explain_code = explain_code;
    latest_dtcs = latest_dtcs G;
    org_uuid = org_uuid;
  }
