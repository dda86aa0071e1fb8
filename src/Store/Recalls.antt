-- ===== src/Store/Recalls.antt =====
-- What is known of vehicles, and recalls (internal/store/enrichment.go: UpsertVehicleIdentity,
-- UpsertVehicleEnrichment, GetVehicleEnrichment, UpsertRecallCatalog,
-- AttachCatalogRecallsToVehicle, ListRecallsForVehicle, ListRecallsMMY). The times of enrichment
-- are left out.
pub mod Attach
use mechmind.Base.{
  ℕ, take, keep, zero, suc, ◌+◌, Bool, ◌&&◌, Option, none, some, List, [], ◌∷◌, ◌++◌, map,
  if◌then◌else◌,
}
use mechmind.Base.Int.{eq_ℤ, ℤ, pos, negsuc}
use mechmind.Base.Sort.{sort_by}
use mechmind.Text.{Text, codes, text_eq}
use mechmind.Store.{Stored, erred, holds, not_found}
use mechmind.Store.Accounts.{find_row, or_missing}
use mechmind.Store.Tables.{
  Vehicle, VehicleEnrichment, RecallCatalogRow, Tables, Server, Kept, has_vehicle_id, query,
}

-- COALESCE(NULLIF(new, ''), old), and the same of a year with 0.
abbrev pub or_kept : Text → Option Text → Option Text
or_kept [] old = old
or_kept (c ∷ cs) old = some (c ∷ cs)

abbrev pub or_kept_year : ℤ → Option ℤ → Option ℤ
or_kept_year (pos zero) old = old
or_kept_year y old = some y

abbrev pub or_source : Text → Text → Text
or_source [] default = default
or_source (c ∷ cs) default = c ∷ cs

-- ON CONFLICT … DO UPDATE: the first row that passes is replaced, or a row is added.
abbrev pub put_row : {A : Type 0} → (A → Bool) → (A → A) → A → List A → List A
put_row p f x [] = x ∷ []
put_row p f x (y ∷ ys) = let rest = put_row p f x ys in if p y then f y ∷ ys else y ∷ rest

unfoldable pub identified : Text → Text → ℤ → Text → Vehicle → Vehicle
identified make model year engine v = record v {
  make = or_kept make v.make;
  model = or_kept model v.model;
  year = or_kept_year year v.year;
  engine = or_kept engine v.engine;
}

unfoldable pub enriches : Text → VehicleEnrichment → Bool
unfolding text_eq
enriches id e = text_eq e.vehicle_id id

-- The key of the catalog.
unfoldable pub same_recall : RecallCatalogRow → RecallCatalogRow → Bool
unfolding text_eq
same_recall r s =
    text_eq s.make r.make
    && (text_eq s.model r.model
        && (eq_ℤ s.year r.year && text_eq s.campaign_number r.campaign_number))

-- The key of the recalls of vehicles.
unfoldable pub is_attached : Text → Text → Text × RecallCatalogRow → Bool
unfolding text_eq
is_attached id campaign (v, r) = text_eq v id && text_eq r.campaign_number campaign

-- The rows that are not there yet are added to those of the vehicle, and counted.
unfoldable pub attach_rows :
    Text
    → List RecallCatalogRow
    → List (Text × RecallCatalogRow)
    → ℕ × List (Text × RecallCatalogRow)
unfolding is_attached
attach_rows id [] xs = (0, xs)
attach_rows id (r ∷ rs) xs =
    unless (find_row (is_attached id r.campaign_number) xs) (attach_rows id rs xs)
      (attach_rows id rs (xs ++ (id, r) ∷ []))
  where
    unless :
        Option (Text × RecallCatalogRow)
        → ℕ × List (Text × RecallCatalogRow)
        → ℕ × List (Text × RecallCatalogRow)
        → ℕ × List (Text × RecallCatalogRow)
    unless (some old) (n, same) (m, more) = (n, same)
    unless none (n, same) (m, more) = (suc m, more)

module _ {F : Type 0} (G : Server F) where
  unfoldable pub upsert_identity : Text → Text → Text → ℤ → Text → Tables → Kept (Unit {0})
  unfolding query identified has_vehicle_id
  upsert_identity id make model year engine = query G λ t. (
    holds tt,
    record t {
      vehicles =
          map
            (λ (v : Vehicle).
              if has_vehicle_id id v then identified make model year engine v else v)
            t.vehicles;
    },
  )

  unfoldable pub upsert_enrichment : VehicleEnrichment → Tables → Kept (Unit {0})
  unfolding query enriches
  upsert_enrichment e = query G λ t.
      let new = record e { source = or_source e.source (codes "nhtsa_vpic") } in
      (
        holds tt,
        record t { enrichments = put_row (enriches e.vehicle_id) (λ old. new) new t.enrichments },
      )

  unfoldable pub get_enrichment : Text → Tables → Kept VehicleEnrichment
  unfolding query enriches
  get_enrichment id = query G λ t. (or_missing (find_row (enriches id) t.enrichments), t)

  -- The source of a row that is there stays.
  unfoldable pub upsert_catalog : RecallCatalogRow → Tables → Kept (Unit {0})
  unfolding query same_recall
  upsert_catalog r = query G λ t.
      let new = record r { source = or_source r.source (codes "nhtsa") } in
      (
        holds tt,
        record t {
          catalog =
              put_row (same_recall r)
                (λ (old : RecallCatalogRow). record new { source = old.source }) new t.catalog;
        },
      )

  -- The catalog's rows for a make, a model and a year, in any case of their letters.
  unfoldable pub is_for : Text → Text → ℤ → RecallCatalogRow → Bool
  unfolding text_eq
  is_for make model year r =
      text_eq (G.lower r.make) (G.lower make)
      && (text_eq (G.lower r.model) (G.lower model) && eq_ℤ r.year year)

  unfoldable pub attach_recalls : Text → Text → Text → ℤ → Tables → Kept ℕ
  unfolding query attach_rows is_for
  attach_recalls id make model year = query G λ t.
      let (n, rows) = attach_rows id (keep (is_for make model year) t.catalog) t.vehicle_recalls in
      (holds n, record t { vehicle_recalls = rows })

  -- ORDER BY report_date DESC LIMIT 20, as texts.
  unfoldable pub newest_recalls : List RecallCatalogRow → List RecallCatalogRow
  unfolding sort_by
  newest_recalls rs =
      take 20 (sort_by (λ (a b : RecallCatalogRow). G.before b.report_date a.report_date) rs)

  unfoldable pub list_recalls_for_vehicle : Text → Tables → Kept (List RecallCatalogRow)
  unfolding query newest_recalls text_eq
  list_recalls_for_vehicle id = query G λ t.
      let own = keep (λ (p : Text × RecallCatalogRow). text_eq p.0 id) t.vehicle_recalls in
      (holds (newest_recalls (map (λ (p : Text × RecallCatalogRow). p.1) own)), t)

  unfoldable pub list_recalls_mmy : Text → Text → ℤ → Tables → Kept (List RecallCatalogRow)
  unfolding query newest_recalls is_for
  list_recalls_mmy make model year =
      query G λ t. (holds (newest_recalls (keep (is_for make model year) t.catalog)), t)
