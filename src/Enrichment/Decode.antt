-- ===== src/Enrichment/Decode.antt =====
-- The work of the jobs (internal/enrichment/worker.go: vinDecode, recallsMMY) over the store and
-- NHTSA's services. JSON is a parameter. The log is left out, and so are the wait after the recalls
-- and its end by a cancelled context.
pub mod Work
pub mod Idle
pub mod Identity
pub mod Vehicle
use mechmind.Store.Accounts.{and_then}
use mechmind.Base.{ℕ, zero, suc, ◌+◌, ◌||◌, Option, none, some, List, [], ◌∷◌, ◌++◌, if◌then◌else◌}
use mechmind.Base.Int.{ℤ, eq_ℤ, pos}
use mechmind.Base.Float.{Floats}
use mechmind.Text.{Text, codes, text_eq}
use mechmind.Http.{Result, fails, gives}
use mechmind.Store.{Stored, erred, holds, error_text}
use mechmind.Store.Tables.{RecallCatalogRow, VehicleEnrichment, Tables, Server, Kept}
use mechmind.Store.Recalls.{upsert_identity, upsert_enrichment, upsert_catalog, attach_recalls}
use mechmind.Enrichment.{Queue, Service, enqueue_job}
use mechmind.Enrichment.Market.{in_market_scope}
use mechmind.Enrichment.Nhtsa.{LeanVin, LeanRecall, Network, Client}
use mechmind.Enrichment.Nhtsa.Methods.{decode_vin, recalls_by_mmy}

-- What a job for the recalls of a make, a model and a year is given.
pub record MmyPayload : Type 0 where
  pub vehicle_id : Text
  pub make : Text
  pub model : Text
  pub year : ℤ

-- The payloads as JSON; an empty vehicle is left out.
pub record JobJson : Type 0 where
  pub read_vin : Text → Result (Text × Text)
  pub read_mmy : Text → Result MmyPayload
  pub write_mmy : MmyPayload → Text

-- A part of a text with what stands before it, where that is not empty.
abbrev after_part : Text → Text → Text → Text
after_part [] sep part = part
after_part (c ∷ cs) sep part = c ∷ cs ++ sep ++ part

abbrev with_cylinders : Text → Text → Text
with_cylinders engine [] = engine
with_cylinders engine (c ∷ cs) = after_part engine (codes "L ") (c ∷ cs ++ codes "cyl")

abbrev with_note : Text → Text → Text
with_note engine [] = engine
with_note engine (c ∷ cs) = after_part engine (codes " · ") (c ∷ cs)

unfoldable pub engine_of : LeanVin → Text
engine_of v = with_note (with_cylinders v.displacement_l v.cylinders) v.engine_note

-- An incomplete answer is marked; the mark is never read.
unfoldable pub marked : LeanVin → LeanVin
unfolding text_eq
marked v =
    if text_eq v.model [] || eq_ℤ v.year (pos 0)
    then record v { error_text = codes "incomplete_vpic" }
    else v

unfoldable pub enrichment_row : Text → LeanVin → VehicleEnrichment
unfolding in_market_scope
enrichment_row id v = record {
  vehicle_id = id;
  make = v.make;
  model = v.model;
  year = v.year;
  body_class = v.body_class;
  fuel_type = v.fuel_type;
  displacement_l = v.displacement_l;
  cylinders = v.cylinders;
  drive_type = v.drive_type;
  engine_note = v.engine_note;
  in_market_scope = in_market_scope v.make v.year;
  source = codes "nhtsa_vpic";
}

unfoldable pub catalog_row : MmyPayload → LeanRecall → RecallCatalogRow
catalog_row p r = record {
  make = p.make;
  model = p.model;
  year = p.year;
  campaign_number = r.campaign_number;
  component = r.component;
  summary = r.summary;
  consequence = r.consequence;
  remedy = r.remedy;
  report_date = r.report_date;
  source = codes "nhtsa";
}

-- What the recalls of a decoded vehicle are asked for with.
abbrev pub mmy_of : Text → LeanVin → MmyPayload
mmy_of raw v = record { vehicle_id = raw; make = v.make; model = v.model; year = v.year }

-- The error of a part of the work, with the queue and the tables after it.
abbrev pub Done : Type 0
Done = Option Text × (Queue × Tables)

abbrev pub or_stop : {A : Type 0} → Kept A → Queue → (A → Tables → Done) → Done
or_stop (erred e, t) q k = (some (error_text e), (q, t))
or_stop (holds a, t) q k = k a t

module _ {F : Type 0} (G : Server F) (V : Service) (P : JobJson) where
  -- Without new recalls, those of the make, the model and the year are asked for; an error of that
  -- is not looked at.
  unfoldable pub ask_recalls : MmyPayload → ℕ → Queue → Tables → Done
  unfolding enqueue_job
  ask_recalls p zero q t =
      (none, ((enqueue_job V (codes "recalls_mmy") (P.write_mmy p) (V.clock q.statements) q).1, t))
  ask_recalls p (suc n) q t = (none, (q, t))

  -- Outside the market nothing more is done.
  unfoldable pub attach_for : Text → MmyPayload → Queue → Tables → Done
  unfolding in_market_scope attach_recalls ask_recalls
  attach_for id p q t =
      let attached =
        or_stop (attach_recalls G id p.make p.model p.year t) q λ n u. ask_recalls p n q u in
      if in_market_scope p.make p.year then attached else (none, (q, t))

  -- What is kept of a decoded VIN.
  unfoldable pub keep_vin : Text → Text → LeanVin → Queue → Tables → Done
  unfolding upsert_identity upsert_enrichment engine_of enrichment_row marked attach_for
  keep_vin id raw lean q t =
      let v = marked lean in
      or_stop (upsert_identity G id v.make v.model v.year (engine_of v) t) q λ _ t1.
        or_stop (upsert_enrichment G (enrichment_row id v) t1) q
          λ _ t2. attach_for id (mmy_of raw v) q t2

module _ {F : Type 0} (G : Server F) where
  -- An error ends the loop.
  unfoldable pub keep_recalls : MmyPayload → List LeanRecall → Tables → Kept (Unit {0})
  unfolding upsert_catalog catalog_row
  keep_recalls p [] t = (holds tt, t)
  keep_recalls p (r ∷ rs) t =
      and_then (upsert_catalog G (catalog_row p r) t) λ _ u. keep_recalls p rs u

  -- The recalls of the catalog for the vehicle of the job, where there is one; an error is not
  -- looked at.
  unfoldable pub attach_again : MmyPayload → Tables → Tables
  unfolding attach_recalls
  attach_again p t = of_vehicle p.vehicle_id
    where
      attached : Option Text → Tables
      attached none = t
      attached (some id) = (attach_recalls G id p.make p.model p.year t).1

      of_vehicle : Text → Tables
      of_vehicle [] = t
      of_vehicle (c ∷ cs) = attached (G.parse_uuid (c ∷ cs))
