-- ===== src/Store/Sessions/Make.antt =====
-- A scan is stored (internal/store/store.go: CreateScan), in one transaction.
use mechmind.Base.{ℕ, Option, none, some, List, [], ◌∷◌, ◌++◌, if◌then◌else◌}
use mechmind.Text.{Text, text_eq, codes}
use mechmind.Obd.Types.{Dtc}
use mechmind.Store.{Stored, erred, holds, other}
use mechmind.Store.Accounts.{and_then, find_row}
use mechmind.Store.Tables.{
  SessionRow, DtcRow, Tables, Server, Kept, has_vin, has_session_id, query, in_transaction,
}
use mechmind.Store.Sessions.{written, dtc_row, add_vehicle, add_session}
use mechmind.Api.{ScanInput, ScanRecord}

unfoldable pub session_row :
    {F : Type 0} → ScanInput F → Text → Text → Text → Text → ℕ → Option Text → SessionRow
session_row input tech org vehicle id now obs = record {
  id = id;
  vehicle_id = vehicle;
  technician_id = tech;
  org_id = org;
  link_type = input.link_type;
  adapter_name = input.adapter_name;
  protocol = input.protocol;
  started_at = now;
  observations = obs;
}

unfoldable pub made_record :
    {F : Type 0} → ScanInput F → Text → Text → Text → Text → ℕ → ScanRecord F
made_record input tech org vehicle id now = record {
  id = id;
  vehicle_id = vehicle;
  vin = input.vin;
  technician_id = tech;
  org_id = org;
  link_type = input.link_type;
  adapter_name = input.adapter_name;
  protocol = input.protocol;
  started_at = now;
  finished_at = some now;
  dtcs = input.dtcs;
  observations = input.observations;
}

module _ {F : Type 0} (G : Server F) where
  open G use {postgres, clock}

  -- INSERT INTO vehicles … ON CONFLICT (vin) … RETURNING id.
  unfoldable pub upsert_vehicle : Text → Tables → Kept Text
  unfolding query has_vin add_vehicle
  upsert_vehicle vin = query G λ t.
      add_vehicle (find_row (has_vin vin) t.vehicles) vin (postgres.new_id t.statements)
        postgres.duplicate t

  unfoldable pub insert_session : SessionRow → Tables → Kept (Unit {0})
  unfolding query has_session_id add_session
  insert_session s =
      query G λ t. add_session (find_row (has_session_id s.id) t.sessions) postgres.duplicate s t

  unfoldable pub insert_dtc : DtcRow → Tables → Kept (Unit {0})
  unfolding query
  insert_dtc r = query G λ t. (holds tt, record t { dtc_rows = t.dtc_rows ++ r ∷ [] })

  unfoldable pub store_dtc : Text → Dtc F → Tables → Kept (Unit {0})
  unfolding insert_dtc dtc_row
  store_dtc id d t =
      and_then (written G.write_frame d.freeze_frame, t)
        λ frame u. insert_dtc (dtc_row id d frame) u

  -- An error ends the loop.
  unfoldable pub store_dtcs : Text → List (Dtc F) → Tables → Kept (Unit {0})
  unfolding store_dtc
  store_dtcs id [] t = (holds tt, t)
  store_dtcs id (d ∷ ds) t = and_then (store_dtc id d t) λ _ u. store_dtcs id ds u

  -- The rows of the scan, once its vehicle is known.
  unfoldable pub store_session : ScanInput F → Text → Text → Text → Tables → Kept (ScanRecord F)
  unfolding session_row insert_session store_dtcs made_record
  store_session input tech org vehicle t =
      let id = G.new_uuid t.statements in
      and_then (written G.write_observations input.observations, t)
        λ obs u.
          let now = clock t.statements in
          and_then (insert_session (session_row input tech org vehicle id (G.kept_time now) obs) u)
            λ _ u1.
              and_then (store_dtcs id input.dtcs u1)
                λ _ u2. (holds (made_record input tech org vehicle id now), u2)

  -- The transaction without BEGIN and COMMIT.
  unfoldable pub scan_body : ScanInput F → Text → Text → Tables → Kept (ScanRecord F)
  unfolding upsert_vehicle store_session
  scan_body input tech org t =
      and_then (upsert_vehicle input.vin t) λ vehicle u. store_session input tech org vehicle u

  abbrev pub parsed : Text → Text → Stored Text
  parsed field raw = or_error (G.parse_uuid raw)
    where
      or_error : Option Text → Stored Text
      or_error none = erred (other (field ++ codes ": " ++ G.uuid_error raw))
      or_error (some id) = holds id

  unfoldable pub create_scan : ScanInput F → Tables → Kept (ScanRecord F)
  unfolding in_transaction scan_body text_eq
  create_scan input t =
      let made =
        and_then (parsed (codes "technician_id") input.technician_id, t)
          λ tech u.
            and_then (parsed (codes "org_id") input.org_id, u)
              λ org u1. in_transaction G (scan_body input tech org) u1 in
      if text_eq input.vin [] then (erred (other (codes "vin is required")), t) else made
