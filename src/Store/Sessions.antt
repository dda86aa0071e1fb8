-- ===== src/Store/Sessions.antt =====
-- The scans of the store (internal/store/store.go: CreateScan, GetScan, ListScansByVIN, listDTCs,
-- LatestDTCsForVIN, LatestObservationsForVIN). Of a scan's input the notes are never read. Rows of
-- equal rank come in the order in which they were made.
pub mod Make
pub mod Read
pub mod Keyed
pub mod RoundTrip
pub mod Lists
pub mod Serve
use mechmind.Base.{
  ℕ, keep, zero, suc, ◌+◌, Bool, true, ◌&&◌, Option, none, some, List, [], ◌∷◌, ◌++◌, leb,
}
use mechmind.Base.Sort.{sort_by}
use mechmind.Text.{Text, text_eq, codes}
use mechmind.Obd.Types.{FreezeFrame, Observations, DtcStatus, Dtc, spelled, confirmed}
use mechmind.Obd.Codes.{describe_code}
use mechmind.Store.{Stored, erred, holds, Postgres, other, not_found}
use mechmind.Store.Accounts.{ran, and_then, find_row, or_missing}
use mechmind.Store.Tables.{
  Vehicle, SessionRow, DtcRow, Tables, Server, Kept, has_vin, has_vehicle_id, has_session_id, query,
  in_transaction,
}
use mechmind.Api.{ScanInput, ScanRecord}

-- The status of a row: an empty one is stored as confirmed.
unfoldable pub stored_status : DtcStatus → DtcStatus
stored_status (spelled []) = confirmed
stored_status s = s

-- A value of JSON that may be absent, written and read.
abbrev pub written : {A : Type 0} → (A → Stored Text) → Option A → Stored (Option Text)
written write none = holds none
written write (some a) = with_text (write a)
  where
    with_text : Stored Text → Stored (Option Text)
    with_text (erred e) = erred e
    with_text (holds t) = holds (some t)

abbrev pub reread : {A : Type 0} → (Text → Option A) → Option Text → Option A
reread read none = none
reread read (some []) = none
reread read (some (c ∷ cs)) = read (c ∷ cs)

unfoldable pub dtc_row : {F : Type 0} → Text → Dtc F → Option Text → DtcRow
unfolding stored_status
dtc_row id d frame = record {
  scan_session_id = id;
  code = d.code;
  status = stored_status d.status;
  freeze_frame = frame;
}

-- The vehicle of a VIN, new where there is none.
unfoldable pub add_vehicle : Option Vehicle → Text → Text → Text → Tables → Kept Text
unfolding has_vehicle_id
add_vehicle (some v) vin id clash t = (holds v.id, t)
add_vehicle none vin id clash t = unless (find_row (has_vehicle_id id) t.vehicles)
  where
    unless : Option Vehicle → Kept Text
    unless (some taken) = (erred (other clash), t)
    unless none = (
      holds id,
      record t {
        vehicles =
            t.vehicles
            ++ record { id = id; vin = vin; make = none; model = none; year = none; engine = none }
              ∷ [];
      },
    )

-- The row is added unless its identifier is taken.
unfoldable pub add_session : Option SessionRow → Text → SessionRow → Tables → Kept (Unit {0})
add_session (some taken) clash s t = (erred (other clash), t)
add_session none clash s t = (holds tt, record t { sessions = t.sessions ++ s ∷ [] })

-- The scans joined with their vehicles.
unfoldable pub joined : List Vehicle → List SessionRow → List (SessionRow × Vehicle)
unfolding has_vehicle_id
joined vs [] = []
joined vs (s ∷ ss) = with_vehicle (find_row (has_vehicle_id s.vehicle_id) vs) (joined vs ss)
  where
    with_vehicle : Option Vehicle → List (SessionRow × Vehicle) → List (SessionRow × Vehicle)
    with_vehicle none rest = rest
    with_vehicle (some v) rest = (s, v) ∷ rest

-- Whether a scan is one of the organization, where one is given.
unfoldable pub in_org : Option Text → SessionRow → Bool
unfolding text_eq
in_org none s = true
in_org (some org) s = text_eq s.org_id org

unfoldable pub newer : SessionRow × Vehicle → SessionRow × Vehicle → Bool
newer (a, v) (b, w) = leb b.started_at a.started_at

-- The joined rows of a VIN, and of an organization where it is given, the newest first.
unfoldable pub rows_by_vin : Text → Option Text → Tables → List (SessionRow × Vehicle)
unfolding joined in_org newer has_vin sort_by
rows_by_vin vin org t = sort_by newer (
    keep (λ (p : SessionRow × Vehicle). has_vin vin p.1 && in_org org p.0)
      (joined t.vehicles t.sessions))

-- `LIMIT`, and the default where it is not positive.
unfoldable pub limit_or : ℕ → ℕ → ℕ
limit_or default zero = default
limit_or default (suc n) = suc n

-- A joined row, without its codes and its observations.
unfoldable pub scan_record : {F : Type 0} → SessionRow × Vehicle → ScanRecord F
scan_record (s, v) = record {
  id = s.id;
  vehicle_id = s.vehicle_id;
  vin = v.vin;
  technician_id = s.technician_id;
  org_id = s.org_id;
  link_type = s.link_type;
  adapter_name = s.adapter_name;
  protocol = s.protocol;
  started_at = s.started_at;
  finished_at = some s.started_at;
  dtcs = [];
  observations = none;
}

abbrev pub first_row : {A : Type 0} → List A → Option A
first_row [] = none
first_row (x ∷ xs) = some x
