-- ===== src/Store/Sessions/Read.antt =====
-- Scans are read (internal/store/store.go: GetScan, ListScansByVIN, listDTCs, LatestDTCsForVIN,
-- LatestObservationsForVIN).
use mechmind.Base.{ℕ, take, keep, is_some, Bool, Option, none, some, List, [], ◌∷◌, map}
use mechmind.Base.Sort.{sort_by}
use mechmind.Text.{Text, text_eq}
use mechmind.Obd.Types.{Observations, Dtc}
use mechmind.Obd.Codes.{describe_code}
use mechmind.Store.{Stored, erred, holds, other, not_found}
use mechmind.Store.Accounts.{and_then, or_missing}
use mechmind.Store.Tables.{Vehicle, SessionRow, DtcRow, Tables, Server, Kept, has_session_id, query}
use mechmind.Store.Sessions.{reread, joined, rows_by_vin, limit_or, scan_record, first_row}
use mechmind.Api.{ScanRecord}

unfoldable pub of_session : Text → DtcRow → Bool
unfolding text_eq
of_session id r = text_eq r.scan_session_id id

-- Whether a joined row has observations.
unfoldable pub has_observations : SessionRow × Vehicle → Bool
has_observations (s, v) = is_some s.observations

module _ {F : Type 0} (G : Server F) where
  unfoldable pub read_dtc : DtcRow → Dtc F
  unfolding describe_code
  read_dtc r = record {
    code = r.code;
    status = r.status;
    freeze_frame = reread G.read_frame r.freeze_frame;
    description = describe_code r.code;
  }

  unfoldable pub code_before : DtcRow → DtcRow → Bool
  code_before a b = G.before a.code b.code

  -- The codes of a scan, in the order of their texts.
  unfoldable pub dtcs_of : Text → List DtcRow → List (Dtc F)
  unfolding sort_by of_session read_dtc code_before
  dtcs_of id rows = map read_dtc (sort_by code_before (keep (of_session id) rows))

  unfoldable pub list_dtcs : Text → Tables → Kept (List (Dtc F))
  unfolding query dtcs_of
  list_dtcs id = query G λ t. (holds (dtcs_of id t.dtc_rows), t)

  unfoldable pub with_dtcs : ScanRecord F → Tables → Kept (ScanRecord F)
  unfolding list_dtcs
  with_dtcs r t = and_then (list_dtcs r.id t) λ ds u. (holds (record r { dtcs = ds }), u)

  -- The record of a joined row, with its observations where they are read.
  unfoldable pub observed : SessionRow × Vehicle → ScanRecord F
  unfolding scan_record
  observed p = record (scan_record p) { observations = reread G.read_observations p.0.observations }

  unfoldable pub get_scan : Text → Tables → Kept (ScanRecord F)
  unfolding query joined has_session_id observed with_dtcs
  get_scan id t =
      and_then
        (query G
          (λ u.
            (or_missing (first_row (joined u.vehicles (keep (has_session_id id) u.sessions))), u))
          t)
        λ p u. with_dtcs (observed p) u

  -- The codes of each record; an error ends the loop.
  unfoldable pub fill_dtcs : List (ScanRecord F) → Tables → Kept (List (ScanRecord F))
  unfolding with_dtcs
  fill_dtcs [] t = (holds [], t)
  fill_dtcs (r ∷ rs) t =
      and_then (with_dtcs r t) λ s u. and_then (fill_dtcs rs u) λ more w. (holds (s ∷ more), w)

  unfoldable pub list_scans_by_vin : Text → Option Text → ℕ → Tables → Kept (List (ScanRecord F))
  unfolding query rows_by_vin limit_or scan_record fill_dtcs
  list_scans_by_vin vin org limit t =
      and_then (query G (λ u. (holds (take (limit_or 20 limit) (rows_by_vin vin org u)), u)) t)
        λ rows u. fill_dtcs (map scan_record rows) u

  unfoldable pub latest_observations : Text → Option Text → Tables → Kept (Observations F)
  unfolding query rows_by_vin has_observations
  latest_observations vin org =
      query G λ t. (unmarshaled (first_row (keep has_observations (rows_by_vin vin org t))), t)
    where
      or_bad : Text → Option (Observations F) → Stored (Observations F)
      or_bad raw none = erred (other (G.json_error raw))
      or_bad raw (some o) = holds o

      unmarshal : Option Text → Stored (Observations F)
      unmarshal none = erred not_found
      unmarshal (some raw) = or_bad raw (G.read_observations raw)

      unmarshaled : Option (SessionRow × Vehicle) → Stored (Observations F)
      unmarshaled none = erred not_found
      unmarshaled (some (s, v)) = unmarshal s.observations

  unfoldable pub latest_dtcs : Text → Option Text → Tables → Kept (List (Dtc F))
  unfolding query rows_by_vin list_dtcs
  latest_dtcs vin org t =
      and_then (query G (λ u. (or_missing (first_row (rows_by_vin vin org u)), u)) t)
        λ p u. list_dtcs p.0.id u
