-- ===== src/Api/Scans.antt =====
-- The handlers of scans (internal/api/server.go: createScan, getScan, listVehicleScans and those of
-- the enrichment jobs).
use mechmind.Obd.Types.{Observations, Dtc}
use mechmind.Store.{holds, erred, Stored, super_admin, error_text}
use mechmind.Base.{ℕ, Bool, ◌||◌, Option, none, some, List, [], if◌then◌else◌}
use mechmind.Text.{Text, codes, text_eq}
use mechmind.Http.{answered, refused, Answer}
use mechmind.Api.{
  scan, job, scans, stats, scans, ScanRecord, stats, ScanInput, Outside, Payload, Claims,
}

-- The body of a new scan.
pub record CreateScanRequest (F : Type 0) : Type 0 where
  pub vin : Text
  pub link_type : Text
  pub adapter_name : Text
  pub protocol : Text
  pub notes : Text
  pub dtcs : List (Dtc F)
  pub observations : Option (Observations F)

module _ {F : Type 0} (O : Outside F) where
  open O use {parse_uuid, Scans}

  abbrev pub Served : Type 0
  Served = Answer (Payload F) × Scans

  unfoldable pub scan_input : Claims → CreateScanRequest F → ScanInput F
  unfolding text_eq
  scan_input c req = record {
    technician_id = c.technician_id;
    org_id = c.org_id;
    vin = req.vin;
    link_type = if text_eq req.link_type [] then codes "usb" else req.link_type;
    adapter_name = req.adapter_name;
    protocol = req.protocol;
    notes = req.notes;
    dtcs = req.dtcs;
    observations = req.observations;
  }

  -- A stored scan has its VIN queued for decoding; a failure of that is not an error.
  unfoldable pub created : Stored (ScanRecord F) × Scans → Served
  unfolding error_text
  created (erred e, s) = (refused 400 (error_text e), s)
  created (holds rec, s) = (answered 201 (scan rec), O.enqueue_vin_decode rec.vehicle_id rec.vin s)

  unfoldable pub create_from : Claims → Stored (CreateScanRequest F) → Scans → Served
  unfolding scan_input created error_text
  create_from c (erred e) s = (refused 400 (error_text e), s)
  create_from c (holds req) s = created (O.create_scan (scan_input c req) s)

  unfoldable pub create_scan : Claims → Stored (CreateScanRequest F) → Scans → Served
  unfolding create_from text_eq
  create_scan c body s =
      let made = create_from c body s in
      if text_eq c.org_id []
      then (
        refused 403 (
            codes
              "super admins cannot create scans without an org context; use a shop technician account"),
        s,
      )
      else made

  -- Whether the claims may see a scan of this organization.
  unfoldable pub may_see : Claims → Text → Bool
  unfolding text_eq
  may_see c org = text_eq c.role super_admin || text_eq org c.org_id

  unfoldable pub found_scan : Claims → Stored (ScanRecord F) × Scans → Served
  unfolding may_see error_text
  found_scan c (erred e, s) = (refused 404 (error_text e), s)
  found_scan c (holds rec, s) =
      if may_see c rec.org_id
      then (answered 200 (scan rec), s)
      else (refused 403 (codes "forbidden"), s)

  unfoldable pub look_up : Claims → Option Text → Scans → Served
  unfolding found_scan
  look_up c none s = (refused 400 (codes "invalid scan id"), s)
  look_up c (some id) s = found_scan c (O.get_scan id s)

  unfoldable pub get_scan : Claims → Text → Scans → Served
  unfolding look_up
  get_scan c raw s = look_up c (parse_uuid raw) s

  unfoldable pub listed : Text → Stored (List (ScanRecord F)) × Scans → Served
  unfolding error_text
  listed vin (erred e, s) = (refused 500 (error_text e), s)
  listed vin (holds recs, s) = (answered 200 (scans vin recs), s)

  unfoldable pub list_own : Text → Option Text → Scans → Served
  unfolding listed
  list_own vin none s = (refused 403 (codes "missing org"), s)
  list_own vin (some org) s = listed vin (O.list_scans_by_vin vin (some org) 50 s)

  -- Only a super_admin lists without a filter.
  unfoldable pub list_vehicle_scans : Claims → Text → Scans → Served
  unfolding listed list_own text_eq
  list_vehicle_scans c vin s =
      let all = listed vin (O.list_scans_by_vin vin none 50 s) in
      let own = list_own vin (parse_uuid c.org_id) s in
      if text_eq c.role super_admin then all else own

  told : ℕ → (Text → Payload F) → Stored Text × Scans → Served
  unfolding error_text
  told status k (erred e, s) = (refused 500 (error_text e), s)
  told status k (holds a, s) = (answered status (k a), s)

  unfoldable pub enrichment_stats : Scans → Served
  unfolding told
  enrichment_stats s = told 200 (λ a. stats a) (O.enrichment_stats s)

  unfoldable pub enrichment_seed : ℕ → Scans → Served
  unfolding told
  enrichment_seed now s = told 202 (λ a. job a) (O.enqueue_job (codes "seed_catalog") now s)
