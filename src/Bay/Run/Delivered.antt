-- ===== src/Bay/Run/Delivered.antt =====
-- What Scan returns: a result, an error, or both (pkg/obd/types.go: Scan).

use mechmind.Obd.Usb.Err.{Err}
use mechmind.Obd.Scan.{collect_frames, Tally, codes_or_nil, scan}
use mechmind.Obd.Types.{VehicleInfo, Dtc, ScanResult}
use mechmind.Obd.Scan.{scan_codes, scan_opened, by_error, Adapter}
use mechmind.Base.{Option, none, some, List, []}
use mechmind.Base.Float.{Floats}
use mechmind.Text.{codes}

-- A result or an error, as `Scan` gives them.
unfoldable pub Delivers : {F : Type 0} → Option (ScanResult F) × Option Err → Type 0
Delivers (none, none) = ⊥
Delivers (some r, e) = Unit
Delivers (none, some e) = Unit

module _ (R : Floats) (A : Adapter R.F) where
  open A use {State}

  by_error-Delivers :
      (e : Option Err) (s : State) (r : (Option (ScanResult R.F) × Option Err) × State)
      → Delivers r.0
      → Delivers (by_error e (λ m. ((none, some m), s)) r).0
  unfolding Delivers
  by_error-Delivers none s r h = h
  by_error-Delivers (some e) s r h = tt

  scan_codes-Delivers :
      (info : VehicleInfo) (ds : List (Dtc R.F)) (s : State) → Delivers (scan_codes R A info ds s).0
  unfolding scan_codes Delivers
  scan_codes-Delivers info ds s =
      let start : Tally R.F = record { attempts = 2; failures = 0; notes = []; frames = [] } in
      let ((filled, err, t), s1) = collect_frames R A ds start s in by_error-Delivers err s1 _ tt

  scan_opened-Delivers : (s : State) → Delivers (scan_opened R A s).0
  unfolding scan_opened
  scan_opened-Delivers s =
      let ((info, e), s1) = A.identify (A.report (codes "Reading VIN and protocol") s) in
      let ((ds, e2), s2) = A.read_dtcs (A.report (codes "Reading trouble codes") s1) in
      by_error-Delivers e s1 _
        (by_error-Delivers e2 s2 _ (scan_codes-Delivers info (codes_or_nil ds) s2))

  pub scan-Delivers : (s : State) → Delivers (scan R A s).0
  unfolding scan
  scan-Delivers s =
      let (e, s1) = A.open_up (A.report (codes "Opening adapter") s) in
      by_error-Delivers e s1 _ (scan_opened-Delivers s1)
