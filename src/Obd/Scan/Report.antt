-- ===== src/Obd/Scan/Report.antt =====
-- What a pass that ends without an error reports (pkg/obd/types.go: Scan).
use mechmind.Obd.Usb.Init.Laws.{no_some}
use mechmind.Obd.Usb.Err.{Err}
use mechmind.Base.{
  length-map, some_inj, Option-cases, ℕ, ◌+◌, ◌≤◌, ◌≡◌, refl, sym, ap, inl, inr, Option, none, some,
  List, [], arith, length,
}
use mechmind.Base.Float.{Floats}
use mechmind.Text.{codes}
use mechmind.Obd.Types.{Dtc, VehicleInfo, LiveSnapshot, Observations, ScanResult, LinkMetrics}
use mechmind.Obd.Scan.{
  scan_opened, collect_frames, Tally, metrics_of, codes_or_nil, result_of, sample_live, scan_codes,
  note_live, Adapter, scan,
}
use mechmind.Obd.Scan.Confidence.{link_confidence-IsPercent, IsPercent}
use mechmind.Obd.Scan.Counts.{codes_in, IsTally, collect_frames-Collected}

same_length :
    {F : Type 0} (xs ys : List (Dtc F)) → codes_in xs ≡ codes_in ys → length xs ≡ length ys
same_length xs ys h =
    omega (arith, length-map (λ d. d.code) xs, length-map (λ d. d.code) ys, ap length h)

module _ (R : Floats) (A : Adapter R.F) where
  -- The attempts of the live sample.
  abbrev pub live_attempts : {B : Type 0} → Option B → ℕ
  live_attempts none = 0
  live_attempts (some read) = 1

  -- The metrics of a result with their bounds.
  abbrev pub IsMeasured : ScanResult R.F → Type 0
  IsMeasured res =
      (o : Observations R.F) × (m : LinkMetrics R.F) × (res.observations ≡ some o)
      × (o.link ≡ some m)
      × (m.command_failures ≤ m.command_attempts)
      × (m.command_attempts ≡ 2 + length res.dtcs + live_attempts A.read_live)
      × IsPercent R m.confidence

  -- The codes of a result are those of some reading, in its order.
  abbrev pub IsRead : ScanResult R.F → Type 0
  IsRead res = (s : A.State) × (codes_in res.dtcs ≡ codes_in (codes_or_nil (A.read_dtcs s).0.0))

  result_of-IsMeasured :
      (info : VehicleInfo) (ds : List (Dtc R.F)) (live : Option (LiveSnapshot R.F)) (t : Tally R.F)
      → IsTally t
      → t.attempts ≡ 2 + length ds + live_attempts A.read_live
      → IsMeasured (result_of R A info ds live t)
  unfolding result_of metrics_of
  result_of-IsMeasured info ds live t h n =
      (_, _, refl, refl, h, n, link_confidence-IsPercent R (metrics_of R A info t))

  note_live-counts :
      (r : Option (LiveSnapshot R.F) × Option Err) (t : Tally R.F)
      → IsTally t
      → IsTally (note_live R A r t).1 × ((note_live R A r t).1.attempts ≡ t.attempts + 1)
  unfolding note_live
  note_live-counts (live, none) t h = (omega arith, refl)
  note_live-counts (live, some e) t h = (omega arith, refl)

  sample_live-counts :
      (reader : Option (A.State → (Option (LiveSnapshot R.F) × Option Err) × A.State))
      (t : Tally R.F) (s : A.State)
      → IsTally t
      → let t' = (sample_live R A reader t s).0.1 in
        IsTally t' × (t'.attempts ≡ t.attempts + live_attempts reader)
  unfolding sample_live
  sample_live-counts none t s h = (h, omega arith)
  sample_live-counts (some read) t s h =
      note_live-counts (read (A.report (codes "Sampling live sensors") s)).0 t h

  -- From the codes on: the result is measured and holds the codes that it was given.
  scan_codes-IsMeasured :
      (info : VehicleInfo) (ds : List (Dtc R.F)) (s : A.State) (res : ScanResult R.F)
      → (scan_codes R A info ds s).0.0 ≡ some res
      → IsMeasured res × (codes_in res.dtcs ≡ codes_in ds)
  unfolding scan_codes result_of
  scan_codes-IsMeasured info ds s res h =
      let start : Tally R.F = record { attempts = 2; failures = 0; notes = []; frames = [] } in
      let (r, s1) = collect_frames R A ds start s in
      let done = collect_frames-Collected R A ds start s in
      let ((live, t), s2) = sample_live R A A.read_live r.2 s1 in
      let counts = sample_live-counts A.read_live r.2 s1 (done.1 (omega arith)) in
      elim (Option-cases r.1) [
        | inr (e, q) ↦ no_some (sym (rw q at h))
        | inl q ↦
            let total : t.attempts ≡ 2 + length r.0 + live_attempts A.read_live =
              omega (arith, counts.1, done.2 q, same_length r.0 ds done.0) in
            rw⁻¹ (some_inj (rw q at h))
              ((result_of-IsMeasured info r.0 live t counts.0 total, done.0))
      ]

  scan_opened-IsMeasured :
      (s : A.State) (res : ScanResult R.F)
      → (scan_opened R A s).0.0 ≡ some res
      → IsMeasured res × IsRead res
  unfolding scan_opened
  scan_opened-IsMeasured s res h =
      let ((info, e), s1) = A.identify (A.report (codes "Reading VIN and protocol") s) in
      let before = A.report (codes "Reading trouble codes") s1 in
      let ((ds, e2), s2) = A.read_dtcs before in
      elim (Option-cases e) [
        | inr (x, q) ↦ no_some (sym (rw q at h))
        | inl q ↦ elim (Option-cases e2) [
          | inr (x, q2) ↦ no_some (sym (rw (q, q2) at h))
          | inl q2 ↦
              let measured =
                scan_codes-IsMeasured info (codes_or_nil ds) s2 res (rw (q, q2) at h) in
              (measured.0, (before, measured.1))
        ]
      ]

  -- A result of `Scan` lists the codes that the adapter read, in their order. Its metrics count an
  -- attempt for the vehicle, for the codes, for every code's freeze frame and for the live sample
  -- of
  -- an adapter that has one, no more failures than attempts, and a confidence between 0 and 100.
  pub scan-IsMeasured :
      (s : A.State) (res : ScanResult R.F)
      → (scan R A s).0.0 ≡ some res
      → IsMeasured res × IsRead res
  unfolding scan
  scan-IsMeasured s res h =
      let (e, s1) = A.open_up (A.report (codes "Opening adapter") s) in
      elim (Option-cases e) [
        | inr (x, q) ↦ no_some (sym (rw q at h))
        | inl q ↦ scan_opened-IsMeasured s1 res (rw q at h)
      ]
