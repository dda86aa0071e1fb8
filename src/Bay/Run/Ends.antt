-- ===== src/Bay/Run/Ends.antt =====
-- How a scan job ends (cmd/bayui/server.go: runScan).
use mechmind.Bay.Run.Kept.{
  explain_all-HasJob, api_json-HasJob, note_world-HasJob, KeepsJobs, HasJob, HasNullAnswer,
  explain_all-HasNullAnswer,
}
use mechmind.Bay.Run.Delivered.{scan-Delivers, Delivers}
use mechmind.Bay.Heap.{at-update, at}
use mechmind.Bay.Jobs.{change_job, finish_job}
use mechmind.Http.{Result, gives, fails}
use mechmind.Obd.Usb.Err.{Err}
use mechmind.Bay.Run.{
  no_vin_text, give_up, run_scan, upload_and_explain, finish_upload, use_result, after_scan,
  note_world, finish_world, report_upload, explain_all, Explanations,
}
use mechmind.Obd.Scan.{scan}
use mechmind.Bay.{Report, ScanJob}
use mechmind.Obd.Types.{ScanResult}
use mechmind.Bay.Client.{upload_scan, Host}
use mechmind.Obd.Scan.{Adapter}
use mechmind.Base.{
  Bool-cases, ℕ, ◌≡◌, refl, ◌⊎◌, inl, inr, Bool, true, false, not, ◌&&◌, Option, none, some, [],
  ◌++◌,
}
use mechmind.Base.Float.{Floats}
use mechmind.Text.{Text, codes, text_eq, has_prefix}

-- What runScan asks of a result before it is uploaded.
pub IsUsableResult : {F : Type 0} → Bool → ScanResult F → Type 0
IsUsableResult mock r =
    (text_eq r.vehicle.vin [] ≡ false)
    × ((has_prefix r.vehicle.vin (codes "MOCK") && not mock) ≡ false)

-- A report on the result that the scan gave.
pub IsServed : {F D : Type 0} → Bool → Option (ScanResult F) → Option (Report F D) → Type 0
IsServed {F} {D} mock scanned o =
    (r : Report F D) × (o ≡ some r) × (scanned ≡ some r.scan) × IsUsableResult mock r.scan

-- A job that has ended, after a scan that gave this result or none.
pub IsEnded : {F D : Type 0} → Bool → Option (ScanResult F) → ScanJob F D → Type 0
IsEnded mock scanned j =
    (j.busy ≡ false)
    × (j.done ≡ true)
    × ((j.phase ≡ codes "Failed") ⊎ ((j.phase ≡ codes "Done") × IsServed mock scanned j.result))

module _ {F W : Type 0} (H : Host F W) where
  open H use {Doc, bay, put_bay, stamp, exchange}

  pub EndsAt : ℕ → Bool → Option (ScanResult F) → W → Type 0
  EndsAt i mock scanned w =
      (j : ScanJob F Doc) × (at i (bay w).jobs ≡ some j) × IsEnded mock scanned j

  -- How the run ends: with the job at its end, or with the panic of a null answer to an
  -- explanation.
  pub Ends : ℕ → Bool → Option (ScanResult F) → Option W → Type 0
  Ends i mock scanned (some w) = EndsAt i mock scanned w
  Ends i mock scanned none =
      (r : ScanResult F) × (scanned ≡ some r) × HasNullAnswer H r.vehicle.vin r.dtcs

  finish_fails-EndsAt :
      (i : ℕ) (mock : Bool) (o : Option (ScanResult F)) (e : Text) (w : W)
      → HasJob H i w
      → EndsAt i mock o (finish_world H i (fails e) w)
  unfolding HasJob EndsAt finish_world IsEnded
  finish_fails-EndsAt i mock o e w (j, h) = (
    finish_job (fails e) j,
    rw (H.bay-put_bay (change_job i (finish_job (fails e)) (bay w)) w)
        (at-update i (finish_job (fails e)) (bay w).jobs j h),
    (refl, refl, inl refl),
  )

  finish_gives-EndsAt :
      (i : ℕ) (mock : Bool) (r : Report F Doc) (w : W)
      → IsUsableResult mock r.scan
      → HasJob H i w
      → EndsAt i mock (some r.scan) (finish_world H i (gives r) w)
  unfolding HasJob EndsAt finish_world IsEnded IsServed
  finish_gives-EndsAt i mock r w good (j, h) = (
    finish_job (gives r) j,
    rw (H.bay-put_bay (change_job i (finish_job (gives r)) (bay w)) w)
        (at-update i (finish_job (gives r)) (bay w).jobs j h),
    (refl, refl, inr (refl, (r, refl, refl, good))),
  )

  give_up-EndsAt :
      (i : ℕ) (mock : Bool) (o : Option (ScanResult F)) (e : Text) (w : W)
      → HasJob H i w
      → EndsAt i mock o (give_up H i e w)
  unfolding give_up
  give_up-EndsAt i mock o e w h =
      finish_fails-EndsAt i mock o e (note_world H e w) (note_world-HasJob H i e w h)

  report_upload-Ends :
      (i : ℕ) (mock : Bool) (r : ScanResult F) (doc : Doc) (m : Option (Explanations H) × W)
      → IsUsableResult mock r
      → HasJob H i m.1
      → (m.0 ≡ none → HasNullAnswer H r.vehicle.vin r.dtcs)
      → Ends i mock (some r) (report_upload H i r doc m)
  unfolding report_upload Ends
  report_upload-Ends i mock r doc (none, w) good h nil = (r, refl, nil refl)
  report_upload-Ends i mock r doc (some exps, w) good h nil =
      finish_gives-EndsAt i mock _ _ good (note_world-HasJob H i (codes "Done") w h)

  finish_upload-Ends :
      KeepsJobs H
      → (i : ℕ) (mock : Bool) (r : ScanResult F) (u : Result Doc) (w : W) → IsUsableResult mock r
      → HasJob H i w
      → Ends i mock (some r) (finish_upload H i r u w)
  unfolding finish_upload Ends
  finish_upload-Ends keeps i mock r (fails e) w good h =
      finish_gives-EndsAt i mock _ _ good (note_world-HasJob H i (codes "Upload failed: " ++ e) w h)
  finish_upload-Ends keeps i mock r (gives doc) w good h =
      report_upload-Ends i mock r doc (explain_all H r.vehicle.vin r.dtcs w) good
        (explain_all-HasJob H keeps i r.vehicle.vin r.dtcs w h)
        (explain_all-HasNullAnswer H r.vehicle.vin r.dtcs w)

  upload_and_explain-Ends :
      KeepsJobs H
      → (i : ℕ) (mock : Bool) (r : ScanResult F) (w : W) → IsUsableResult mock r
      → HasJob H i w
      → Ends i mock (some r) (upload_and_explain H i r w)
  unfolding upload_and_explain upload_scan
  upload_and_explain-Ends keeps i mock r w good h =
      let v = note_world H (codes "Uploading scan to MechMind") w in
      let (u, w1) = upload_scan H r v in
      finish_upload-Ends keeps i mock r u w1 good (
        api_json-HasJob H keeps i (codes "POST") (codes "/v1/scans") (some (H.encode_scan r)) v
          (note_world-HasJob H i (codes "Uploading scan to MechMind") w h))

  use_result-Ends :
      KeepsJobs H
      → (i : ℕ) (mock : Bool) (r : ScanResult F) (w : W) → HasJob H i w
      → Ends i mock (some r) (use_result H i mock r w)
  unfolding use_result IsUsableResult Ends
  use_result-Ends keeps i mock r w h = elim (Bool-cases (text_eq r.vehicle.vin [])) [
    | inl blank ↦ rw blank (give_up-EndsAt i mock (some r) no_vin_text w h)
    | inr named ↦ elim (Bool-cases (has_prefix r.vehicle.vin (codes "MOCK") && not mock)) [
      | inl mocked ↦ rw (named, mocked) (finish_fails-EndsAt i mock (some r) _ w h)
      | inr real ↦ rw (named, real) (upload_and_explain-Ends keeps i mock r w (named, real) h)
    ]
  ]

  after_scan-Ends :
      KeepsJobs H
      → (i : ℕ) (mock : Bool) (over : Option Err) (r : Option (ScanResult F) × Option Err) (w : W)
      → Delivers r
      → HasJob H i w
      → Ends i mock r.0 (after_scan H i mock over r w)
  unfolding after_scan Delivers Ends
  after_scan-Ends keeps i mock over (o, some e) w d h = give_up-EndsAt i mock o _ w h
  after_scan-Ends keeps i mock over (some r, none) w d h = use_result-Ends keeps i mock r w h
  after_scan-Ends keeps i mock over (none, none) w d h = absurd d

module _ (R : Floats) (A : Adapter R.F) (H : Host R.F A.State) where
  -- Where the job is still there after the scan and the exchanges with the API keep it, the run
  -- ends it, unless it panics since the API answers the explanation of a code of the result with a
  -- JSON null. An ended job is done and not busy, and has either failed or holds a report on the
  -- result that the scan gave, whose VIN is not empty and, on a live adapter, is not a mock one.
  pub run_scan-Ends :
      KeepsJobs H
      → (i : ℕ) (mock : Bool) (w : A.State) → HasJob H i (scan R A w).1
      → Ends H i mock (scan R A w).0.0 (run_scan R A H i mock w)
  unfolding run_scan
  run_scan-Ends keeps i mock w h =
      after_scan-Ends H keeps i mock _ _ (scan R A w).1 (scan-Delivers R A w) h
