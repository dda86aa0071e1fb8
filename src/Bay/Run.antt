-- ===== src/Bay/Run.antt =====
-- A scan job from the adapter to its report (cmd/bayui/server.go: runScan). The adapter's state is
-- the world that holds the server, since its progress is noted there; the context is the
-- adapter's. A run that panics
-- ends the program: it has no world.
pub mod Delivered
pub mod Kept
pub mod Ends
use mechmind.Bay.Heap.{at}
use mechmind.Base.{
  ℕ, ◌+◌, ◌/◌, Bool, false, not, ◌&&◌, Option, none, some, List, [], ◌∷◌, ◌++◌, if◌then◌else◌,
}
use mathlib.Core.Option
use mechmind.Base.Float.{Floats}
use mechmind.Text.{Text, codes, text_eq, has_prefix}
use mechmind.Http.{gives, fails, Result}
use mechmind.Obd.Types.{ScanResult, Dtc}
use mechmind.Obd.Scan.{Adapter, scan}
use mechmind.Obd.Usb.Err.{Err}
use mechmind.Bay.{Report, ScanJob}
use mechmind.Bay.Jobs.{note, change_job, finish_job}
use mechmind.Bay.Client.{Host, upload_scan, explain}

-- `stopped at “%s” (%v). …`.
stopped_text : Text → Text → Text
stopped_text phase reason =
    codes "stopped at “"
    ++ phase
    ++ codes "” ("
    ++ reason
    ++ codes "). Ignition ON, adapter seated, correct port/baud?"

pub no_vin_text : Text
no_vin_text =
    codes "ECU did not return a VIN — check ignition ON, adapter seating, and serial permissions"

module _ {F W : Type 0} (H : Host F W) where
  open H use {Doc, bay, put_bay, stamp}

  pub note_world : Text → W → W
  unfolding note
  note_world phase w = put_bay (note (stamp w) phase (bay w)) w

  pub finish_world : ℕ → Result (Report F Doc) → W → W
  unfolding finish_job
  finish_world i r w = put_bay (change_job i (finish_job r) (bay w)) w

  -- An error that is noted and ends the job.
  unfoldable pub give_up : ℕ → Text → W → W
  unfolding note_world finish_world
  give_up i e w = finish_world i (fails e) (note_world e w)

  phase_or : Option (ScanJob F Doc) → Text
  unfolding text_eq
  phase_or none = codes "unknown step"
  phase_or (some j) = if text_eq j.phase [] then codes "unknown step" else j.phase

  -- The error of a scan: with the context over, it names the phase of the job.
  unfoldable pub scan_error : ℕ → Err → Option Err → W → Text
  unfolding phase_or stopped_text
  scan_error i e none w = e.message
  scan_error i e (some over) w = stopped_text (phase_or (at i (bay w).jobs)) over.message

  abbrev pub Explanations : Type 0
  Explanations = List (Text × Result Doc)

  -- A reply has the code put in; an error stays as it is.
  abbrev pub with_code : Text → Result Doc → Option (Result Doc)
  with_code code (fails e) = some (fails e)
  with_code code (gives doc) = Option.map (λ d. gives d) (H.with_text (codes "code") code doc)

  -- After a panic the other codes are not asked for.
  abbrev pub coded :
      Text → Option (Result Doc) → W → Option Explanations × W → Option Explanations × W
  coded code none w rest = (none, w)
  coded code (some r) w (rest, w2) = (Option.map (λ xs. (code, r) ∷ xs) rest, w2)

  unfoldable pub explain_all : Text → List (Dtc F) → W → Option Explanations × W
  unfolding explain note_world
  explain_all vin [] w = (some [], w)
  explain_all vin (d ∷ ds) w =
      let (r, w1) = explain H d.code vin false (note_world (codes "Explaining " ++ d.code) w) in
      coded d.code (with_code d.code r) w1 (explain_all vin ds w1)

  -- The report of an upload with its explanations.
  unfoldable pub report_upload : ℕ → ScanResult F → Doc → Option Explanations × W → Option W
  unfolding note_world finish_world
  report_upload i result doc (none, w) = none
  report_upload i result doc (some exps, w) = some (
      finish_world i (gives (record { scan = result; upload = gives doc; explanations = exps }))
        (note_world (codes "Done") w))

  -- Once the upload has ended.
  pub finish_upload : ℕ → ScanResult F → Result Doc → W → Option W
  unfolding note_world finish_world explain_all report_upload
  finish_upload i result (fails e) w = some (
      finish_world i (gives (record { scan = result; upload = fails e; explanations = [] }))
        (note_world (codes "Upload failed: " ++ e) w))
  finish_upload i result (gives doc) w =
      report_upload i result doc (explain_all result.vehicle.vin result.dtcs w)

  pub upload_and_explain : ℕ → ScanResult F → W → Option W
  unfolding upload_scan finish_upload
  upload_and_explain i result w =
      let (r, w1) = upload_scan H result (note_world (codes "Uploading scan to MechMind") w) in
      finish_upload i result r w1

  -- What `runScan` does with a result.
  unfoldable pub use_result : ℕ → Bool → ScanResult F → W → Option W
  unfolding give_up no_vin_text upload_and_explain text_eq has_prefix
  use_result i mock result w =
      let vin = result.vehicle.vin in
      if text_eq vin []
      then some (give_up i no_vin_text w)
      else if has_prefix vin (codes "MOCK") && not mock
      then some (finish_world i (fails (codes "refusing mock VIN on a live adapter")) w)
      else upload_and_explain i result w

  -- `Scan` returns a result or an error; with neither, the code would read a nil result.
  unfoldable pub after_scan :
      ℕ → Bool → Option Err → Option (ScanResult F) × Option Err → W → Option W
  unfolding scan_error give_up use_result
  after_scan i mock over (r, some e) w = some (give_up i (scan_error i e over w) w)
  after_scan i mock over (some result, none) w = use_result i mock result w
  after_scan i mock over (none, none) w = none

module _ (R : Floats) (A : Adapter R.F) (H : Host R.F A.State) where
  -- `runScan` of the job i.
  unfoldable pub run_scan : ℕ → Bool → A.State → Option A.State
  unfolding scan after_scan
  run_scan i mock w = let (r, w1) = scan R A w in after_scan H i mock (A.ctx_err w1) r w1
