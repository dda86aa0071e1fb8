-- ===== src/Obd/Scan.antt =====
-- A diagnostic pass over any adapter (pkg/obd/types.go: Adapter, Scanner, Scan, linkConfidence;
-- pkg/obd/snapshot.go: LiveSampler).
pub mod Confidence
use mechmind.Obd.Codes.{describe_code}
use mechmind.Base.Int.{sub_ℕ, pos}
pub mod Counts
pub mod Report
pub mod Release
use mechmind.Base.{ℕ, ◌+◌, Option, none, some, List, [], ◌∷◌, ◌++◌, leb, ◌==◌, if◌then◌else◌}
use mechmind.Base.Float.{Floats}
use mechmind.Text.{text_eq, codes, Text}
use mechmind.Obd.Types.{
  LinkType, Dtc, ScanResult, LinkMetrics, Observations, LiveSnapshot, FreezeFrame, VehicleInfo,
}
use mechmind.Obd.Usb.Err.{Err}

-- What `Scan` needs of an adapter, with the context and the progress callback. Each call takes the
-- adapter's state to a new one. `read_live` is `none` where the adapter is no LiveSampler.
pub record Adapter (F : Type 0) : Type 1 where
  pub State : Type 0
  pub name : Text
  pub link_type : LinkType
  pub open_up : State → Option Err × State
  pub close : State → State
  pub identify : State → (VehicleInfo × Option Err) × State
  pub read_dtcs : State → (Option (List (Dtc F)) × Option Err) × State
  pub read_freeze_frame : Text → State → (Option (FreezeFrame F) × Option Err) × State
  pub read_live : Option (State → (Option (LiveSnapshot F) × Option Err) × State)
  pub ctx_err : State → Option Err
  pub report : Text → State → State

-- `linkConfidence`.
module _ (R : Floats) where
  open R use {F, dec, of_int, sub, mul, div, lt}

  clamp : F → F
  clamp c =
      let c = if lt c (dec 0 0) then dec 0 0 else c in if lt (dec 100 0) c then dec 100 0 else c

  unfoldable pub link_confidence : LinkMetrics F → F
  unfolding clamp
  link_confidence m =
      let attempts = of_int (pos m.command_attempts) in
      let answered = of_int (sub_ℕ m.command_attempts m.command_failures) in
      let c = mul (div answered attempts) (dec 100 0) in
      let late = mul (of_int (pos m.timeouts)) (dec 8 0) in
      if m.command_attempts == 0
      then dec 0 0
      else clamp (if leb 1 m.timeouts then sub c late else c)

-- The counters of LinkMetrics, its notes and the map of freeze frames, as the pass fills them.
pub record Tally (F : Type 0) : Type 0 where
  pub attempts : ℕ
  pub failures : ℕ
  pub notes : List Text
  pub frames : List (Text × FreezeFrame F)

-- `m[k] = v`.
pub put_frame :
    {F : Type 0} → Text → FreezeFrame F → List (Text × FreezeFrame F) → List (Text × FreezeFrame F)
unfolding text_eq
put_frame k f [] = (k, f) ∷ []
put_frame k f ((j, g) ∷ m) = if text_eq j k then (k, f) ∷ m else (j, g) ∷ put_frame k f m

-- Which of two ways a method goes, by an error.
abbrev pub by_error : {A : Type 0} → Option Err → (Err → A) → A → A
by_error none f k = k
by_error (some e) f k = f e

module _ {F : Type 0} where
  -- What one freeze frame, or its error, does to the counters and the map.
  unfoldable pub note_frame : Text → Option (FreezeFrame F) × Option Err → Tally F → Tally F
  unfolding put_frame
  note_frame code (f, some e) t = record t { attempts = t.attempts + 1; failures = t.failures + 1 }
  note_frame code (none, none) t = record t { attempts = t.attempts + 1 }
  note_frame code (some f, none) t = record t {
    attempts = t.attempts + 1;
    frames = put_frame code f t.frames;
  }

  with_frame : Option (FreezeFrame F) × Option Err → Dtc F → Dtc F
  with_frame (f, some e) d = d
  with_frame (none, none) d = d
  with_frame (some f, none) d = record d { freeze_frame = some f }

  with_description : Dtc F → Dtc F
  unfolding text_eq describe_code
  with_description d =
      if text_eq d.description [] then record d { description = describe_code d.code } else d

  unfoldable pub fill_dtc : Option (FreezeFrame F) × Option Err → Dtc F → Dtc F
  unfolding with_frame with_description
  fill_dtc r d = with_description (with_frame r d)

  -- A nil slice holds nothing.
  abbrev pub codes_or_nil : Option (List (Dtc F)) → List (Dtc F)
  codes_or_nil none = []
  codes_or_nil (some ds) = ds

module _ (R : Floats) (A : Adapter R.F) where
  open A use {State, ctx_err, report}
  open R use {F}

  -- The result of the pass, or its error.
  abbrev pub Outcome : Type 0
  Outcome = Option (ScanResult F) × Option Err

  -- The loop over the codes: the codes, the error that ended it, and the counters.
  unfoldable pub collect_frames :
      List (Dtc F) → Tally F → State → (List (Dtc F) × Option Err × Tally F) × State
  unfolding fill_dtc note_frame
  collect_frames [] t s = (([], none, t), s)
  collect_frames (d ∷ ds) t s =
      let (r, s1) = A.read_freeze_frame d.code (report (codes "Freeze frame for " ++ d.code) s) in
      let ((rest, err, t1), s2) = collect_frames ds (note_frame d.code r t) s1 in
      by_error (ctx_err s) (λ e. ((d ∷ ds, some e, t), s)) ((fill_dtc r d ∷ rest, err, t1), s2)

  -- What the live sample, or its error, does to the counters and the notes.
  unfoldable pub note_live :
      Option (LiveSnapshot F) × Option Err → Tally F → Option (LiveSnapshot F) × Tally F
  note_live (live, none) t = (live, record t { attempts = t.attempts + 1 })
  note_live (live, some e) t = (
    none,
    record t {
      attempts = t.attempts + 1;
      failures = t.failures + 1;
      notes = t.notes ++ codes "live_snapshot_partial" ∷ [];
    },
  )

  unfoldable pub sample_live :
      Option (State → (Option (LiveSnapshot F) × Option Err) × State)
      → Tally F
      → State
      → (Option (LiveSnapshot F) × Tally F) × State
  unfolding note_live
  sample_live none t s = ((none, t), s)
  sample_live (some read) t s =
      let (r, s1) = read (report (codes "Sampling live sensors") s) in (note_live r t, s1)

  metrics_of : VehicleInfo → Tally F → LinkMetrics F
  metrics_of info t = record {
    command_attempts = t.attempts;
    command_failures = t.failures;
    timeouts = 0;
    protocol = info.proto;
    confidence = R.dec 0 0;
    notes = t.notes;
  }

  -- The value at the end of `Scan`.
  unfoldable pub result_of :
      VehicleInfo → List (Dtc F) → Option (LiveSnapshot F) → Tally F → ScanResult F
  unfolding metrics_of link_confidence
  result_of info ds live t = record {
    link_type = A.link_type;
    adapter_name = A.name;
    protocol = info.proto;
    vehicle = info;
    dtcs = ds;
    observations = some (record {
      live = live;
      freeze_frames = some t.frames;
      link =
          some (record (metrics_of info t) { confidence = link_confidence R (metrics_of info t) });
      readiness = [];
    });
  }

  abbrev fail : Err → Outcome
  fail e = (none, some e)

  -- From the codes on.
  unfoldable pub scan_codes : VehicleInfo → List (Dtc F) → State → Outcome × State
  unfolding collect_frames sample_live result_of
  scan_codes info ds s =
      let start : Tally F = record { attempts = 2; failures = 0; notes = []; frames = [] } in
      let ((filled, err, t), s1) = collect_frames ds start s in
      let ((live, t2), s2) = sample_live A.read_live t s1 in
      by_error err (λ e. (fail e, s1)) ((some (result_of info filled live t2), none), s2)

  -- With the adapter open, up to the deferred `Close`.
  unfoldable pub scan_opened : State → Outcome × State
  unfolding scan_codes
  scan_opened s =
      let ((info, e), s1) = A.identify (report (codes "Reading VIN and protocol") s) in
      let ((ds, e2), s2) = A.read_dtcs (report (codes "Reading trouble codes") s1) in
      by_error e (λ e. (fail e, s1))
        (by_error e2 (λ e. (fail e, s2)) (scan_codes info (codes_or_nil ds) s2))

  unfoldable pub scan : State → Outcome × State
  unfolding scan_opened
  scan s =
      let (e, s1) = A.open_up (report (codes "Opening adapter") s) in
      let (r, s2) = scan_opened s1 in by_error e (λ e. (fail e, s1)) (r, A.close s2)
