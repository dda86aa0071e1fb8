-- ===== src/Obd/Mock/Calm.antt =====
-- An uncancelled pass over the simulated adapter succeeds (pkg/obd/mock.go with pkg/obd/types.go).
use mechmind.Obd.Usb.Err.{Err}
use mechmind.Obd.Types.{VehicleInfo, Dtc, ScanResult}
use mechmind.Base.{ℕ, ◌≡◌, refl, ap, true, Option, none, some, List, [], ◌∷◌, map}
use mechmind.Base.Float.{Floats}
use mechmind.Text.{codes, Text}
use mechmind.Obd.Usb.Line.{Line}
use mechmind.Obd.Mock.{
  mock_dtcs, mock_identify, after_sleep, mock_frame, mock_dtc, mock_answer, mock_open, Mock,
  mock_adapter,
}
use mechmind.Obd.Scan.{result_of, Tally, scan_opened, scan_codes, scan, collect_frames}
use mechmind.Obd.Scan.Counts.{codes_in, collect_frames-Collected}

-- The context of a line is never cancelled.
pub record IsCalm (L : Line) : Type 0 where
  pub going : (w : L.World) → L.ctx_err w ≡ none
  pub slept : (ms : ℕ) (w : L.World) → (L.sleep ms w).0 ≡ none

codes_in-mock_dtc : (F : Type 0) (cs : List Text) → codes_in (map (mock_dtc {F = F}) cs) ≡ cs
codes_in-mock_dtc F [] = refl
codes_in-mock_dtc F (c ∷ cs) = ap (λ ds. c ∷ ds) (codes_in-mock_dtc F cs)

module _ {L : Line} (calm : IsCalm L) where
  -- A reading of an open adapter gives its value and changes the world alone.
  answer_calm :
      {A : Type 0} (ms : ℕ) (nothing value : A) (m : Mock L)
      → m.opened ≡ true
      → mock_answer L ms nothing value m
        ≡ ((value, none), record m { world = (L.sleep ms m.world).1 })
  unfolding mock_answer after_sleep
  answer_calm ms nothing value m h = rw (h, calm.slept ms m.world) refl

  answer_opened :
      {A : Type 0} (ms : ℕ) (nothing value : A) (m : Mock L)
      → m.opened ≡ true
      → (mock_answer L ms nothing value m).1.opened ≡ true
  answer_opened ms nothing value m h = rw (answer_calm ms nothing value m h) h

  abbrev mock_info : Mock L → VehicleInfo
  mock_info m = record { vin = m.vin; ecu = codes "MOCK-ECM"; proto = codes "ISO 15765-4 (CAN)" }

  identify_calm :
      (m : Mock L)
      → m.opened ≡ true
      → mock_identify L m ≡ ((mock_info m, none), record m { world = (L.sleep 30 m.world).1 })
  unfolding mock_identify
  identify_calm m h = answer_calm 30 _ _ m h

  open_calm :
      (m : Mock L)
      → mock_open L m ≡ (none, record m { world = (L.sleep 20 m.world).1; opened = true })
  unfolding mock_open after_sleep
  open_calm m = rw (calm.slept 20 m.world) refl

  module _ (R : Floats) where
    frame_opened :
        (code : Text) (m : Mock L) → m.opened ≡ true → (mock_frame L R code m).1.opened ≡ true
    unfolding mock_frame
    frame_opened code m h = answer_opened _ _ _ m h

    collect_calm :
        (ds : List (Dtc R.F)) (t : Tally R.F) (m : Mock L)
        → m.opened ≡ true
        → (collect_frames R (mock_adapter L R) ds t m).0.1 ≡ none
    unfolding collect_frames
    collect_calm [] t m h = refl
    collect_calm (d ∷ ds) t m h =
        rw (calm.going m.world) (collect_calm ds _ _ (frame_opened d.code _ h))

    -- A pass that ended well, with these codes.
    abbrev pub Succeeds : List Text → Option (ScanResult R.F) × Option Err → Type 0
    Succeeds cs r = (res : ScanResult R.F) × (r ≡ (some res, none)) × (codes_in res.dtcs ≡ cs)

    scan_codes_calm :
        (info : VehicleInfo) (ds : List (Dtc R.F)) (m : Mock L)
        → m.opened ≡ true
        → Succeeds (codes_in ds) (scan_codes R (mock_adapter L R) info ds m).0
    unfolding scan_codes result_of
    scan_codes_calm info ds m h =
        rw (collect_calm ds _ m h)
          (_, refl, (collect_frames-Collected R (mock_adapter L R) ds _ m).0)

    dtcs_calm :
        (m : Mock L)
        → m.opened ≡ true
        → mock_dtcs L R m
          ≡ ((some (map mock_dtc m.codes), none), record m { world = (L.sleep 40 m.world).1 })
    unfolding mock_dtcs
    dtcs_calm m h = answer_calm 40 _ _ m h

    scan_opened_calm :
        (m : Mock L)
        → m.opened ≡ true
        → Succeeds
            (codes_in (map (mock_dtc {F = R.F}) m.codes))
            (scan_opened R (mock_adapter L R) m).0
    unfolding scan_opened
    scan_opened_calm m h =
        let asked : Mock L = record m {
          world = L.report (codes "Reading VIN and protocol") m.world;
        } in
        let told : Mock L = record m {
          world = L.report (codes "Reading trouble codes") (L.sleep 30 asked.world).1;
        } in
        rw (identify_calm asked h, dtcs_calm told h)
          (scan_codes_calm (mock_info m) (map mock_dtc m.codes) _ h)

    Succeeds-as :
        {cs cs' : List Text} {r : Option (ScanResult R.F) × Option Err}
        → cs ≡ cs'
        → Succeeds cs r
        → Succeeds cs' r
    Succeeds-as e (res, q, k) = (res, q, rw k e)

    -- A pass over a simulated adapter that is never cancelled succeeds, and its result lists the
    -- simulated codes in their order.
    pub scan-Succeeds : (m : Mock L) → Succeeds m.codes (scan R (mock_adapter L R) m).0
    unfolding scan
    scan-Succeeds m =
        let before : Mock L = record m { world = L.report (codes "Opening adapter") m.world } in
        let after : Mock L = record m { world = (L.sleep 20 before.world).1; opened = true } in
        rw (open_calm before)
          (Succeeds-as (codes_in-mock_dtc R.F m.codes) (scan_opened_calm after refl))
