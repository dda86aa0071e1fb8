-- ===== src/Obd/Mock.antt =====
-- The simulated adapter (pkg/obd/mock.go). It shares the driver's surroundings: the clock and the
-- context of `Line`.
pub mod Laws
pub mod Calm
use mechmind.Obd.Usb.Readings.{no_info}
use mechmind.Obd.Codes.{describe_code}
use mechmind.Obd.Usb.Err.{plain, Err}
use mechmind.Base.{
  ℕ, ◌-◌, Bool, true, false, not, Option, none, some, List, [], ◌∷◌, map, if◌then◌else◌,
}
use mechmind.Base.Float.{Floats}
use mechmind.Text.{codes, text_eq, Text}
use mechmind.Obd.Types.{float64, text, confirmed, mock, LiveSnapshot, Dtc, VehicleInfo, FreezeFrame}
use mechmind.Obd.Usb.Line.{Line}
use mechmind.Obd.Scan.{Adapter, by_error}

pub record Mock (L : Line) : Type 0 where
  pub vin : Text
  pub codes : List Text
  pub opened : Bool
  pub world : L.World

pub mock_not_open : Err
mock_not_open = plain (codes "mock adapter is not open")

abbrev codes_or_default : List Text → List Text
codes_or_default [] = codes "P0300" ∷ codes "P0171" ∷ []
codes_or_default (c ∷ cs) = c ∷ cs

unfoldable pub new_mock_adapter : (L : Line) → Text → List Text → L.World → Mock L
unfolding text_eq
new_mock_adapter L vin cs w = record {
  vin = if text_eq vin [] then codes "MOCKTESTVIN000001" else vin;
  codes = codes_or_default cs;
  opened = false;
  world = w;
}

abbrev pub mock_dtc : {F : Type 0} → Text → Dtc F
mock_dtc c = record {
  code = c;
  status = confirmed;
  freeze_frame = none;
  description = describe_code c;
}

module _ (L : Line) where
  -- A `select` of the context and a timer: what the mock does after it, or the context's error.
  unfoldable pub after_sleep : {A : Type 0} → ℕ → Mock L → (Err → Mock L → A) → (Mock L → A) → A
  after_sleep ms m failed k =
      let (e, w) = L.sleep ms m.world in
      by_error e (λ x. failed x (record m { world = w })) (k (record m { world = w }))

  unfoldable pub mock_open : Mock L → Option Err × Mock L
  unfolding after_sleep
  mock_open m = after_sleep 20 m (λ x m. (some x, m)) (λ m. (none, record m { opened = true }))

  unfoldable pub mock_close : Mock L → Mock L
  mock_close m = record m { opened = false }

  -- `requireOpen`, a `select` and a value, which is how every reading goes; `nothing` goes with an
  -- error.
  unfoldable pub mock_answer : {A : Type 0} → ℕ → A → A → Mock L → (A × Option Err) × Mock L
  unfolding after_sleep
  mock_answer ms nothing value m =
      if m.opened
      then after_sleep ms m (λ x m. ((nothing, some x), m)) (λ m. ((value, none), m))
      else ((nothing, some mock_not_open), m)

  unfoldable pub mock_identify : Mock L → (VehicleInfo × Option Err) × Mock L
  unfolding mock_answer
  mock_identify m =
      mock_answer 30 no_info
        (record { vin = m.vin; ecu = codes "MOCK-ECM"; proto = codes "ISO 15765-4 (CAN)" }) m

  module _ (R : Floats) where
    open R use {F, dec}

    unfoldable pub mock_dtcs : Mock L → (Option (List (Dtc F)) × Option Err) × Mock L
    unfolding mock_answer
    mock_dtcs m = mock_answer 40 none (some (map mock_dtc m.codes)) m

    unfoldable pub mock_frame : Text → Mock L → (Option (FreezeFrame F) × Option Err) × Mock L
    unfolding mock_answer
    mock_frame code m =
        mock_answer 20 none
          (some (
            (codes "code", text code)
            ∷ (codes "rpm", float64 (dec 2100 0))
            ∷ (codes "load_pct", float64 (dec 45 0))
            ∷ (codes "coolant_c", float64 (dec 91 0))
            ∷ (codes "stft_b1_pct", float64 (dec 14 0))
            ∷ (codes "ltft_b1_pct", float64 (dec 18 0))
            ∷ (codes "speed_kmh", float64 (dec 48 0))
            ∷ (codes "fuel_sys", text (codes "closed_loop"))
            ∷ []))
          m

    -- An idle sample with lean fuel trims.
    abbrev pub mock_snapshot : LiveSnapshot F
    mock_snapshot = record {
      rpm = some (dec 820 0);
      speed_kmh = some (dec 0 0);
      load_pct = some (dec 28 0);
      coolant_c = some (dec 92 0);
      iat_c = some (dec 34 0);
      maf_gs = some (dec 21 1);
      map_kpa = some (dec 32 0);
      tps_pct = some (dec 12 0);
      stft_b1_pct = some (dec 185 1);
      ltft_b1_pct = some (dec 162 1);
      stft_b2_pct = none;
      ltft_b2_pct = none;
      o2_b1s1_v = some (dec 12 2);
      o2_b1s2_v = some (dec 55 2);
      module_volts = some (dec 139 1);
      fuel_sys_status = codes "closed_loop";
    }

    unfoldable pub mock_live : Mock L → (Option (LiveSnapshot F) × Option Err) × Mock L
    unfolding mock_answer
    mock_live m = mock_answer 25 none (some mock_snapshot) m

    abbrev pub mock_adapter : Adapter F
    mock_adapter = record {
      State = Mock L;
      name = codes "mock-elm327";
      link_type = mock;
      open_up = mock_open;
      close = mock_close;
      identify = mock_identify;
      read_dtcs = mock_dtcs;
      read_freeze_frame = mock_frame;
      read_live = some mock_live;
      ctx_err = λ m. L.ctx_err m.world;
      report = λ msg m. record m { world = L.report msg m.world };
    }
