-- ===== src/Obd/Types.antt =====
-- The data of a scan (pkg/obd/types.go and snapshot.go). `F` is the type of floats. A pointer or a
-- map that may be nil is an `Option`; a map is a list of its entries. Times are left out.
use mechmind.Base.{ℕ, Option, List}
use mechmind.Base.Int.{ℤ}
use mechmind.Text.{Text}

pub data LinkType : Type 0 where
  usb bluetooth mock : LinkType

pub data DtcStatus : Type 0 where
  pending confirmed permanent : DtcStatus
  -- Any other text, the empty one too, as a client may send it.
  spelled : Text → DtcStatus

-- What a freeze frame's `any` values hold.
pub data Value (F : Type 0) : Type 0 where
  float64 : F → Value F
  float32 : F → Value F
  int : ℤ → Value F
  int64 : ℤ → Value F
  text : Text → Value F
  other : Value F

abbrev pub FreezeFrame : Type 0 → Type 0
FreezeFrame F = List (Text × Value F)

pub record Dtc (F : Type 0) : Type 0 where
  pub code : Text
  pub status : DtcStatus
  pub freeze_frame : Option (FreezeFrame F)
  pub description : Text

pub record VehicleInfo : Type 0 where
  pub vin : Text
  pub ecu : Text
  pub proto : Text

pub record LiveSnapshot (F : Type 0) : Type 0 where
  pub rpm : Option F
  pub speed_kmh : Option F
  pub load_pct : Option F
  pub coolant_c : Option F
  pub iat_c : Option F
  pub maf_gs : Option F
  pub map_kpa : Option F
  pub tps_pct : Option F
  pub stft_b1_pct : Option F
  pub ltft_b1_pct : Option F
  pub stft_b2_pct : Option F
  pub ltft_b2_pct : Option F
  pub o2_b1s1_v : Option F
  pub o2_b1s2_v : Option F
  pub module_volts : Option F
  pub fuel_sys_status : Text

pub record LinkMetrics (F : Type 0) : Type 0 where
  pub command_attempts : ℕ
  pub command_failures : ℕ
  pub timeouts : ℕ
  pub protocol : Text
  pub confidence : F
  pub notes : List Text

pub record Observations (F : Type 0) : Type 0 where
  pub live : Option (LiveSnapshot F)
  pub freeze_frames : Option (List (Text × FreezeFrame F))
  pub link : Option (LinkMetrics F)
  pub readiness : List Text

pub record ScanResult (F : Type 0) : Type 0 where
  pub link_type : LinkType
  pub adapter_name : Text
  pub protocol : Text
  pub vehicle : VehicleInfo
  pub dtcs : List (Dtc F)
  pub observations : Option (Observations F)
