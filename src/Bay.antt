-- ===== src/Bay.antt =====
-- The bay's local server (cmd/bayui/server.go): its data. A pointer to a scan job is a position in
-- the list of the jobs made so far.
pub mod Heap
pub mod Jobs
pub mod Machine
pub mod Client
pub mod Run
pub mod Handlers
use mechmind.Base.{ℕ, Bool, Option, List}
use mechmind.Text.{Text}
use mechmind.Http.{Result}
use mechmind.Obd.Types.{ScanResult}

-- The map that a run leaves: `upload` or `upload_error`, and a reply or an error for each code.
pub record Report (F D : Type 0) : Type 0 where
  pub scan : ScanResult F
  pub upload : Result D
  pub explanations : List (Text × Result D)

-- Times are nanoseconds; `cancelled` is what `cancel` sets.
pub record ScanJob (F D : Type 0) : Type 0 where
  pub busy : Bool
  pub done : Bool
  pub phase : Text
  pub log : List Text
  pub started : ℕ
  pub timeout : ℕ
  pub err : Text
  pub result : Option (Report F D)
  pub cancelled : Bool

pub record BayServer (F D : Type 0) : Type 0 where
  pub api_url : Text
  pub token : Text
  pub job : Option ℕ
  pub jobs : List (ScanJob F D)
