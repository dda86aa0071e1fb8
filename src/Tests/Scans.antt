-- ===== src/Tests/Scans.antt =====
-- Runs of whole passes (pkg/obd/types.go) over the simulated adapter and over the driver.
use mechmind.Obd.Usb.Adapter.{scan-IsShut, usb_adapter}
use mechmind.Base.Int.{pos, ℤ}
use mechmind.Obd.Scan.Report.{scan-IsMeasured, IsRead, IsMeasured}
use mechmind.Obd.Mock.Laws.{IsClosed}
use mechmind.Obd.Scan.{link_confidence, scan}
use mechmind.Obd.Usb.Init.Ready.{IsShut}
use mechmind.Obd.Mock.{mock_adapter, Mock, new_mock_adapter}
use mechmind.Obd.Scan.Confidence.{link_confidence-IsPercent, IsPercent}
use mechmind.Obd.Types.{LinkMetrics, ScanResult}
use mechmind.Obd.Mock.Calm.{scan-Succeeds, IsCalm}
use mechmind.Base.{◌≡◌, refl, ap, some, [], ◌∷◌}
use mechmind.Text.{codes}
use mechmind.Tests.Numbers.{whole}
use mechmind.Tests.Driver.{fresh-IsShut, lively, same, fresh}

abbrev mocked : Mock lively
mocked = new_mock_adapter lively [] (codes "P0420" ∷ []) 0

mocked-IsClosed : IsClosed mocked
unfolding new_mock_adapter
mocked-IsClosed = refl

lively-IsCalm : IsCalm lively
lively-IsCalm = record { going = λ w. refl; slept = λ ms w. refl }

-- Two of seven attempts failed, and one timed out.
abbrev shaky : LinkMetrics ℤ
shaky = record {
  command_attempts = 7;
  command_failures = 2;
  timeouts = 1;
  protocol = [];
  confidence = pos 0;
  notes = [];
}

link_confidence-IsPercent_example : IsPercent whole (link_confidence whole shaky)
link_confidence-IsPercent_example = link_confidence-IsPercent whole shaky

scan-IsShut_example : IsShut (scan whole (usb_adapter lively same whole) fresh).1
scan-IsShut_example = scan-IsShut same whole fresh fresh-IsShut

abbrev mock_result : ScanResult ℤ
mock_result = (scan-Succeeds lively-IsCalm whole mocked).0

mock_result-scan : (scan whole (mock_adapter lively whole) mocked).0.0 ≡ some mock_result
mock_result-scan = ap (λ r. r.0) (scan-Succeeds lively-IsCalm whole mocked).1

scan-IsMeasured_example :
    IsMeasured whole (mock_adapter lively whole) mock_result
    × IsRead whole (mock_adapter lively whole) mock_result
scan-IsMeasured_example =
    scan-IsMeasured whole (mock_adapter lively whole) mocked mock_result mock_result-scan
