-- ===== src/Tests/Readings.antt =====
-- Runs of the decoder of live data (pkg/obd/pids.go) and of the driver's readings.
use mechmind.Obd.Codes.{hex_digit}
use mechmind.Obd.Pids.Frame.{decode_payload-frame}
use mechmind.Obd.Pids.{decode_payload}
use mechmind.Obd.Usb.Readings.{read_dtcs}
use mechmind.Obd.Usb.Open.{ensure_open}
use mechmind.Obd.Codes.Hex.{hex_of_byte, to_hex}
use mechmind.Obd.Usb.Readings.Once.{read_dtcs-IsDtcReading, IsDtcReading}
use mechmind.Base.{◌≡◌, refl, [], ◌∷◌, arith}
use mechmind.Tests.Driver.{fresh, same, lively}
use mechmind.Text.{codes}

decode_payload-frame_example : decode_payload (codes "41 05 7b") ≡ 123 ∷ []
unfolding to_hex hex_of_byte hex_digit decode_payload
decode_payload-frame_example =
    decode_payload-frame (codes "41 05 7B") 5 123 [] (omega arith) (omega arith) tt refl

read_dtcs-IsDtcReading_example :
    IsDtcReading same
      (Unit {0})
      (ensure_open lively same fresh)
      (read_dtcs lively same (Unit {0}) fresh)
read_dtcs-IsDtcReading_example = read_dtcs-IsDtcReading same (Unit {0}) fresh
