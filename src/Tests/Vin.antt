-- ===== src/Tests/Vin.antt =====
-- Runs of extractVIN (pkg/obd/usb.go).
use mechmind.Obd.Vin.{extract_vin}
use mechmind.Base.{◌≡◌, refl, ◌≢◌, [], ◌++◌, arith}
use mechmind.Text.{to_upper, codes, Text}
use mechmind.Obd.Vin.Window.{candidates, extract_vin-header, Found, extract_vin-Found}

abbrev plain_answer : Text
plain_answer = codes "VIN 1HGCM82633A004352"

-- The answer that an ELM327 gives for the VIN 1G1JC5444R7252367, with spaces off.
abbrev hex_answer : Text
hex_answer = codes "49020131473" ++ codes "14A433534343452373235323336"

extract_vin-Found_example : Found (candidates plain_answer) (extract_vin plain_answer)
extract_vin-Found_example = extract_vin-Found plain_answer

plain_answer-ne_nil : extract_vin plain_answer ≢ []
unfolding extract_vin to_upper
plain_answer-ne_nil = cc

hex_answer-header : extract_vin hex_answer ≡ codes "49020131473" ++ codes "14A433"
unfolding to_upper
hex_answer-header =
    extract_vin-header hex_answer (codes "31473" ++ codes "14A433534343452373235323336") refl
      (omega arith)
