-- ===== src/Obd/Codes.antt =====
-- Trouble codes (pkg/obd/codes.go): hex payloads of modes 03, 07 and 0A, and code descriptions.
pub mod Hex
pub mod Frame
pub mod RoundTrip
pub mod Describe
use Prim.Native.Nat.{bit_and}
use mechmind.Base.{
  ℕ, zero, suc, ◌+◌, ◌-◌, ◌*◌, ◌/◌, ◌%◌, ◌^◌, Bool, ◌&&◌, ◌||◌, Option, none, some, List, [], ◌∷◌,
  ltb, leb, ◌==◌, if◌then◌else◌, length, keep,
}
use mechmind.Text.{Text, codes, text_eq, is_digit, to_upper, trim_space, has_prefix}

-- `unhex`; -1 is `none`.
unfoldable pub unhex : ℕ → Option ℕ
unhex c =
    if leb b'0' c && leb c b'9'
    then some (c - b'0')
    else if leb b'A' c && leb c b'F'
    then some (c - b'A' + 10)
    else if leb b'a' c && leb c b'f'
    then some (c - b'a' + 10)
    else none

-- `byte(hi<<4|lo)`: both are below 16, so the bits do not overlap.
push_byte : Option ℕ → Option ℕ → Text → Text
push_byte (some hi) (some lo) out = ((hi * 16 + lo) % 256) ∷ out
push_byte (some hi) none out = out
push_byte none lo out = out

-- `hexStringToBytes`: a last odd digit is dropped, and a pair that is not hex is skipped.
unfoldable pub hex_string_to_bytes : Text → Text
unfolding unhex push_byte
hex_string_to_bytes [] = []
hex_string_to_bytes (c ∷ []) = []
hex_string_to_bytes (c ∷ d ∷ s) = push_byte (unhex c) (unhex d) (hex_string_to_bytes s)

unfoldable pub hex_digit : ℕ → ℕ
hex_digit v = if ltb v 10 then b'0' + v else b'A' + (v - 10)

-- `[]byte{'P', 'C', 'B', 'U'}[i]`, for `i` below 4.
prefix_of : ℕ → ℕ
prefix_of zero = b'P'
prefix_of (suc zero) = b'C'
prefix_of (suc (suc zero)) = b'B'
prefix_of (suc (suc (suc i))) = b'U'

-- The shifts and masks of bytes, as quotients and remainders.
unfoldable pub encode_dtc : ℕ → ℕ → Text
unfolding prefix_of hex_digit
encode_dtc a b =
    prefix_of (a / 2 ^ 6 % 4)
    ∷ (b'0' + a / 2 ^ 4 % 4)
    ∷ hex_digit (a % 16)
    ∷ hex_digit (b / 2 ^ 4 % 16)
    ∷ hex_digit (b % 16)
    ∷ []

abbrev pub is_upper_hex : ℕ → Bool
is_upper_hex c = (leb b'0' c && leb c b'9') || (leb b'A' c && leb c b'F')

-- The loop over byte pairs: a pair of zeros is padding.
unfoldable pub decode_pairs : Text → List Text
unfolding encode_dtc
decode_pairs [] = []
decode_pairs (a ∷ []) = []
decode_pairs (a ∷ b ∷ raw) =
    let rest = decode_pairs raw in if a == 0 && b == 0 then rest else encode_dtc a b ∷ rest

abbrev is_service : ℕ → Bool
is_service a = a == 0x43 || a == 0x47 || a == 0x4A

-- Drops the service response byte.
unfoldable pub decode_raw : Text → List Text
unfolding decode_pairs
decode_raw [] = []
decode_raw (a ∷ raw) = if is_service a then decode_pairs raw else decode_pairs (a ∷ raw)

unfoldable pub decode_dtcs : Text → List Text
unfolding decode_raw hex_string_to_bytes to_upper
decode_dtcs payload =
    let hex = keep is_upper_hex (to_upper payload) in
    if ltb (length hex) 6 then [] else decode_raw (hex_string_to_bytes hex)

-- `codeDescriptions`.
pub code_descriptions : List (Text × Text)
code_descriptions =
    (codes "P0300", codes "Random/Multiple Cylinder Misfire Detected")
    ∷ (codes "P0301", codes "Cylinder 1 Misfire Detected")
    ∷ (codes "P0302", codes "Cylinder 2 Misfire Detected")
    ∷ (codes "P0303", codes "Cylinder 3 Misfire Detected")
    ∷ (codes "P0304", codes "Cylinder 4 Misfire Detected")
    ∷ (codes "P0171", codes "System Too Lean (Bank 1)")
    ∷ (codes "P0172", codes "System Too Rich (Bank 1)")
    ∷ (codes "P0420", codes "Catalyst System Efficiency Below Threshold (Bank 1)")
    ∷ (codes "P0430", codes "Catalyst System Efficiency Below Threshold (Bank 2)")
    ∷ (codes "P0455", codes "Evaporative Emission System Leak Detected (large leak)")
    ∷ (codes "P0500", codes "Vehicle Speed Sensor Malfunction")
    ∷ (
      codes "P0128",
      codes "Coolant Thermostat (Coolant Temp Below Thermostat Regulating Temperature)",
    )
    ∷ (codes "P0401", codes "Exhaust Gas Recirculation Flow Insufficient Detected")
    ∷ (codes "P0442", codes "Evaporative Emission System Leak Detected (small leak)")
    ∷ (codes "P0700", codes "Transmission Control System Malfunction")
    ∷ (codes "C0035", codes "Left Front Wheel Speed Sensor Circuit")
    ∷ (codes "B0001", codes "Driver Frontal Stage 1 Deployment Control")
    ∷ (codes "U0100", codes "Lost Communication With ECM/PCM")
    ∷ []

-- A key's value in a map, which holds each key once.
unfoldable pub find_text {ℓ} : {V : Type ℓ} → Text → List (Text × V) → Option V
unfolding text_eq
find_text k [] = none
find_text k ((j, v) ∷ m) = if text_eq j k then some v else find_text k m

-- The `switch` of `DescribeCode`.
describe_family : Text → Text
unfolding has_prefix
describe_family code =
    if has_prefix code (codes "P0") || has_prefix code (codes "P2")
    then codes "Powertrain diagnostic trouble code"
    else if has_prefix code (codes "C")
    then codes "Chassis diagnostic trouble code"
    else if has_prefix code (codes "B")
    then codes "Body diagnostic trouble code"
    else if has_prefix code (codes "U")
    then codes "Network/communication diagnostic trouble code"
    else codes "Diagnostic trouble code"

describe_known : Option Text → Text → Text
describe_known (some d) code = d
describe_known none code = describe_family code

unfoldable pub describe_code : Text → Text
unfolding to_upper trim_space code_descriptions find_text describe_known describe_family
describe_code code =
    let code = to_upper (trim_space code) in describe_known (find_text code code_descriptions) code
