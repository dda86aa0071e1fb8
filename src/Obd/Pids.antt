-- ===== src/Obd/Pids.antt =====
-- The decoders of live data (pkg/obd/pids.go). `R` holds the operations of float64.
pub mod Frame
use mechmind.Base.Int.{pos}
use mechmind.Base.{
  drop, keep, ℕ, ◌+◌, ◌*◌, Bool, ◌&&◌, ◌||◌, Option, none, some, [], ◌∷◌, ltb, leb, ◌==◌,
  if◌then◌else◌, length,
}
use mechmind.Base.Float.{Floats}
use mechmind.Text.{Text}
use mechmind.Obd.Codes.{hex_string_to_bytes}

abbrev pub is_hex : ℕ → Bool
is_hex c = (leb b'0' c && leb c b'9') || (leb b'A' c && leb c b'F') || (leb b'a' c && leb c b'f')

-- The search for 41, the service byte, with a PID and at least one byte behind it; what is behind
-- the PID is the data.
unfoldable pub payload_after : Text → Option Text
payload_after (a ∷ b ∷ c ∷ s) =
    let rest = payload_after (b ∷ c ∷ s) in if a == 0x41 then some (c ∷ s) else rest
payload_after (a ∷ b ∷ []) = none
payload_after (a ∷ []) = none
payload_after [] = none

payload_or : Option Text → Text → Text
payload_or (some d) raw = d
payload_or none raw = if leb 3 (length raw) then drop 2 raw else raw

unfoldable pub decode_payload : Text → Text
unfolding hex_string_to_bytes payload_after payload_or
decode_payload resp =
    let hex = keep is_hex resp in
    let raw = hex_string_to_bytes hex in
    if ltb (length hex) 6 then [] else payload_or (payload_after raw) raw

module _ {ℓ} {A : Type ℓ} where
  -- The first byte of the data.
  unfoldable pub on_byte : (ℕ → A) → Text → Option A
  on_byte f [] = none
  on_byte f (a ∷ s) = some (f a)

  -- The first two bytes of the data, the higher one first.
  unfoldable pub on_word : (ℕ → A) → Text → Option A
  on_word f (a ∷ b ∷ s) = some (f (a * 256 + b))
  on_word f (a ∷ []) = none
  on_word f [] = none

module _ (R : Floats) where
  open R use {F, dec, of_int, sub, mul, div}

  abbrev of_nat : ℕ → F
  of_nat n = of_int (pos n)

  unfoldable pub decode_rpm : Text → Option F
  unfolding on_word decode_payload
  decode_rpm resp = on_word (λ n. div (of_nat n) (dec 4 0)) (decode_payload resp)

  unfoldable pub decode_byte : Text → F → Option F
  unfolding on_byte decode_payload
  decode_byte resp scale = on_byte (λ a. mul (of_nat a) scale) (decode_payload resp)

  unfoldable pub decode_pct : Text → Option F
  unfolding on_byte decode_payload
  decode_pct resp =
      on_byte (λ a. div (mul (of_nat a) (dec 100 0)) (dec 255 0)) (decode_payload resp)

  unfoldable pub decode_temp : Text → Option F
  unfolding on_byte decode_payload
  decode_temp resp = on_byte (λ a. sub (of_nat a) (dec 40 0)) (decode_payload resp)

  unfoldable pub decode_maf : Text → Option F
  unfolding on_word decode_payload
  decode_maf resp = on_word (λ n. div (of_nat n) (dec 100 0)) (decode_payload resp)

  unfoldable pub decode_trim : Text → Option F
  unfolding on_byte decode_payload
  decode_trim resp =
      on_byte (λ a. sub (div (of_nat a) (dec 128 2)) (dec 100 0)) (decode_payload resp)

  unfoldable pub decode_o2 : Text → Option F
  unfolding on_byte decode_payload
  decode_o2 resp = on_byte (λ a. div (of_nat a) (dec 200 0)) (decode_payload resp)

  unfoldable pub decode_voltage : Text → Option F
  unfolding on_word decode_payload
  decode_voltage resp = on_word (λ n. div (of_nat n) (dec 1000 0)) (decode_payload resp)
