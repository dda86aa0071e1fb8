-- ===== src/Obd/Codes/Hex.antt =====
-- The hex layer of a payload: what is kept of it, and the digits of a byte.
use mechmind.Base.{
  none, Option, ℕ, ◌*◌, ◌/◌, ◌%◌, ◌<◌, ◌≡◌, refl, some, [], ◌∷◌, ◌++◌, arith, length, All,
}
use mechmind.Text.{Text}
use mechmind.Obd.Codes.{unhex, push_byte, hex_string_to_bytes, hex_digit}

abbrev pub IsByte : ℕ → Type 0
IsByte c = c < 256

unhex-hex_digit : (v : ℕ) → v < 16 → unhex (hex_digit v) ≡ some v
unfolding unhex hex_digit
unhex-hex_digit v h = ground arith

-- The two hex digits of a byte.
unfoldable pub hex_of_byte : ℕ → Text
hex_of_byte a = hex_digit (a / 16) ∷ hex_digit (a % 16) ∷ []

unfoldable pub to_hex : Text → Text
to_hex [] = []
to_hex (a ∷ raw) = hex_of_byte a ++ to_hex raw

push_byte-halves :
    (a : ℕ) (out : Text) → a < 256 → push_byte (some (a / 16)) (some (a % 16)) out ≡ a ∷ out
unfolding push_byte
push_byte-halves a out h = ground arith

hex_string_to_bytes-cons :
    (c d : ℕ) (s : Text)
    → hex_string_to_bytes (c ∷ d ∷ s) ≡ push_byte (unhex c) (unhex d) (hex_string_to_bytes s)
unfolding hex_string_to_bytes
hex_string_to_bytes-cons c d s = refl

-- Bytes written as hex are read back.
pub hex_string_to_bytes-to_hex :
    (raw : Text) → All IsByte raw → hex_string_to_bytes (to_hex raw) ≡ raw
unfolding to_hex hex_of_byte
hex_string_to_bytes-to_hex [] h = unfold hex_string_to_bytes in refl
hex_string_to_bytes-to_hex (a ∷ raw) (ha, h) = rw (
  hex_string_to_bytes-cons,
  unhex-hex_digit (a / 16) (omega arith),
  unhex-hex_digit (a % 16) (omega arith),
  hex_string_to_bytes-to_hex raw h,
  push_byte-halves a raw ha,
)

pub length-to_hex : (raw : Text) → length (to_hex raw) ≡ 2 * length raw
unfolding to_hex hex_of_byte
length-to_hex [] = refl
length-to_hex (a ∷ raw) = omega (arith, length-to_hex raw)

push_byte-IsByte :
    (hi lo : Option ℕ) (out : Text) → All IsByte out → All IsByte (push_byte hi lo out)
unfolding push_byte
push_byte-IsByte (some hi) (some lo) out h = (omega arith, h)
push_byte-IsByte (some hi) none out h = h
push_byte-IsByte none lo out h = h

pub hex_string_to_bytes-IsByte : (s : Text) → All IsByte (hex_string_to_bytes s)
unfolding hex_string_to_bytes
hex_string_to_bytes-IsByte [] = tt
hex_string_to_bytes-IsByte (c ∷ []) = tt
hex_string_to_bytes-IsByte (c ∷ d ∷ s) =
    push_byte-IsByte (unhex c) (unhex d) _ (hex_string_to_bytes-IsByte s)
