-- ===== src/Obd/Vin.antt =====
-- The VIN in an answer to mode 09 PID 02 (pkg/obd/usb.go: extractVIN, looksLikeVIN).
pub mod Window
use mechmind.Base.{
  ℕ, ◌+◌, Bool, not, ◌&&◌, ◌||◌, [], ◌∷◌, leb, ◌==◌, if◌then◌else◌, length, take, keep,
}
use mechmind.Text.{Text, is_digit, to_upper}

-- `looksLikeVIN` counts the digits.
unfoldable pub digits : Text → ℕ
digits [] = 0
digits (c ∷ s) = let n = digits s in if is_digit c then n + 1 else n

unfoldable pub looks_like_vin : Text → Bool
unfolding digits
looks_like_vin s = length s == 17 && leb 3 (digits s)

-- Letters but I, O and Q, and digits.
abbrev pub is_vin_char : ℕ → Bool
is_vin_char c =
    (leb b'A' c && leb c b'Z' && not (c == b'I') && not (c == b'O') && not (c == b'Q'))
    || is_digit c

-- The loop over windows of 17 bytes; `s` is what stands from `i` on.
unfoldable pub first_window : Text → Text
unfolding looks_like_vin
first_window [] = []
first_window (c ∷ s) =
    let rest = first_window s in
    if leb 17 (length (c ∷ s))
    then if looks_like_vin (take 17 (c ∷ s)) then take 17 (c ∷ s) else rest
    else []

unfoldable pub extract_vin : Text → Text
unfolding first_window to_upper
extract_vin resp = first_window (keep is_vin_char (to_upper resp))
