-- ===== src/Obd/Elm.antt =====
-- The pure helpers of the ELM327 driver (pkg/obd/usb.go): banners, bus answers, waits, log lines,
-- baud rates.
pub mod Bauds
use mechmind.Base.Int.{negsuc, eq_ℤ, pos, ℤ}
pub mod Clip
use mechmind.Base.{
  take, ℕ, zero, suc, ◌+◌, ◌-◌, ◌/◌, Bool, false, ◌||◌, List, [], ◌∷◌, ◌++◌, leb, if◌then◌else◌,
  length,
}
use mechmind.Text.{is_digit, join, replace_all, fields, contains, to_upper, text_eq, Text, codes}

-- Is one of the texts in `s`?
unfoldable pub contains_any : Text → List Text → Bool
unfolding contains
contains_any s [] = false
contains_any s (n ∷ ns) = contains s n || contains_any s ns

unfoldable pub looks_like_elm : Text → Bool
unfolding contains_any to_upper
looks_like_elm s = contains_any (to_upper s) (
    codes "ELM"
    ∷ codes "STN"
    ∷ codes "OBDII"
    ∷ codes "OBD-II"
    ∷ codes "V1."
    ∷ codes "V2."
    ∷ codes "OK"
    ∷ [])

unfoldable pub pid0100_supported : Text → Bool
unfolding contains to_upper replace_all text_eq
pid0100_supported resp =
    let u = to_upper (replace_all resp (codes " ") []) in
    if text_eq u []
      || contains u (codes "UNABLE")
      || contains u (codes "ERROR")
      || contains u (codes "NODATA")
    then false
    else contains u (codes "4100")

-- `elmBusProtocols`: a code and a name.
abbrev pub elm_bus_protocols : List (Text × Text)
elm_bus_protocols =
    (codes "6", codes "ISO 15765-4 CAN 11/500")
    ∷ (codes "7", codes "ISO 15765-4 CAN 29/500")
    ∷ (codes "8", codes "ISO 15765-4 CAN 11/250")
    ∷ (codes "9", codes "ISO 15765-4 CAN 29/250")
    ∷ (codes "0", codes "automatic")
    ∷ []

-- `len(cmd) >= 2` and a first byte that is a digit.
is_mode : Text → Bool
is_mode (c ∷ d ∷ s) = is_digit c
is_mode s = false

-- In milliseconds.
unfoldable pub command_wait : Text → ℕ
unfolding text_eq is_mode
command_wait cmd =
    if text_eq cmd (codes "ATZ")
    then 2000
    else if text_eq cmd (codes "ATWS")
    then 1500
    else if text_eq cmd (codes "0100")
    then 8000
    else if text_eq cmd (codes "0902")
    then 8000
    else if text_eq cmd (codes "03") || text_eq cmd (codes "07") || text_eq cmd (codes "0A")
    then 4000
    else if text_eq cmd (codes "ATSP0")
    then 2500
    else if is_mode cmd
    then 2000
    else 1200

-- A text of at most `n` bytes, or its first `n` and an ellipsis.
clip_to : Text → ℕ → Text
clip_to s n = if leb (length s) n then s else take n s ++ (0xE2 ∷ 0x80 ∷ 0xA6 ∷ [])

unfoldable pub clip_log : Text → ℕ → Text
unfolding clip_to fields join
clip_log s n = clip_to (join (fields s) (codes " ")) n

unfoldable pub has_baud : ℤ → List ℤ → Bool
has_baud b [] = false
has_baud b (x ∷ xs) = eq_ℤ x b || has_baud b xs

-- `add` in `baudCandidates`: `seen` holds what `out` lists.
unfoldable pub add_baud : ℤ → List ℤ → List ℤ
unfolding has_baud
add_baud (negsuc n) out = out
add_baud (pos zero) out = out
add_baud (pos (suc n)) out = if has_baud (pos (suc n)) out then out else out ++ pos (suc n) ∷ []

unfoldable pub baud_candidates : ℤ → List ℤ
unfolding add_baud
baud_candidates baud =
    add_baud (pos 9600) (add_baud (pos 38400) (add_baud (pos 115200) (add_baud baud [])))
