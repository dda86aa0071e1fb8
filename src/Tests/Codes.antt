-- ===== src/Tests/Codes.antt =====
-- Runs of pkg/obd/codes.go and of ReadDTCs' merge.
use mechmind.Obd.Codes.Hex.{hex_of_byte, to_hex}
use mechmind.Obd.Dtcs.Status.{merge_replies-status}
use mechmind.Obd.Dtcs.{new_dtc, merge_replies}
use mechmind.Obd.Types.{confirmed, Dtc}
use mechmind.Obd.Codes.{decode_pairs, encode_dtc, decode_dtcs, find_text}
use mechmind.Obd.Codes.Frame.{codes_of, bytes_of, decode_dtcs-IsCode, IsCode}
use mechmind.Base.{All, ℕ, ◌≡◌, refl, none, some, List, [], ◌∷◌, arith}
use mechmind.Text.{to_upper, text_eq, codes}
use mechmind.Obd.Codes.RoundTrip.{decode_dtcs-two_frames, decode_dtcs-frame}

-- Two stored codes, P0420 and P0301, as pairs of bytes.
abbrev two_codes : List (ℕ × ℕ)
two_codes = (4, 32) ∷ (3, 1) ∷ []

decode_dtcs-IsCode_example : All IsCode (decode_dtcs (codes "43 04 20 03 01"))
decode_dtcs-IsCode_example = decode_dtcs-IsCode (codes "43 04 20 03 01")

decode_dtcs-frame_example :
    decode_dtcs (codes "43 04 20 03 01") ≡ codes "P0420" ∷ codes "P0301" ∷ []
unfolding to_upper to_hex hex_of_byte bytes_of codes_of encode_dtc
decode_dtcs-frame_example =
    decode_dtcs-frame (codes "43 04 20 03 01") 67 two_codes refl (omega arith)
      (((omega arith, omega arith), ((omega arith, omega arith), tt))) (omega arith) refl

decode_dtcs-two_frames_example :
    decode_dtcs (codes "43 04 20 43 03 01 07") ≡ codes "P0420" ∷ codes "C0303" ∷ codes "P0107" ∷ []
unfolding to_upper to_hex hex_of_byte bytes_of codes_of encode_dtc decode_pairs
decode_dtcs-two_frames_example =
    decode_dtcs-two_frames (codes "43 04 20 43 03 01 07") 67 67 ((4, 32) ∷ []) 3 (1 ∷ 7 ∷ []) refl
      refl (omega arith) (omega arith) ((omega arith, omega arith), tt) (omega arith)
      (omega arith, (omega arith, tt)) refl

merge_replies-status_example :
    find_text {V = Dtc Unit}
      (codes "P0420")
      (merge_replies (some (codes "43 04 20")) none (some (codes "4A 04 20")))
    ≡ some (new_dtc confirmed (codes "P0420"))
unfolding decode_dtcs text_eq
merge_replies-status_example =
    merge_replies-status (some (codes "43 04 20")) none (some (codes "4A 04 20")) (codes "P0420")
