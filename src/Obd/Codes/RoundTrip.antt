-- ===== src/Obd/Codes/RoundTrip.antt =====
-- Whole responses through `DecodeDTCs`: one frame, and two frames in one response.
use mechmind.Base.{
  ℕ, ◌≤◌, ◌≡◌, refl, true, false, List, [], ◌∷◌, ◌++◌, arith, ltb, length, All, append-nil,
  length-append, All-append,
}
use mechmind.Text.{Text}
use mechmind.Obd.Codes.{encode_dtc, decode_pairs, decode_raw, decode_dtcs, is_service}
use mechmind.Obd.Codes.Hex.{IsByte, to_hex, hex_string_to_bytes-to_hex, length-to_hex}
use mechmind.Obd.Codes.Frame.{
  kept, decode_dtcs-kept, decode_raw-cons, bytes_of, codes_of, decode_pairs-bytes_of,
  length-bytes_of, decode_pairs-cons,
}

-- A payload spells bytes if they are what its hex digits say; spaces, line ends, other letters
-- and the case of the digits do not count.
abbrev pub Spells : Text → Text → Type 0
Spells payload raw = kept payload ≡ to_hex raw

decode_dtcs-Spells :
    (payload raw : Text)
    → Spells payload raw
    → All IsByte raw
    → 3 ≤ length raw
    → decode_dtcs payload ≡ decode_raw raw
decode_dtcs-Spells payload raw spells bytes long =
    rw (decode_dtcs-kept, spells, enough, hex_string_to_bytes-to_hex raw bytes)
  where
    enough : ltb (length (to_hex raw)) 6 ≡ false
    enough = ground (arith, length-to_hex raw)

abbrev pub AreBytes : List (ℕ × ℕ) → Type 0
AreBytes = All (λ p. IsByte p.0 × IsByte p.1)

bytes_of-IsByte : (pairs : List (ℕ × ℕ)) → AreBytes pairs → All IsByte (bytes_of pairs)
unfolding bytes_of
bytes_of-IsByte [] h = tt
bytes_of-IsByte ((a, b) ∷ pairs) ((ha, hb), h) = (ha, (hb, bytes_of-IsByte pairs h))

decode_pairs-nil : decode_pairs [] ≡ []
unfolding decode_pairs
decode_pairs-nil = refl

-- A response that spells a service byte and then at least one pair of bytes is decoded to the
-- codes of those pairs, in their order, without the 00 00 padding.
pub decode_dtcs-frame :
    (payload : Text) (service : ℕ) (pairs : List (ℕ × ℕ))
    → is_service service ≡ true
    → IsByte service
    → AreBytes pairs
    → 1 ≤ length pairs
    → Spells payload (service ∷ bytes_of pairs)
    → decode_dtcs payload ≡ codes_of pairs
decode_dtcs-frame payload service pairs known byte bytes some_pair spells = rw (
  decode_dtcs-Spells payload (service ∷ bytes_of pairs) spells (byte, bytes_of-IsByte pairs bytes)
      (omega (arith, length-bytes_of pairs)),
  decode_raw-cons,
  known,
  ← append-nil (bytes_of pairs),
  decode_pairs-bytes_of pairs [],
  decode_pairs-nil,
  append-nil,
)

-- In a response of two frames the second frame's service byte, with the byte behind it, is read as
-- a trouble code of its own, and every later pair is shifted by one byte.
pub decode_dtcs-two_frames :
    (payload : Text) (first second : ℕ) (pairs : List (ℕ × ℕ)) (a : ℕ) (rest : Text)
    → is_service first ≡ true
    → is_service second ≡ true
    → IsByte first
    → IsByte second
    → AreBytes pairs
    → IsByte a
    → All IsByte rest
    → Spells payload (first ∷ (bytes_of pairs ++ second ∷ a ∷ rest))
    → decode_dtcs payload ≡ codes_of pairs ++ encode_dtc second a ∷ decode_pairs rest
decode_dtcs-two_frames payload first second pairs a rest k k' bf bs bp ba br spells =
    rw
      (
        decode_dtcs-Spells payload (first ∷ (bytes_of pairs ++ second ∷ a ∷ rest)) spells
            (bf, All-append IsByte (bytes_of pairs) _ (bytes_of-IsByte pairs bp) (bs, (ba, br)))
            (omega (arith, length-append (bytes_of pairs) (second ∷ a ∷ rest))),
        decode_raw-cons,
        k,
        decode_pairs-bytes_of pairs (second ∷ a ∷ rest),
        decode_pairs-cons,
      )
      (ground arith)
