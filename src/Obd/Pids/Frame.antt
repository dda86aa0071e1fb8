-- ===== src/Obd/Pids/Frame.antt =====
-- The data of a response to mode 01 (pkg/obd/pids.go: decodePayload).
use mechmind.Base.Int.{pos}
use mechmind.Obd.Codes.{hex_string_to_bytes}
use mechmind.Base.Float.{Floats}
use mechmind.Base.{
  All-drop, Bool-cases, All, keep, ℕ, ◌+◌, ◌*◌, ◌≤◌, ◌≡◌, refl, inl, inr, Option, none, some, [],
  ◌∷◌, arith, ltb, leb, ◌==◌, length,
}
use mechmind.Text.{Text}
use mechmind.Obd.Codes.Hex.{
  hex_string_to_bytes-IsByte, IsByte, to_hex, hex_string_to_bytes-to_hex, length-to_hex,
}
use mechmind.Obd.Pids.{on_word, is_hex, decode_rpm, payload_or, payload_after, decode_payload}

payload_after_first : (pid a : ℕ) (s : Text) → payload_after (0x41 ∷ pid ∷ a ∷ s) ≡ some (a ∷ s)
unfolding payload_after
payload_after_first pid a s = refl

-- The response's hex digits spell these bytes.
abbrev pub SpellsHex : Text → Text → Type 0
SpellsHex resp raw = keep is_hex resp ≡ to_hex raw

decode_payload-SpellsHex :
    (resp raw : Text)
    → SpellsHex resp raw
    → All IsByte raw
    → 3 ≤ length raw
    → decode_payload resp ≡ payload_or (payload_after raw) raw
unfolding decode_payload
decode_payload-SpellsHex resp raw spells bytes long =
    rw (spells, hex_string_to_bytes-to_hex raw bytes) (ground (arith, length-to_hex raw))

-- A response that spells 41, a PID and at least one byte of data decodes to that data.
pub decode_payload-frame :
    (resp : Text) (pid a : ℕ) (s : Text)
    → IsByte pid
    → IsByte a
    → All IsByte s
    → SpellsHex resp (0x41 ∷ pid ∷ a ∷ s)
    → decode_payload resp ≡ a ∷ s
unfolding payload_or
decode_payload-frame resp pid a s bp ba bs spells =
    rw
      (
        decode_payload-SpellsHex resp (0x41 ∷ pid ∷ a ∷ s) spells (omega arith, (bp, (ba, bs)))
            (omega arith),
        payload_after_first pid a s,
      )
      refl

module _ (R : Floats) where
  -- The engine speed of a response 41 0C A B is (256 A + B) / 4.
  decode_rpm-frame :
      (resp : Text) (a b : ℕ)
      → IsByte a
      → IsByte b
      → SpellsHex resp (0x41 ∷ 0x0C ∷ a ∷ b ∷ [])
      → decode_rpm R resp ≡ some (R.div (R.of_int (pos (a * 256 + b))) (R.dec 4 0))
  unfolding decode_rpm on_word
  decode_rpm-frame resp a b ba bb spells =
      rw (decode_payload-frame resp 0x0C a (b ∷ []) (omega arith) ba (bb, tt) spells) refl

abbrev AreBytesIn : Option Text → Type 0
AreBytesIn none = Unit
AreBytesIn (some d) = All IsByte d

payload_after-IsByte : (raw : Text) → All IsByte raw → AreBytesIn (payload_after raw)
unfolding payload_after
payload_after-IsByte (a ∷ b ∷ c ∷ s) (ha, (hb, h)) = elim (Bool-cases (a == 0x41)) [
  | inl service ↦ rw service h
  | inr other ↦ rw other (payload_after-IsByte (b ∷ c ∷ s) (hb, h))
]
payload_after-IsByte (a ∷ b ∷ []) h = tt
payload_after-IsByte (a ∷ []) h = tt
payload_after-IsByte [] h = tt

payload_or-IsByte :
    (d : Option Text) (raw : Text) → AreBytesIn d → All IsByte raw → All IsByte (payload_or d raw)
unfolding payload_or
payload_or-IsByte (some d) raw hd h = hd
payload_or-IsByte none raw hd h = elim (Bool-cases (leb 3 (length raw))) [
  | inl long ↦ rw long (All-drop IsByte 2 raw h)
  | inr short ↦ rw short h
]

-- Whatever the response, the data that are decoded from it are bytes.
decode_payload-IsByte : (resp : Text) → All IsByte (decode_payload resp)
unfolding decode_payload
decode_payload-IsByte resp =
    let hex = keep is_hex resp in
    let raw = hex_string_to_bytes hex in
    let bytes : All IsByte raw = hex_string_to_bytes-IsByte hex in
    elim (Bool-cases (ltb (length hex) 6)) [
      | inl short ↦ rw short tt
      | inr enough ↦ rw enough (payload_or-IsByte _ raw (payload_after-IsByte raw bytes) bytes)
    ]
