-- ===== src/Obd/Codes/Frame.antt =====
-- What `DecodeDTCs` makes of a response: its codes are well formed, a frame's pairs are read back,
-- and every pair of bytes has a code of its own.
use mechmind.Base.{
  ℕ, zero, suc, ◌+◌, ◌-◌, ◌*◌, ◌/◌, ◌%◌, ◌<◌, ◌≡◌, refl, Bool, true, false, ◌&&◌, ◌||◌, some, none,
  Option, List, [], ◌∷◌, ◌++◌, arith, Bool-cases, inl, inr, ltb, leb, ◌==◌, if◌then◌else◌, length,
  All, keep,
}
use mechmind.Text.{Text, to_upper}
use mechmind.Obd.Codes.{
  encode_dtc, decode_pairs, decode_raw, decode_dtcs, is_upper_hex, is_service, hex_string_to_bytes,
  hex_digit, prefix_of,
}
use mechmind.Obd.Codes.Hex.{IsByte}

-- A letter of P, C, B and U, a digit up to 3, and three upper-case hex digits.
abbrev pub is_code : Text → Bool
is_code (p ∷ d ∷ x ∷ y ∷ z ∷ []) =
    (p == b'P' || p == b'C' || p == b'B' || p == b'U')
    && (leb b'0' d && leb d b'3')
    && is_upper_hex x
    && is_upper_hex y
    && is_upper_hex z
is_code s = false

hex_digit-is_upper_hex : (v : ℕ) → v < 16 → is_upper_hex (hex_digit v) ≡ true
unfolding hex_digit
hex_digit-is_upper_hex v h = ground arith

prefix_of-letter :
    (i : ℕ)
    → (prefix_of i == b'P' || prefix_of i == b'C' || prefix_of i == b'B' || prefix_of i == b'U')
      ≡ true
unfolding prefix_of
prefix_of-letter zero = refl
prefix_of-letter (suc zero) = refl
prefix_of-letter (suc (suc zero)) = refl
prefix_of-letter (suc (suc (suc i))) = refl

encode_dtc-digits :
    (a b : ℕ)
    → encode_dtc a b
      ≡ prefix_of (a / 64 % 4)
        ∷ (b'0' + a / 16 % 4)
        ∷ hex_digit (a % 16)
        ∷ hex_digit (b / 16 % 16)
        ∷ hex_digit (b % 16)
        ∷ []
unfolding encode_dtc
encode_dtc-digits a b = refl

abbrev pub IsCode : Text → Type 0
IsCode s = is_code s ≡ true

encode_dtc-IsCode : (a b : ℕ) → IsCode (encode_dtc a b)
encode_dtc-IsCode a b = rw encode_dtc-digits (
    ground (
      arith,
      prefix_of-letter (a / 64 % 4),
      hex_digit-is_upper_hex (a % 16) (omega arith),
      hex_digit-is_upper_hex (b / 16 % 16) (omega arith),
      hex_digit-is_upper_hex (b % 16) (omega arith),
    ))

pub decode_pairs-cons :
    (a b : ℕ) (raw : Text)
    → decode_pairs (a ∷ b ∷ raw)
      ≡ (if a == 0 && b == 0 then decode_pairs raw else encode_dtc a b ∷ decode_pairs raw)
unfolding decode_pairs
decode_pairs-cons a b raw = refl

decode_pairs-IsCode : (raw : Text) → All IsCode (decode_pairs raw)
decode_pairs-IsCode [] = unfold decode_pairs in tt
decode_pairs-IsCode (a ∷ []) = unfold decode_pairs in tt
decode_pairs-IsCode (a ∷ b ∷ raw) = rw decode_pairs-cons (elim (Bool-cases (a == 0 && b == 0)) [
  | inl pad ↦ rw pad (decode_pairs-IsCode raw)
  | inr code ↦ rw code (encode_dtc-IsCode a b, decode_pairs-IsCode raw)
])

pub decode_raw-cons :
    (a : ℕ) (raw : Text)
    → decode_raw (a ∷ raw) ≡ (if is_service a then decode_pairs raw else decode_pairs (a ∷ raw))
unfolding decode_raw
decode_raw-cons a raw = refl

decode_raw-IsCode : (raw : Text) → All IsCode (decode_raw raw)
decode_raw-IsCode [] = unfold decode_raw in tt
decode_raw-IsCode (a ∷ raw) = rw decode_raw-cons (elim (Bool-cases (is_service a)) [
  | inl service ↦ rw service (decode_pairs-IsCode raw)
  | inr plain ↦ rw plain (decode_pairs-IsCode (a ∷ raw))
])

-- The hex digits that are kept of a payload.
abbrev pub kept : Text → Text
kept payload = keep is_upper_hex (to_upper payload)

pub decode_dtcs-kept :
    (payload : Text)
    → decode_dtcs payload ≡ (
        if ltb (length (kept payload)) 6
        then []
        else decode_raw (hex_string_to_bytes (kept payload)))
unfolding decode_dtcs
decode_dtcs-kept payload = refl

-- Whatever the adapter answered, every decoded code has the shape of a trouble code: a letter of
-- P, C, B and U, a digit from 0 to 3, and three upper-case hex digits.
pub decode_dtcs-IsCode : (payload : Text) → All IsCode (decode_dtcs payload)
decode_dtcs-IsCode payload =
    rw decode_dtcs-kept (elim (Bool-cases (ltb (length (kept payload)) 6)) [
      | inl short ↦ rw short tt
      | inr enough ↦ rw enough (decode_raw-IsCode _)
    ])

-- The two bytes that a code stands for, read back by hand.
letter_index : ℕ → ℕ
letter_index p = if p == b'P' then 0 else if p == b'C' then 1 else if p == b'B' then 2 else 3

hex_value : ℕ → ℕ
hex_value c = if leb c b'9' then c - b'0' else c - b'A' + 10

pub parse_dtc : Text → Option (ℕ × ℕ)
parse_dtc (p ∷ d ∷ x ∷ y ∷ z ∷ []) =
    some (letter_index p * 64 + (d - b'0') * 16 + hex_value x, hex_value y * 16 + hex_value z)
parse_dtc s = none

letter_index-prefix_of : (i : ℕ) → i < 4 → letter_index (prefix_of i) ≡ i
unfolding letter_index prefix_of
letter_index-prefix_of zero h = refl
letter_index-prefix_of (suc zero) h = refl
letter_index-prefix_of (suc (suc zero)) h = refl
letter_index-prefix_of (suc (suc (suc i))) h = omega arith

hex_value-hex_digit : (v : ℕ) → v < 16 → hex_value (hex_digit v) ≡ v
unfolding hex_value hex_digit
hex_value-hex_digit v h = ground arith

-- Every pair of bytes is read back from its code, so no two pairs share a code.
pub parse_dtc-encode_dtc :
    (a b : ℕ) → IsByte a → IsByte b → parse_dtc (encode_dtc a b) ≡ some (a, b)
unfolding parse_dtc
parse_dtc-encode_dtc a b ha hb =
    rw
      (
        encode_dtc-digits,
        letter_index-prefix_of (a / 64 % 4) (omega arith),
        hex_value-hex_digit (a % 16) (omega arith),
        hex_value-hex_digit (b / 16 % 16) (omega arith),
        hex_value-hex_digit (b % 16) (omega arith),
      )
      (ground arith)

-- The bytes of a list of pairs, and the codes of the pairs that are not padding.
unfoldable pub bytes_of : List (ℕ × ℕ) → Text
bytes_of [] = []
bytes_of ((a, b) ∷ pairs) = a ∷ b ∷ bytes_of pairs

unfoldable pub codes_of : List (ℕ × ℕ) → List Text
codes_of [] = []
codes_of ((a, b) ∷ pairs) =
    let rest = codes_of pairs in if a == 0 && b == 0 then rest else encode_dtc a b ∷ rest

pub decode_pairs-bytes_of :
    (pairs : List (ℕ × ℕ)) (rest : Text)
    → decode_pairs (bytes_of pairs ++ rest) ≡ codes_of pairs ++ decode_pairs rest
unfolding bytes_of codes_of
decode_pairs-bytes_of [] rest = refl
decode_pairs-bytes_of ((a, b) ∷ pairs) rest =
    rw (decode_pairs-cons, decode_pairs-bytes_of pairs rest) (ground arith)

pub length-bytes_of : (pairs : List (ℕ × ℕ)) → length (bytes_of pairs) ≡ 2 * length pairs
unfolding bytes_of
length-bytes_of [] = refl
length-bytes_of ((a, b) ∷ pairs) = omega (arith, length-bytes_of pairs)
