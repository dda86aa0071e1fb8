-- ===== src/Text.antt =====
-- Go strings as lists of bytes, and the functions of Go's `strings` package that the program
-- calls. Case and white space are those of ASCII.
pub mod Laws
pub mod Map
use mechmind.Base.Int.{negsuc, pos, ℤ}
use Prim.Native.Char.{code}
use Prim.Native.String.{String}
use mathlib.Core.List.{reverse}
use mechmind.Base.{
  ℕ, zero, suc, ◌+◌, ◌-◌, ◌/◌, ◌%◌, Bool, true, false, ◌&&◌, ◌||◌, List, [], ◌∷◌, ◌++◌, map, ltb,
  leb, ◌==◌, if◌then◌else◌, length,
}

abbrev pub Text : Type 0
Text = List ℕ

-- The UTF-8 bytes of a code point below 2^16, in front of a text.
abbrev encode_utf8 : ℕ → Text → Text
encode_utf8 n s =
    if ltb n 128
    then n ∷ s
    else if ltb n 2048
    then (192 + n / 64) ∷ (128 + n % 64) ∷ s
    else (224 + n / 4096) ∷ (128 + n / 64 % 64) ∷ (128 + n % 64) ∷ s

-- The bytes of a literal.
abbrev pub codes : String → Text
codes String.[] = []
codes (String.◌∷◌ c s) = encode_utf8 (code c) (codes s)

unfoldable pub text_eq : Text → Text → Bool
text_eq [] [] = true
text_eq [] (d ∷ t) = false
text_eq (c ∷ s) [] = false
text_eq (c ∷ s) (d ∷ t) = c == d && text_eq s t

abbrev pub is_digit : ℕ → Bool
is_digit c = leb b'0' c && leb c b'9'

unfoldable pub upper : ℕ → ℕ
upper c = if leb b'a' c && leb c b'z' then c - 32 else c

unfoldable pub lower : ℕ → ℕ
lower c = if leb b'A' c && leb c b'Z' then c + 32 else c

-- `strings.ToUpper` and `strings.ToLower`.
unfoldable pub to_upper : Text → Text
unfolding upper
to_upper s = map upper s

unfoldable pub to_lower : Text → Text
unfolding lower
to_lower s = map lower s

-- Tab, line feed, vertical tab, form feed, carriage return and space.
abbrev pub is_space : ℕ → Bool
is_space c = (leb 9 c && leb c 13) || c == 32

unfoldable pub trim_left : Text → Text
trim_left [] = []
trim_left (c ∷ s) = let rest = trim_left s in if is_space c then rest else c ∷ s

-- `strings.TrimSpace`.
unfoldable pub trim_space : Text → Text
unfolding trim_left
trim_space s = reverse (trim_left (reverse (trim_left s)))

-- `strings.HasPrefix s p`.
unfoldable pub has_prefix : Text → Text → Bool
has_prefix s [] = true
has_prefix [] (d ∷ p) = false
has_prefix (c ∷ s) (d ∷ p) = c == d && has_prefix s p

-- `strings.Contains s sub`.
unfoldable pub contains : Text → Text → Bool
unfolding has_prefix
contains [] sub = has_prefix [] sub
contains (c ∷ s) sub = has_prefix (c ∷ s) sub || contains s sub

-- `skip` bytes of an occurrence are still to be passed over.
replace_from : ℕ → Text → Text → Text → Text
unfolding has_prefix
replace_from skip old new [] = []
replace_from (suc skip) old new (c ∷ s) = replace_from skip old new s
replace_from zero old new (c ∷ s) = elim (has_prefix (c ∷ s) old) [
  | true ↦ new ++ replace_from (length old - 1) old new s
  | false ↦ c ∷ replace_from zero old new s
]

-- `strings.ReplaceAll s old new`, for a non-empty `old`.
unfoldable pub replace_all : Text → Text → Text → Text
unfolding replace_from
replace_all s old new = replace_from zero old new s

push_field : Text → List Text → List Text
push_field [] done = done
push_field (c ∷ s) done = done ++ (c ∷ s) ∷ []

fields_from : Text → List Text → Text → List Text
unfolding push_field
fields_from cur done [] = push_field cur done
fields_from cur done (c ∷ s) = elim (is_space c) [
  | true ↦ fields_from [] (push_field cur done) s
  | false ↦ fields_from (cur ++ c ∷ []) done s
]

-- `strings.Fields`.
unfoldable pub fields : Text → List Text
unfolding fields_from
fields s = fields_from [] [] s

-- `strings.Join`.
unfoldable pub join : List Text → Text → Text
join [] sep = []
join (p ∷ []) sep = p
join (p ∷ q ∷ ps) sep = p ++ sep ++ join (q ∷ ps) sep

digit_of : ℕ → ℕ
digit_of n = b'0' + n % 10

show_from : ℕ → ℕ → Text → Text
unfolding digit_of
show_from zero n out = out
show_from (suc f) n out =
    let rest = show_from f (n / 10) (digit_of n ∷ out) in
    if ltb n 10 then digit_of n ∷ out else rest

-- `%d` of a number below 10^20.
unfoldable pub show_nat : ℕ → Text
unfolding show_from
show_nat n = show_from 20 n []

-- `%d` of an int.
unfoldable pub show_int : ℤ → Text
unfolding show_nat
show_int (pos n) = show_nat n
show_int (negsuc n) = b'-' ∷ show_nat (n + 1)
