-- ===== src/Enrichment/Nhtsa.antt =====
-- The client of NHTSA's services (internal/enrichment/nhtsa.go). The network, JSON and the escaping
-- of URLs are parameters. Texts are bytes.
pub mod Methods
pub mod Bounds
use mechmind.Base.{
  is_some, ◌^◌, ℕ, take, ◌+◌, ◌-◌, ◌*◌, ◌/◌, ◌%◌, Bool, false, not, ◌&&◌, ◌||◌, Option, none, some,
  List, [], ◌∷◌, ◌++◌, ltb, leb, if◌then◌else◌, length,
}
use mechmind.Base.Int.{ℤ, pos, negsuc}
use mechmind.Base.Float.{Floats}
use mechmind.Text.{
  Text, codes, text_eq, trim_space, to_upper, fields, join, contains, is_digit, show_nat, show_int,
}
use mechmind.Text.Map.{get_key}
use mechmind.Http.{Sent, unsent, replied, Result, fails, gives, trim_slashes}

pub record LeanVin : Type 0 where
  pub make : Text
  pub model : Text
  pub year : ℤ
  pub body_class : Text
  pub fuel_type : Text
  pub displacement_l : Text
  pub cylinders : Text
  pub drive_type : Text
  pub engine_note : Text
  pub error_code : Text
  pub error_text : Text

pub record LeanRecall : Type 0 where
  pub campaign_number : Text
  pub component : Text
  pub summary : Text
  pub consequence : Text
  pub remedy : Text
  pub report_date : Text

-- What an `any` of JSON holds; any other value is the text that `%v` prints.
pub data Json (F : Type 0) : Type 0 where
  null : Json F
  string : Text → Json F
  number : F → Json F
  printed : Text → Json F

abbrev pub Object : Type 0 → Type 0
Object F = List (Text × Json F)

pub record Network (F : Type 0) : Type 1 where
  pub World : Type 0
  -- A GET for JSON: its end, with the whole body.
  pub send : Text → World → Sent × World
  -- `url.PathEscape`, and `Values.Encode` of a make, a model and a year.
  pub path_escape : Text → Text
  pub encode : Text → Text → Text → Text
  -- The objects under "Results", and under "results"; JSON that is none is an error.
  pub read_results : Text → Result (List (Object F))
  pub read_recalls : Text → Result (List (Object F))
  -- `%v` of a float64.
  pub print_float : F → Text

pub record Client : Type 0 where
  pub vpic_base : Text
  pub nhtsa_base : Text

unfoldable pub new_client : Client
new_client = record {
  vpic_base = codes "https://vpic.nhtsa.dot.gov/api";
  nhtsa_base = codes "https://api.nhtsa.gov";
}

-- A body that was read, if any, with the error, if any.
pub record Fetched : Type 0 where
  pub body : Option Text
  pub error : Option Text

-- `atoi` on a 64-bit int, whose bits are those of the number below 2 ^ 64.
unfoldable pub atoi_from : ℕ → Text → ℕ
atoi_from n [] = n
atoi_from n (c ∷ s) =
    let rest = atoi_from ((n * 10 + (c - 48)) % 2 ^ 64) s in if is_digit c then rest else n

unfoldable pub as_int : ℕ → ℤ
as_int n = if ltb n (2 ^ 63) then pos n else negsuc (2 ^ 64 - 1 - n)

unfoldable pub atoi : Text → ℤ
unfolding atoi_from as_int
atoi s = as_int (atoi_from 0 s)

-- `…` is three bytes.
unfoldable pub truncate : Text → ℕ → Text
unfolding fields join
truncate s n =
    let t = join (fields s) (codes " ") in
    if leb (length t) n then t else take (n - 1) t ++ codes "…"

-- The parts that are not blank.
unfoldable pub non_blank : List Text → List Text
unfolding trim_space text_eq
non_blank [] = []
non_blank (p ∷ ps) =
    let rest = non_blank ps in if text_eq (trim_space p) [] then rest else trim_space p ∷ rest

unfoldable pub trim_join : List Text → Text
unfolding non_blank join
trim_join ps = join (non_blank ps) (codes " · ")

-- At most 2 MiB are read. A status of 300 or more is an error that comes with the body.
unfoldable pub fetched : Sent → Fetched
unfolding truncate show_nat
fetched (unsent e) = record { body = none; error = some e }
fetched (replied status whole) =
    let b = take 2097152 whole in
    record {
      body = some b;
      error =
          if leb 300 status
          then some (codes "http " ++ show_nat status ++ codes ": " ++ truncate b 200)
          else none;
    }

-- Whether the body of an error says that there are none.
unfoldable pub says_none : Fetched → Bool
unfolding contains
says_none f = of_body f.body
  where
    of_body : Option Text → Bool
    of_body none = false
    of_body (some b) = contains b (codes "\"Count\":0") || contains b (codes "\"results\":[]")

abbrev pub or_no_text : Option (Text) → Text
or_no_text none = []
or_no_text (some b) = b

abbrev pub or_none_found : {F : Type 0} → Result (List (Object F)) → List (Object F)
or_none_found (fails e) = []
or_none_found (gives rs) = rs

abbrev pub or_failed : {A : Type 0} → Option Text → Result A → Result A
or_failed (some e) r = fails e
or_failed none r = r
