-- ===== src/Enrichment/Market.antt =====
-- The market's focus (internal/market/nigeria.go).
use mechmind.Base.{ℕ, Bool, false, ◌&&◌, ◌||◌, List, [], ◌∷◌, leb, ◌==◌, if◌then◌else◌}
use mechmind.Base.Int.{ℤ, pos, negsuc}
use mechmind.Text.{upper, Text, codes, text_eq}

abbrev pub min_model_year : ℕ
min_model_year = 2010

abbrev pub max_seed_year : ℕ
max_seed_year = 2024

abbrev pub seed_year_step : ℕ
seed_year_step = 2

abbrev is_separator : ℕ → Bool
is_separator c = c == 32 || c == b'-' || c == b'_'

-- `normalize`: separators are dropped and letters made upper case.
unfoldable pub normalize : Text → Text
unfolding upper
normalize [] = []
normalize (c ∷ s) = let rest = normalize s in if is_separator c then rest else upper c ∷ rest

pub top_makes : List Text
top_makes =
    codes "Toyota" ∷ codes "Honda" ∷ codes "Hyundai" ∷ codes "Kia" ∷ codes "Mercedes-Benz" ∷ []

same_make : Text → Text → Bool
unfolding text_eq normalize
same_make a b = text_eq (normalize a) (normalize b)

is_make_of : List Text → Text → Bool
unfolding same_make
is_make_of [] name = false
is_make_of (m ∷ ms) name = same_make m name || is_make_of ms name

unfoldable pub is_top_make : Text → Bool
unfolding is_make_of top_makes
is_top_make name = is_make_of top_makes name

unfoldable pub in_year_scope : ℤ → Bool
in_year_scope (pos y) = leb min_model_year y
in_year_scope (negsuc y) = false

unfoldable pub in_market_scope : Text → ℤ → Bool
unfolding is_top_make in_year_scope
in_market_scope name year = is_top_make name && in_year_scope year
