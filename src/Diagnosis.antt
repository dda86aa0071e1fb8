-- ===== src/Diagnosis.antt =====
-- The diagnosis engine (internal/diagnosis/engine.go): findings, the helpers of the rules and the
-- ranking. A finding's confidence is a whole number in every rule, so it is kept as one.
pub mod Rules
use mechmind.Obd.Dtcs.{put, Seen}
pub mod Rank
pub mod Bounds
pub mod Samples
pub mod Analyze
use mechmind.Base.{is_some, ℕ, Bool, false, ◌||◌, List, [], ◌∷◌, ltb, if◌then◌else◌}
use mechmind.Text.{codes, to_upper, Text}
use mechmind.Obd.Types.{Dtc, Value}
use mechmind.Obd.Codes.{find_text}

pub data Severity : Type 0 where
  info watch likely : Severity

pub record Finding : Type 0 where
  pub id : Text
  pub title : Text
  pub summary : Text
  pub confidence : ℕ
  pub evidence : List Text
  pub related_dtcs : List Text
  pub severity : Severity

pub record CoOccurStat (F : Type 0) : Type 0 where
  pub code : Text
  pub with_count : ℕ
  pub focus_count : ℕ
  pub rate : F

-- The map of the codes, by their upper-case spelling; a later entry replaces an earlier one.
unfoldable pub code_map : {F : Type 0} → List (Dtc F) → Seen F → Seen F
unfolding to_upper put
code_map [] m = m
code_map (d ∷ ds) m = code_map ds (put (to_upper d.code) d m)

module _ {F : Type 0} where
  unfoldable pub has_any : Seen F → List Text → Bool
  unfolding to_upper find_text
  has_any m [] = false
  has_any m (c ∷ cs) = is_some (find_text (to_upper c) m) || has_any m cs

  unfoldable pub related : Seen F → List Text → List Text
  unfolding to_upper find_text
  related m [] = []
  related m (c ∷ cs) =
      let rest = related m cs in
      if is_some (find_text (to_upper c) m) then to_upper c ∷ rest else rest

-- The codes of a lean mixture.
abbrev pub lean_codes : List Text
lean_codes = codes "P0171" ∷ codes "P0174" ∷ []

-- The inner loop of `rank`: the finding moves to the front past every finding of a lower
-- confidence.
-- The sorted part is held last first.
unfoldable pub sift : Finding → List Finding → List Finding
sift x [] = x ∷ []
sift x (y ∷ ys) =
    let rest = sift x ys in if ltb y.confidence x.confidence then y ∷ rest else x ∷ y ∷ ys

unfoldable pub sift_all : List Finding → List Finding → List Finding
unfolding sift
sift_all [] sorted = sorted
sift_all (x ∷ xs) sorted = sift_all xs (sift x sorted)

unfoldable pub reverse_onto : List Finding → List Finding → List Finding
reverse_onto [] out = out
reverse_onto (x ∷ xs) out = reverse_onto xs (x ∷ out)

unfoldable pub rank : List Finding → List Finding
unfolding sift_all reverse_onto
rank fs = reverse_onto (sift_all fs []) []
