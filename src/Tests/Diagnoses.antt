-- ===== src/Tests/Diagnoses.antt =====
-- Runs of the diagnosis engine (internal/diagnosis/engine.go).
use mechmind.Diagnosis.Bounds.{raised-IsModest, IsModest}
use mechmind.Diagnosis.{Finding}
use mechmind.Diagnosis.Rank.{count, IsRanked}
use mechmind.Obd.Types.{confirmed, Dtc}
use mechmind.Diagnosis.Analyze.{analyze-IsRanked, raised, analyze, Input}
use mechmind.Base.Int.{pos, ℤ}
use mechmind.Base.{All, ℕ, ◌≡◌, Bool, Option, none, [], ◌∷◌}
use mechmind.Text.{codes, show_int, Text}
use mechmind.Tests.Numbers.{whole}

abbrev pub show_ℤ : ℕ → ℤ → Text
show_ℤ d x = show_int x

abbrev pub unread : Text → Option ℤ
unread t = none

abbrev stored : Text → Dtc ℤ
stored c = record { code = c; status = confirmed; freeze_frame = none; description = [] }

-- A misfire on one cylinder, with a code that the network has often seen beside it.
abbrev pub misfiring : Input ℤ
misfiring = record {
  focus_code = codes "p0300";
  dtcs = stored (codes "P0300") ∷ stored (codes "P0302") ∷ [];
  observations = none;
  co_occur = record { code = codes "P0420"; with_count = 9; focus_count = 12; rate = pos 1 } ∷ [];
}

analyze-IsRanked_example :
    IsRanked (analyze whole show_ℤ unread misfiring)
    × ((p : Finding → Bool)
        → count p (analyze whole show_ℤ unread misfiring)
          ≡ count p (raised whole show_ℤ unread misfiring))
analyze-IsRanked_example = analyze-IsRanked whole show_ℤ unread misfiring

raised-IsModest_example : All IsModest (raised whole show_ℤ unread misfiring)
raised-IsModest_example = raised-IsModest whole show_ℤ unread misfiring
