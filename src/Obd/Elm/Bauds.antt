-- ===== src/Obd/Elm/Bauds.antt =====
-- The order in which `Open` tries the baud rates.
use mechmind.Base.Int.{eq_ℤ, negsuc, pos, ℤ}
use mechmind.Base.{
  All, ℕ, zero, suc, ◌+◌, ◌≤◌, ◌<◌, ◌≡◌, refl, true, Option, none, some, List, [], ◌∷◌, arith,
  if◌then◌else◌,
}
use mechmind.Obd.Elm.{has_baud, baud_candidates}

abbrev pub IsRate : ℤ → Type 0
IsRate (pos n) = 0 < n
IsRate (negsuc n) = ⊥

abbrev pub rate_times : ℤ → List ℤ → ℕ
rate_times b [] = 0
rate_times b (x ∷ xs) = let n = rate_times b xs in if eq_ℤ x b then n + 1 else n

abbrev pub head_of : List ℤ → Option ℤ
head_of [] = none
head_of (x ∷ xs) = some x

-- The rate that is tried first.
abbrev pub preferred : ℤ → ℤ
preferred (pos (suc n)) = pos (suc n)
preferred other = pos 115200

-- The requested rate is tried first, if it is positive, and else 115200; only positive rates are
-- tried, each of them once, and 115200, 38400 and 9600 are always among them.
baud_candidates_order :
    (baud : ℤ)
    → (head_of (baud_candidates baud) ≡ some (preferred baud))
      × All IsRate (baud_candidates baud)
      × ((b : ℤ) → rate_times b (baud_candidates baud) ≤ 1)
      × (has_baud (pos 115200) (baud_candidates baud) ≡ true)
      × (has_baud (pos 38400) (baud_candidates baud) ≡ true)
      × (has_baud (pos 9600) (baud_candidates baud) ≡ true)
unfolding baud_candidates
baud_candidates_order (negsuc n) = (refl, omega arith, λ b. ground arith, refl, refl, refl)
baud_candidates_order (pos zero) = (refl, omega arith, λ b. ground arith, refl, refl, refl)
baud_candidates_order (pos (suc n)) =
    (ground arith, ground arith, λ b. ground arith, ground arith, ground arith, ground arith)
