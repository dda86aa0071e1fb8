-- ===== src/Diagnosis/Rank.antt =====
-- The ranking of findings (internal/diagnosis/engine.go: rank).
use mechmind.Base.{
  Bool-cases, ℕ, ◌+◌, ◌≤◌, ◌≡◌, refl, inl, inr, Bool, List, [], ◌∷◌, arith, ltb, if◌then◌else◌,
}
use mechmind.Diagnosis.{sift_all, sift, reverse_onto, Finding, rank}

-- Confidences that do not fall from one entry to the next, from `n` on.
abbrev IsUp : ℕ → List Finding → Type 0
IsUp n [] = Unit
IsUp n (x ∷ xs) = (n ≤ x.confidence) × IsUp x.confidence xs

-- Confidences that do not rise, from `n` on.
abbrev pub IsDown : ℕ → List Finding → Type 0
IsDown n [] = Unit
IsDown n (x ∷ xs) = (x.confidence ≤ n) × IsDown x.confidence xs

abbrev pub IsRanked : List Finding → Type 0
IsRanked [] = Unit
IsRanked (x ∷ xs) = IsDown x.confidence xs

-- How many findings pass a test.
abbrev pub count : (Finding → Bool) → List Finding → ℕ
count p [] = 0
count p (x ∷ xs) = let n = count p xs in if p x then n + 1 else n

sift-IsUp :
    (x : Finding) (n : ℕ) (ys : List Finding) → n ≤ x.confidence → IsUp n ys → IsUp n (sift x ys)
unfolding sift
sift-IsUp x n [] h up = (h, tt)
sift-IsUp x n (y ∷ ys) h (hy, up) = elim (Bool-cases (ltb y.confidence x.confidence)) [
  | inl lower ↦ rw lower (hy, sift-IsUp x y.confidence ys (ground arith) up)
  | inr higher ↦ rw higher (h, (ground arith, up))
]

sift_all-IsUp : (xs ys : List Finding) → IsUp 0 ys → IsUp 0 (sift_all xs ys)
unfolding sift_all
sift_all-IsUp [] ys up = up
sift_all-IsUp (x ∷ xs) ys up = sift_all-IsUp xs (sift x ys) (sift-IsUp x 0 ys (omega arith) up)

IsDown-weaken : (n m : ℕ) (out : List Finding) → n ≤ m → IsDown n out → IsDown m out
IsDown-weaken n m [] h down = tt
IsDown-weaken n m (z ∷ zs) h (hz, down) = (omega arith, down)

IsDown-IsRanked : (n : ℕ) (out : List Finding) → IsDown n out → IsRanked out
IsDown-IsRanked n [] down = tt
IsDown-IsRanked n (z ∷ zs) (hz, down) = down

reverse_onto-IsRanked :
    (xs : List Finding) (n : ℕ) (out : List Finding)
    → IsUp n xs
    → IsDown n out
    → IsRanked (reverse_onto xs out)
unfolding reverse_onto
reverse_onto-IsRanked [] n out up down = IsDown-IsRanked n out down
reverse_onto-IsRanked (x ∷ xs) n out (h, up) down =
    reverse_onto-IsRanked xs x.confidence (x ∷ out) up
      (omega arith, IsDown-weaken n x.confidence out h down)

count-sift :
    (p : Finding → Bool) (x : Finding) (ys : List Finding) → count p (sift x ys) ≡ count p (x ∷ ys)
unfolding sift
count-sift p x [] = refl
count-sift p x (y ∷ ys) = ground (arith, count-sift p x ys)

count-sift_all :
    (p : Finding → Bool) (xs ys : List Finding) → count p (sift_all xs ys) ≡ count p xs + count p ys
unfolding sift_all
count-sift_all p [] ys = omega arith
count-sift_all p (x ∷ xs) ys = ground (arith, count-sift_all p xs (sift x ys), count-sift p x ys)

count-reverse_onto :
    (p : Finding → Bool) (xs out : List Finding)
    → count p (reverse_onto xs out) ≡ count p xs + count p out
unfolding reverse_onto
count-reverse_onto p [] out = omega arith
count-reverse_onto p (x ∷ xs) out = ground (arith, count-reverse_onto p xs (x ∷ out))

-- The ranked findings are in order of confidence, the highest first, and they are the given ones:
-- every test passes as many of them as before.
pub rank-IsRanked :
    (fs : List Finding)
    → IsRanked (rank fs) × ((p : Finding → Bool) → count p (rank fs) ≡ count p fs)
unfolding rank
rank-IsRanked fs = (
  reverse_onto-IsRanked (sift_all fs []) 0 [] (sift_all-IsUp fs [] tt) tt,
  λ p. omega (arith, count-reverse_onto p (sift_all fs []) [], count-sift_all p fs []),
)
