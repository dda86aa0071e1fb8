-- ===== src/Obd/Vin/Window.antt =====
-- What `extractVIN` returns: a plausible window if there is one, and the first one.
use mechmind.Base.{
  ℕ, zero, suc, ◌≤◌, ◌<◌, ◌≡◌, ◌≢◌, refl, true, false, [], ◌∷◌, ◌++◌, arith, leb, if◌then◌else◌,
  length, length-take, length-drop, keep-All, All-drop, take, drop, keep, All, All-take, Bool-cases,
  inl, inr, ◌⊎◌,
}
use mechmind.Text.{Text, codes, to_upper}
use mechmind.Obd.Vin.{digits, looks_like_vin, is_vin_char, first_window, extract_vin}

-- The letters and digits of a response that may stand in a VIN.
abbrev pub candidates : Text → Text
candidates resp = keep is_vin_char (to_upper resp)

-- `v` stands in `s` with `i` bytes before it.
abbrev pub StandsAt : ℕ → Text → Text → Type 0
StandsAt i v s = v ≡ take 17 (drop i s)

first_window-cons :
    (c : ℕ) (s : Text)
    → first_window (c ∷ s) ≡ (
        if leb 17 (length (c ∷ s))
        then if looks_like_vin (take 17 (c ∷ s)) then take 17 (c ∷ s) else first_window s
        else [])
unfolding first_window
first_window-cons c s = refl

abbrev pub IsPlausible : Text → Type 0
IsPlausible v = looks_like_vin v ≡ true

-- No window of 17 bytes that begins before the `i`-th byte is plausible.
abbrev pub NoneBefore : ℕ → Text → Type 0
NoneBefore i s = (j : ℕ) → j < i → looks_like_vin (take 17 (drop j s)) ≡ false

-- No window at all is plausible.
abbrev pub NoneIn : Text → Type 0
NoneIn s = (j : ℕ) → looks_like_vin (take 17 (drop j s)) ≡ false

-- `v` is the first plausible window of `s`; or there is none, and `v` is empty.
abbrev pub Found : Text → Text → Type 0
Found s v = ((i : ℕ) × StandsAt i v s × IsPlausible v × NoneBefore i s) ⊎ ((v ≡ []) × NoneIn s)

before_step :
    (c i : ℕ) (s : Text)
    → looks_like_vin (take 17 (c ∷ s)) ≡ false
    → NoneBefore i s
    → NoneBefore (suc i) (c ∷ s)
before_step c i s h0 h zero lt = h0
before_step c i s h0 h (suc j) lt = h j (omega arith)

in_step : (c : ℕ) (s : Text) → looks_like_vin (take 17 (c ∷ s)) ≡ false → NoneIn s → NoneIn (c ∷ s)
in_step c s h0 h zero = h0
in_step c s h0 h (suc j) = h j

Found-skip :
    (c : ℕ) (s v : Text) → looks_like_vin (take 17 (c ∷ s)) ≡ false → Found s v → Found (c ∷ s) v
Found-skip c s v h0 (inl (i, at, plausible, before)) =
    inl (suc i, at, plausible, before_step c i s h0 before)
Found-skip c s v h0 (inr (e, h)) = inr (e, in_step c s h0 h)

looks_like_vin_short : (s : Text) → length s < 17 → looks_like_vin s ≡ false
unfolding looks_like_vin
looks_like_vin_short s h = ground arith

short-NoneIn : (s : Text) → length s < 17 → NoneIn s
short-NoneIn s h j =
    looks_like_vin_short (take 17 (drop j s))
      (omega (arith, length-take 17 (drop j s), length-drop j s))

first_window-Found : (s : Text) → Found s (first_window s)
first_window-Found [] = inr (unfold first_window in refl, short-NoneIn [] (omega arith))
first_window-Found (c ∷ s) = rw first_window-cons (elim (Bool-cases (leb 17 (length (c ∷ s)))) [
  | inr short ↦ rw short (inr (refl, short-NoneIn (c ∷ s) (ground arith)))
  | inl long ↦ rw long (elim (Bool-cases (looks_like_vin (take 17 (c ∷ s)))) [
    | inl hit ↦ rw hit (inl (0, refl, hit, λ j lt. absurd (omega arith)))
    | inr miss ↦ rw miss (Found-skip c s (first_window s) miss (first_window-Found s))
  ])
])

looks_like_vin_parts : (v : Text) → looks_like_vin v ≡ true → (length v ≡ 17) × (3 ≤ digits v)
unfolding looks_like_vin
looks_like_vin_parts v h = ground arith

header_plausible :
    (rest : Text) → 11 ≤ length rest → looks_like_vin (codes "490201" ++ take 11 rest) ≡ true
unfolding looks_like_vin
header_plausible rest long = ground (arith, length-take 11 rest)

header_first :
    (rest : Text)
    → 11 ≤ length rest
    → first_window (codes "490201" ++ rest) ≡ codes "490201" ++ take 11 rest
header_first rest long = rw (first_window-cons, enough, header_plausible rest long)
  where
    enough : leb 17 (length (codes "490201" ++ rest)) ≡ true
    enough = ground arith

-- What is returned is the first window of 17 letters and digits, I, O and Q left out, of which at
-- least three are digits; it is empty just where the response holds no such window.
pub extract_vin-Found : (resp : Text) → Found (candidates resp) (extract_vin resp)
unfolding extract_vin
extract_vin-Found resp = first_window-Found (candidates resp)

All-transport : (P : ℕ → Type 0) {v : Text} (i : ℕ) (s : Text) → StandsAt i v s → All P s → All P v
All-transport P i s at h = rw at (All-take P 17 (drop i s) (All-drop P i s h))

-- A VIN that is returned has 17 characters, each of which a VIN may hold, and at least three
-- digits.
extract_vin-valid :
    (resp : Text)
    → extract_vin resp ≢ []
    → let v = extract_vin resp in
      (length v ≡ 17) × All (λ c. is_vin_char c ≡ true) v × (3 ≤ digits v)
extract_vin-valid resp some_vin = elim (extract_vin-Found resp) [
  | inr (e, h) ↦ absurd (some_vin e)
  | inl (i, at, plausible, before) ↦ (
    (looks_like_vin_parts _ plausible).0,
    All-transport _ i (candidates resp) at (keep-All is_vin_char (to_upper resp)),
    (looks_like_vin_parts _ plausible).1,
  )
]

-- Where the kept characters of a response begin with 490201, the header of an answer in hex, that
-- header and the 11 characters after it are returned.
pub extract_vin-header :
    (resp rest : Text)
    → candidates resp ≡ codes "490201" ++ rest
    → 11 ≤ length rest
    → extract_vin resp ≡ codes "490201" ++ take 11 rest
unfolding extract_vin
extract_vin-header resp rest spells long = rw spells (header_first rest long)
