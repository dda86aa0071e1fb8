-- ===== src/Http.antt =====
-- What the program's HTTP clients share: the end of an exchange, results with an error text, URLs.
use mathlib.Core.List.{reverse}
use mechmind.Base.{ℕ, [], ◌∷◌, ◌==◌, if◌then◌else◌}
use mechmind.Text.{Text}

-- The end of an exchange: an error, or a status with the body.
pub data Sent : Type 0 where
  unsent : Text → Sent
  replied : ℕ → Text → Sent

-- A value, or the text of an error.
pub data Result (A : Type 0) : Type 0 where
  fails : Text → Result A
  gives : A → Result A

-- What a handler writes: an error body, or a value with its status.
pub data Answer (A : Type 0) : Type 0 where
  refused : ℕ → Text → Answer A
  answered : ℕ → A → Answer A

trim_slashes_left : Text → Text
trim_slashes_left [] = []
trim_slashes_left (c ∷ s) = let rest = trim_slashes_left s in if c == b'/' then rest else c ∷ s

-- `strings.TrimRight(s, "/")`.
unfoldable pub trim_slashes : Text → Text
unfolding trim_slashes_left
trim_slashes s = reverse (trim_slashes_left (reverse s))
