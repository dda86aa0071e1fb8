-- ===== src/Obd/Codes/Describe.antt =====
-- `DescribeCode`: what it depends on, and that it never answers with an empty text.
use mathlib.Core.Path.{subst}
use mechmind.Base.{
  ◌≤◌, Bool-cases, some_inj, inl, inr, ◌≡◌, refl, Option, none, some, List, [], ◌∷◌, arith, length,
  All,
}
use mechmind.Text.{Text, to_upper, trim_space, text_eq}
use mechmind.Obd.Codes.{
  describe_code, describe_known, describe_family, find_text, code_descriptions,
}

find_text-All {ℓ κ} :
    {V : Type ℓ} (P : V → Type κ) (k : Text) (m : List (Text × V)) {v : V}
    → All (λ e. P e.1) m
    → find_text k m ≡ some v
    → P v
unfolding find_text
find_text-All P k [] h e = cc
find_text-All P k ((j, w) ∷ m) (pw, h) e = elim (Bool-cases (text_eq j k)) [
  | inl hit ↦ subst P (some_inj (rw hit at e)) pw
  | inr miss ↦ find_text-All P k m h (rw miss at e)
]

code_descriptions-ne_nil : All (λ (e : Text × Text). 1 ≤ length e.1) code_descriptions
unfolding code_descriptions
code_descriptions-ne_nil = omega arith

describe_family-ne_nil : (code : Text) → 1 ≤ length (describe_family code)
unfolding describe_family
describe_family-ne_nil code = ground arith

describe_code-known :
    (code : Text)
    → describe_code code
      ≡ describe_known
          (find_text (to_upper (trim_space code)) code_descriptions)
          (to_upper (trim_space code))
unfolding describe_code
describe_code-known code = refl

describe_known-ne_nil :
    (o : Option Text) (code : Text)
    → ((d : Text) → o ≡ some d → 1 ≤ length d)
    → 1 ≤ length (describe_known o code)
unfolding describe_known
describe_known-ne_nil none code h = describe_family-ne_nil code
describe_known-ne_nil (some d) code h = h d refl

-- A description is never empty, whatever the code.
describe_code-ne_nil : (code : Text) → 1 ≤ length (describe_code code)
describe_code-ne_nil code = rw describe_code-known (
    describe_known-ne_nil _ _
      (λ d e. find_text-All (λ d. 1 ≤ length d) _ code_descriptions code_descriptions-ne_nil e))
