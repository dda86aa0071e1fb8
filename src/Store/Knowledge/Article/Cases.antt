-- ===== src/Store/Knowledge/Article/Cases.antt =====
-- The tests of the CASE that ranks articles (internal/store/store.go: ExplainCode).
use mechmind.Base.{
  ℕ, not, ◌||◌, ◌⊎◌, inl, inr, Bool-cases, if◌then◌else◌, ◌≤◌, ◌≡◌, refl, Bool, true, false, arith,
}
use mechmind.Text.{Text, text_eq}
use mechmind.Text.Laws.{text_eq_iff}

pub either : (a b : Bool) → a || b ≡ true → (a ≡ true) ⊎ (b ≡ true)
either true b h = inl refl
either false b h = inr h

pub or-left : (a b : Bool) → a ≡ true → a || b ≡ true
or-left a b h = rw h refl

pub or-right : (a b : Bool) → b ≡ true → a || b ≡ true
or-right true b h = refl
or-right false b h = h

-- The rank by the three tests of CASE.
abbrev pub case_rank : Bool → Bool → Bool → ℕ
case_rank model make all = if model then 0 else if make then 1 else if all then 2 else 3

case_rank-model : (m k s : Bool) → m ≡ true → case_rank m k s ≤ 0
case_rank-model m k s h = rw h (omega arith)

case_rank-make : (m k s : Bool) → k ≡ true → case_rank m k s ≤ 1
case_rank-make true k s h = omega arith
case_rank-make false k s h = rw h (omega arith)

case_rank-all : (m k s : Bool) → s ≡ true → case_rank m k s ≤ 2
case_rank-all true k s h = omega arith
case_rank-all false true s h = omega arith
case_rank-all false false s h = rw h (omega arith)

-- What a lower rank says of the tests.
pub case_rank-tests :
    (ma ka sa mb kb sb : Bool)
    → case_rank ma ka sa ≤ case_rank mb kb sb
    → (mb ≡ true → ma ≡ true)
      × (kb ≡ true → (ma ≡ true) ⊎ (ka ≡ true))
      × (sb ≡ true → (ma ≡ true) ⊎ ((ka ≡ true) ⊎ (sa ≡ true)))
case_rank-tests true ka sa mb kb sb h = (λ e. refl, λ e. inl refl, λ e. inl refl)
case_rank-tests false true sa mb kb sb h =
    (λ e. absurd (omega (arith, h, case_rank-model mb kb sb e)), λ e. inr refl, λ e. inr (inl refl))
case_rank-tests false false true mb kb sb h = (
  λ e. absurd (omega (arith, h, case_rank-model mb kb sb e)),
  λ e. absurd (omega (arith, h, case_rank-make mb kb sb e)),
  λ e. inr (inr refl),
)
case_rank-tests false false false mb kb sb h = (
  λ e. absurd (omega (arith, h, case_rank-model mb kb sb e)),
  λ e. absurd (omega (arith, h, case_rank-make mb kb sb e)),
  λ e. absurd (omega (arith, h, case_rank-all mb kb sb e)),
)

-- A text that the test tells apart is another one.
pub not-text_eq : (s t : Text) → not (text_eq s t) ≡ true → ¬ (s ≡ t)
not-text_eq s t h e = cc (h, (text_eq_iff s t).1 e)

pub not-text_eq_inv : (s t : Text) → ¬ (s ≡ t) → not (text_eq s t) ≡ true
not-text_eq_inv s t n = elim (Bool-cases (text_eq s t)) [
  | inl same ↦ absurd (n ((text_eq_iff s t).0 same))
  | inr other ↦ rw other refl
]
