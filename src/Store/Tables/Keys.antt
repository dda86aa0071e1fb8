-- ===== src/Store/Tables/Keys.antt =====
-- Primary keys and references of rows.
use mechmind.Base.{
  some_inj, some_none, ◌∙◌, ◌∙◌, All, All-imp, All-append, Bool-cases, ◌≡◌, refl, sym, inl, inr,
  Bool, true, none, some, List, [], ◌∷◌, ◌++◌,
}
use mathlib.Core.Path.{subst}
use mechmind.Text.{Text, text_eq}
use mechmind.Text.Laws.{text_eq_refl}
use mechmind.Store.Accounts.{find_row}

module _ {A : Type 0} (key : A → Text) where
  unfoldable pub with_key : Text → A → Bool
  unfolding text_eq
  with_key k x = text_eq (key x) k

  -- Each row is the first with its key.
  abbrev pub Keyed : List A → Type 0
  Keyed xs = All (λ x. find_row (with_key (key x)) xs ≡ some x) xs

  -- Some row has the key.
  abbrev pub HasKey : List A → Text → Type 0
  HasKey xs k = (x : A) × (find_row (with_key k) xs ≡ some x)

module _ {A : Type 0} (p : A → Bool) where
  pub find_row-append :
      (xs ys : List A) (a : A) → find_row p xs ≡ some a → find_row p (xs ++ ys) ≡ some a
  find_row-append [] ys a h = some_none h
  find_row-append (x ∷ xs) ys a h = elim (Bool-cases (p x)) [
    | inl hit ↦ rw hit (rw hit at h)
    | inr miss ↦ rw miss (find_row-append xs ys a (rw miss at h))
  ]

  pub find_row-later :
      (xs ys : List A) → find_row p xs ≡ none → find_row p (xs ++ ys) ≡ find_row p ys
  find_row-later [] ys h = refl
  find_row-later (x ∷ xs) ys h = elim (Bool-cases (p x)) [
    | inl hit ↦ some_none (sym (rw hit at h))
    | inr miss ↦ rw miss (find_row-later xs ys (rw miss at h))
  ]

  pub find_row-passes : (xs : List A) (a : A) → find_row p xs ≡ some a → p a ≡ true
  find_row-passes [] a h = some_none h
  find_row-passes (x ∷ xs) a h = elim (Bool-cases (p x)) [
    | inl hit ↦ rw (sym (some_inj (rw hit at h))) hit
    | inr miss ↦ find_row-passes xs a (rw miss at h)
  ]

  pub find_row-All {κ} :
      (P : A → Type κ) (xs : List A) (a : A) → All P xs → find_row p xs ≡ some a → P a
  find_row-All P [] a h e = some_none e
  find_row-All P (x ∷ xs) a (px, h) e = elim (Bool-cases (p x)) [
    | inl hit ↦ subst P (some_inj (rw hit at e)) px
    | inr miss ↦ find_row-All P xs a h (rw miss at e)
  ]

module _ {A : Type 0} (key : A → Text) where
  pub with_key_self : (x : A) (ys : List A) → find_row (with_key key (key x)) (x ∷ ys) ≡ some x
  unfolding with_key
  with_key_self x ys = rw (text_eq_refl (key x)) refl

  pub HasKey-append : (xs ys : List A) (k : Text) → HasKey key xs k → HasKey key (xs ++ ys) k
  HasKey-append xs ys k (x, h) = (x, find_row-append (with_key key k) xs ys x h)

  -- A row with a new key keeps the keys.
  pub Keyed-append :
      (xs : List A) (x : A)
      → Keyed key xs
      → find_row (with_key key (key x)) xs ≡ none
      → Keyed key (xs ++ x ∷ [])
  Keyed-append xs x keyed fresh =
      All-append (λ y. find_row (with_key key (key y)) (xs ++ x ∷ []) ≡ some y) xs (x ∷ [])
        (All-imp (λ y. find_row (with_key key (key y)) xs ≡ some y)
          (λ y. find_row (with_key key (key y)) (xs ++ x ∷ []) ≡ some y)
          (λ y h. find_row-append (with_key key (key y)) xs (x ∷ []) y h) xs keyed)
        (find_row-later (with_key key (key x)) xs (x ∷ []) fresh ∙ with_key_self x [], tt)
