-- ===== src/Base/Sort.antt =====
-- Sorting by insertion, as ORDER BY does it, and its laws. `le` tells whether the first of two rows
-- may stand before the second.
use mechmind.Base.Lists.{length, All, All-imp}
use mechmind.Base.Tests.{Bool-cases, if◌then◌else◌}
use Prim.Native.Nat.{suc}
use mathlib.Core.Path.{◌≡◌, refl, subst}
use mathlib.Core.Logic.{inl, inr}
use mathlib.Core.Bool.{Bool, true, false}
use mathlib.Core.List.{List, [], ◌∷◌}
use native.Mathlib.Omega.{arith}

module _ {ℓ} {A : Type ℓ} (le : A → A → Bool) where
  unfoldable pub insert_by : A → List A → List A
  insert_by x [] = x ∷ []
  insert_by x (y ∷ ys) = let rest = insert_by x ys in if le x y then x ∷ y ∷ ys else y ∷ rest

  -- Rows of equal rank stay in their order.
  unfoldable pub sort_by : List A → List A
  unfolding insert_by
  sort_by [] = []
  sort_by (x ∷ xs) = insert_by x (sort_by xs)

  -- Each row may stand before all that follow it.
  abbrev pub IsSorted : List A → Type ℓ
  IsSorted [] = Unit
  IsSorted (x ∷ xs) = All (λ y. le x y ≡ true) xs × IsSorted xs

  insert_by-All {κ} :
      (P : A → Type κ) (x : A) (xs : List A) → P x → All P xs → All P (insert_by x xs)
  unfolding insert_by
  insert_by-All P x [] px h = (px, tt)
  insert_by-All P x (y ∷ ys) px (py, h) = elim (Bool-cases (le x y)) [
    | inl first ↦ rw first (px, (py, h))
    | inr later ↦ rw later (py, insert_by-All P x ys px h)
  ]

  pub sort_by-All {κ} : (P : A → Type κ) (xs : List A) → All P xs → All P (sort_by xs)
  unfolding sort_by
  sort_by-All P [] h = tt
  sort_by-All P (x ∷ xs) (px, h) = insert_by-All P x (sort_by xs) px (sort_by-All P xs h)

  insert_by-All_inv {κ} :
      (P : A → Type κ) (x : A) (xs : List A) → All P (insert_by x xs) → P x × All P xs
  unfolding insert_by
  insert_by-All_inv P x [] (px, h) = (px, tt)
  insert_by-All_inv P x (y ∷ ys) h = elim (Bool-cases (le x y)) [
    | inl first ↦ let (px, (py, k)) = subst (All P) (at_front first) h in (px, (py, k))
    | inr later ↦
        let (py, k) = subst (All P) (further later) h in
        let (px, m) = insert_by-All_inv P x ys k in (px, (py, m))
  ]
    where
      at_front : le x y ≡ true → insert_by x (y ∷ ys) ≡ x ∷ y ∷ ys
      at_front e = rw e refl

      further : le x y ≡ false → insert_by x (y ∷ ys) ≡ y ∷ insert_by x ys
      further e = rw e refl

  pub sort_by-All_inv {κ} : (P : A → Type κ) (xs : List A) → All P (sort_by xs) → All P xs
  unfolding sort_by
  sort_by-All_inv P [] h = tt
  sort_by-All_inv P (x ∷ xs) h =
      let (px, k) = insert_by-All_inv P x (sort_by xs) h in (px, sort_by-All_inv P xs k)

  length-insert_by : (x : A) (xs : List A) → length (insert_by x xs) ≡ suc (length xs)
  unfolding insert_by
  length-insert_by x [] = refl
  length-insert_by x (y ∷ ys) = ground (arith, length-insert_by x ys)

  pub length-sort_by : (xs : List A) → length (sort_by xs) ≡ length xs
  unfolding sort_by
  length-sort_by [] = refl
  length-sort_by (x ∷ xs) = ground (arith, length-insert_by x (sort_by xs), length-sort_by xs)

  module _ (total : (x y : A) → le x y ≡ false → le y x ≡ true)
      (trans : (x y z : A) → le x y ≡ true → le y z ≡ true → le x z ≡ true) where
    insert_by-IsSorted : (x : A) (xs : List A) → IsSorted xs → IsSorted (insert_by x xs)
    unfolding insert_by
    insert_by-IsSorted x [] s = (tt, tt)
    insert_by-IsSorted x (y ∷ ys) (below, s) = elim (Bool-cases (le x y)) [
      | inl first ↦ rw first (
        (
          first,
          All-imp (λ z. le y z ≡ true) (λ z. le x z ≡ true) (λ z h. trans x y z first h) ys below,
        ),
        (below, s),
      )
      | inr later ↦ rw later (
        insert_by-All (λ z. le y z ≡ true) x ys (total x y later) below,
        insert_by-IsSorted x ys s,
      )
    ]

    pub sort_by-IsSorted : (xs : List A) → IsSorted (sort_by xs)
    unfolding sort_by
    sort_by-IsSorted [] = tt
    sort_by-IsSorted (x ∷ xs) = insert_by-IsSorted x (sort_by xs) (sort_by-IsSorted xs)
