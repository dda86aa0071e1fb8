-- ===== src/Bay/Heap.antt =====
-- Positions in a list that only grows, and updates in place.
use mechmind.Base.{
  some_inj, zero, [], ap, none, suc, ◌++◌, some, ◌≡◌, Option, ◌∷◌, length, List, ℕ, All, refl,
}

module _ {ℓ} {A : Type ℓ} where
  abbrev pub at : ℕ → List A → Option A
  at i [] = none
  at zero (x ∷ xs) = some x
  at (suc i) (x ∷ xs) = at i xs

  abbrev pub update : ℕ → (A → A) → List A → List A
  update i f [] = []
  update zero f (x ∷ xs) = f x ∷ xs
  update (suc i) f (x ∷ xs) = x ∷ update i f xs

  pub at-update :
      (i : ℕ) (f : A → A) (xs : List A) (x : A)
      → at i xs ≡ some x
      → at i (update i f xs) ≡ some (f x)
  at-update i f [] x h = cc
  at-update zero f (y ∷ xs) x h = rw (some_inj h) refl
  at-update (suc i) f (y ∷ xs) x h = at-update i f xs x h

  pub length-update : (i : ℕ) (f : A → A) (xs : List A) → length (update i f xs) ≡ length xs
  length-update i f [] = refl
  length-update zero f (x ∷ xs) = refl
  length-update (suc i) f (x ∷ xs) = ap suc (length-update i f xs)

  pub at-append : (xs : List A) (x : A) → at (length xs) (xs ++ x ∷ []) ≡ some x
  at-append [] x = refl
  at-append (y ∷ xs) x = at-append xs x

  pub update-All {κ} :
      (P : A → Type κ) (i : ℕ) (f : A → A)
      → ((x : A) → P x → P (f x))
      → (xs : List A) → All P xs
      → All P (update i f xs)
  update-All P i f k [] h = tt
  update-All P zero f k (x ∷ xs) (px, h) = (k x px, h)
  update-All P (suc i) f k (x ∷ xs) (px, h) = (px, update-All P i f k xs h)

  pub update-some :
      (i k : ℕ) (f : A → A) (xs : List A)
      → ((x : A) × (at i xs ≡ some x))
      → (y : A) × (at i (update k f xs) ≡ some y)
  update-some i k f [] (x, h) = (x, h)
  update-some zero zero f (z ∷ xs) (x, h) = (f z, refl)
  update-some zero (suc k) f (z ∷ xs) (x, h) = (x, h)
  update-some (suc i) zero f (z ∷ xs) (x, h) = (x, h)
  update-some (suc i) (suc k) f (z ∷ xs) (x, h) = update-some i k f xs (x, h)
