-- ===== src/Text/Map.antt =====
-- Maps with text keys, as lists of entries: an entry that is put replaces the one of its key.
use mechmind.Base.{
  some_inj, Bool-cases, All, ◌≡◌, refl, inl, inr, Option, none, some, List, [], ◌∷◌, if◌then◌else◌,
}
use mechmind.Text.{Text, text_eq}
use mechmind.Text.Laws.{text_eq_refl}

module _ {ℓ} {V : Type ℓ} where
  unfoldable pub get_key : Text → List (Text × V) → Option V
  unfolding text_eq
  get_key k [] = none
  get_key k ((j, v) ∷ m) = if text_eq j k then some v else get_key k m

  unfoldable pub put_key : Text → V → List (Text × V) → List (Text × V)
  unfolding text_eq
  put_key k v [] = (k, v) ∷ []
  put_key k v ((j, u) ∷ m) = if text_eq j k then (k, v) ∷ m else (j, u) ∷ put_key k v m

  unfoldable pub drop_key : Text → List (Text × V) → List (Text × V)
  unfolding text_eq
  drop_key k [] = []
  drop_key k ((j, v) ∷ m) = let rest = drop_key k m in if text_eq j k then rest else (j, v) ∷ rest

  pub get_key-put_key :
      (k : Text) (v : V) (m : List (Text × V)) → get_key k (put_key k v m) ≡ some v
  unfolding get_key put_key
  get_key-put_key k v [] = rw (text_eq_refl k) refl
  get_key-put_key k v ((j, u) ∷ m) = elim (Bool-cases (text_eq j k)) [
    | inl same ↦ rw (same, text_eq_refl k) refl
    | inr other ↦ rw (other, other) (get_key-put_key k v m)
  ]

  -- A property of every value.
  abbrev pub AllValues {κ} : (V → Type κ) → List (Text × V) → Type κ
  AllValues P m = All (λ (e : Text × V). P e.1) m

  pub put_key-AllValues {κ} :
      (P : V → Type κ) (k : Text) (v : V) (m : List (Text × V))
      → P v
      → AllValues P m
      → AllValues P (put_key k v m)
  unfolding put_key
  put_key-AllValues P k v [] p h = (p, tt)
  put_key-AllValues P k v ((j, u) ∷ m) p (pu, h) = elim (Bool-cases (text_eq j k)) [
    | inl same ↦ rw same (p, h)
    | inr other ↦ rw other (pu, put_key-AllValues P k v m p h)
  ]

  pub drop_key-AllValues {κ} :
      (P : V → Type κ) (k : Text) (m : List (Text × V)) → AllValues P m → AllValues P (drop_key k m)
  unfolding drop_key
  drop_key-AllValues P k [] h = tt
  drop_key-AllValues P k ((j, u) ∷ m) (pu, h) = elim (Bool-cases (text_eq j k)) [
    | inl same ↦ rw same (drop_key-AllValues P k m h)
    | inr other ↦ rw other (pu, drop_key-AllValues P k m h)
  ]

  pub get_key-AllValues {κ} :
      (P : V → Type κ) (k : Text) (m : List (Text × V)) (v : V)
      → AllValues P m
      → get_key k m ≡ some v
      → P v
  unfolding get_key
  get_key-AllValues P k [] v h e = cc
  get_key-AllValues P k ((j, u) ∷ m) v (pu, h) e = elim (Bool-cases (text_eq j k)) [
    | inl same ↦ rw⁻¹ (some_inj (rw same at e)) pu
    | inr other ↦ get_key-AllValues P k m v h (rw other at e)
  ]
