-- ===== src/Store/Recalls/Attach.antt =====
-- Recalls are attached to a vehicle once (internal/store/enrichment.go:
-- AttachCatalogRecallsToVehicle).
use mathlib.Core.Path.{subst}
use mechmind.Base.{
  ◌∙◌, ℕ, All, Option-cases, keep, ◌≡◌, refl, sym, inl, inr, none, some, List, [], ◌∷◌, ◌++◌,
}
use mechmind.Base.Int.{ℤ}
use mechmind.Text.{Text}
use mechmind.Text.Laws.{text_eq_refl}
use mechmind.Store.{holds}
use mechmind.Store.Accounts.{find_row}
use mechmind.Store.Tables.{RecallCatalogRow, Tables, Server, query, after_query}
use mechmind.Store.Tables.Keys.{find_row-append, find_row-later}
use mechmind.Store.Tables.Gives.{Gives, query-Gives}
use mechmind.Store.Recalls.{attach_rows, is_attached, attach_recalls, is_for}

-- The vehicle has a recall of this campaign.
pub HasRecall : Text → List (Text × RecallCatalogRow) → RecallCatalogRow → Type 0
HasRecall id xs r =
    (p : Text × RecallCatalogRow) × (find_row (is_attached id r.campaign_number) xs ≡ some p)

attach_rows-old :
    (id : Text) (r : RecallCatalogRow) (rs : List RecallCatalogRow)
    → (xs : List (Text × RecallCatalogRow)) (p : Text × RecallCatalogRow)
    → find_row (is_attached id r.campaign_number) xs ≡ some p
    → (attach_rows id (r ∷ rs) xs).1 ≡ (attach_rows id rs xs).1
unfolding attach_rows
attach_rows-old id r rs xs p old = rw old refl

attach_rows-new :
    (id : Text) (r : RecallCatalogRow) (rs : List RecallCatalogRow)
    → (xs : List (Text × RecallCatalogRow)) → find_row (is_attached id r.campaign_number) xs ≡ none
    → (attach_rows id (r ∷ rs) xs).1 ≡ (attach_rows id rs (xs ++ (id, r) ∷ [])).1
unfolding attach_rows
attach_rows-new id r rs xs new = rw new refl

-- What is attached stays, and all of the rows are attached.
unfoldable pub Attached :
    Text
    → List (Text × RecallCatalogRow)
    → List RecallCatalogRow
    → List (Text × RecallCatalogRow)
    → Type 0
Attached id xs rs ys =
    ((r : RecallCatalogRow) → HasRecall id xs r → HasRecall id ys r) × All (HasRecall id ys) rs

pub attach_rows-HasRecall :
    (id : Text) (rs : List RecallCatalogRow) (xs : List (Text × RecallCatalogRow))
    → Attached id xs rs (attach_rows id rs xs).1
unfolding attach_rows HasRecall is_attached Attached
attach_rows-HasRecall id [] xs = (λ r h. h, tt)
attach_rows-HasRecall id (r ∷ rs) xs =
    elim (Option-cases (find_row (is_attached id r.campaign_number) xs)) [
      | inr (p, old) ↦
          let (stays, all) = attach_rows-HasRecall id rs xs in
          subst (Attached id xs (r ∷ rs)) (sym (attach_rows-old id r rs xs p old))
            (stays, (stays r (p, old), all))
      | inl new ↦
          let (stays, all) = attach_rows-HasRecall id rs (xs ++ (id, r) ∷ []) in
          let added : HasRecall id (xs ++ (id, r) ∷ []) r = (
            (id, r),
            find_row-later (is_attached id r.campaign_number) xs ((id, r) ∷ []) new
                ∙ rw (text_eq_refl id, text_eq_refl r.campaign_number) refl,
          ) in
          subst (Attached id xs (r ∷ rs)) (sym (attach_rows-new id r rs xs new)) (
            λ s (p, h).
                stays s
                  (p, find_row-append (is_attached id s.campaign_number) xs ((id, r) ∷ []) p h),
            (stays r added, all),
          )
    ]

attach_rows-same :
    (id : Text) (rs : List RecallCatalogRow) (xs : List (Text × RecallCatalogRow))
    → All (HasRecall id xs) rs
    → attach_rows id rs xs ≡ (0, xs)
unfolding attach_rows HasRecall is_attached
attach_rows-same id [] xs h = refl
attach_rows-same id (r ∷ rs) xs ((p, old), h) = rw (old, attach_rows-same id rs xs h) refl

-- Attaching again what has been attached adds nothing.
attach_rows-attach_rows :
    (id : Text) (rs : List RecallCatalogRow) (xs : List (Text × RecallCatalogRow))
    → attach_rows id rs (attach_rows id rs xs).1 ≡ (0, (attach_rows id rs xs).1)
unfolding Attached
attach_rows-attach_rows id rs xs =
    attach_rows-same id rs (attach_rows id rs xs).1 (attach_rows-HasRecall id rs xs).1

module _ {F : Type 0} (G : Server F) where
  open G use {postgres}

  IsAttached : Text → Text → Text → ℤ → Tables → ℕ → Tables → Type 0
  IsAttached id make model year t n u =
      (u.catalog ≡ t.catalog)
      × (u.vehicle_recalls
          ≡ (attach_rows id (keep (is_for G make model year) t.catalog) t.vehicle_recalls).1)

  -- After recalls have been attached to a vehicle, attaching them again counts none and changes no
  -- row.
  pub attach_recalls-attach_recalls :
      (id make model : Text) (year : ℤ) (t u : Tables) (n : ℕ)
      → attach_recalls G id make model year t ≡ (holds n, u)
      → postgres.fault u.statements ≡ none
      → attach_recalls G id make model year u ≡ (holds 0, after_query u)
  unfolding attach_recalls query IsAttached
  attach_recalls-attach_recalls id make model year t u n done fine =
      let (same, rows) = subst (Gives (IsAttached id make model year t)) done (attached t) in
      let still : attach_rows id (keep (is_for G make model year) u.catalog) u.vehicle_recalls
          ≡ (0, u.vehicle_recalls) =
        rw (same, rows)
          (attach_rows-attach_rows id (keep (is_for G make model year) t.catalog)
            t.vehicle_recalls) in
      rw (fine, still) refl
    where
      attached :
          (w : Tables)
          → Gives (IsAttached id make model year w) (attach_recalls G id make model year w)
      attached w = query-Gives G (IsAttached id make model year w) _ w (refl, refl)
