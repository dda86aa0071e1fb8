-- ===== src/Store/Knowledge/Private/Methods.antt =====
-- The methods that are limited to one organization (internal/store/store.go: ListScansByVIN,
-- LatestDTCsForVIN, LatestObservationsForVIN, ExplainCode).
use mechmind.Base.{
  Bool-cases, ◌∙◌, ℕ, take, zero, suc, ◌≡◌, refl, ap, inl, inr, ◌||◌, Option, none, some, List, [],
  ◌∷◌, map,
}
use mechmind.Base.Int.{ℤ, pos, negsuc}
use mechmind.Base.Float.{Floats}
use mechmind.Text.{Text, text_eq}
use mechmind.Store.{Stored, erred, holds}
use mechmind.Store.Accounts.{or_missing}
use mechmind.Store.Tables.{Tables, Server, Kept, query}
use mechmind.Store.Sessions.{first_row, scan_record, limit_or, rows_by_vin}
use mechmind.Store.Sessions.Read.{
  with_dtcs, list_dtcs, fill_dtcs, list_scans_by_vin, latest_observations, latest_dtcs,
}
use mechmind.Store.Recalls.{get_enrichment, list_recalls_for_vehicle, list_recalls_mmy}
use mechmind.Store.Knowledge.{Identity, identity_of, article_for, history_hit, history_rows}
use mechmind.Store.Knowledge.Explain.{
  looked_up, recalls_in, or_nothing, or_empty, or_when_empty, recalls_of, background_of, background,
  co_row, co_occurrence, observations_of, explain_code,
}
use mechmind.Store.Knowledge.Private.{
  own, IsPrivate, rows_by_vin-own, history_rows-own, co_occurring-own, and_then-IsPrivate,
  query-IsPrivate,
}
use mechmind.Api.{ScanRecord}

-- What is made of a failed query.
or_nothing-IsPrivate :
    {A : Type 0} (org : Text) (m : Kept A)
    → or_nothing (m.0, own org m.1) ≡ ((or_nothing m).0, own org (or_nothing m).1)
or_nothing-IsPrivate org (erred e, t) = refl
or_nothing-IsPrivate org (holds a, t) = refl

or_empty-IsPrivate :
    {A : Type 0} (org : Text) (m : Kept (List A))
    → or_empty (m.0, own org m.1) ≡ ((or_empty m).0, own org (or_empty m).1)
or_empty-IsPrivate org (erred e, t) = refl
or_empty-IsPrivate org (holds a, t) = refl

or_when_empty-IsPrivate :
    {A : Type 0} (org : Text) (m : Kept (List A)) (k : Tables → Kept (List A))
    → IsPrivate org k
    → or_when_empty (m.0, own org m.1) k ≡ ((or_when_empty m k).0, own org (or_when_empty m k).1)
unfolding IsPrivate
or_when_empty-IsPrivate org (erred e, t) k h = h t
or_when_empty-IsPrivate org (holds [], t) k h = h t
or_when_empty-IsPrivate org (holds (x ∷ xs), t) k h = refl

module _ {F : Type 0} (G : Server F) (org : Text) where
  -- A query that reads the same.
  select-IsPrivate :
      {A : Type 0} (f : Tables → Stored A)
      → ((t : Tables) → f (own org t) ≡ f t)
      → IsPrivate org (query G (λ u. (f u, u)))
  unfolding IsPrivate
  select-IsPrivate f same = query-IsPrivate G org (λ u. (f u, u)) λ t. rw (same t) refl

  list_dtcs-IsPrivate : (id : Text) → IsPrivate org (list_dtcs G id)
  unfolding list_dtcs own
  list_dtcs-IsPrivate id = select-IsPrivate _ λ t. refl

  with_dtcs-IsPrivate : (r : ScanRecord F) → IsPrivate org (with_dtcs G r)
  unfolding with_dtcs IsPrivate
  with_dtcs-IsPrivate r t =
      and_then-IsPrivate org (list_dtcs G r.id t) _ _ (list_dtcs-IsPrivate r.id t) λ ds u. refl

  fill_dtcs-IsPrivate : (rs : List (ScanRecord F)) → IsPrivate org (fill_dtcs G rs)
  unfolding fill_dtcs IsPrivate
  fill_dtcs-IsPrivate [] t = refl
  fill_dtcs-IsPrivate (r ∷ rs) t =
      and_then-IsPrivate org (with_dtcs G r t) _ _ (with_dtcs-IsPrivate r t) λ s u.
        and_then-IsPrivate org (fill_dtcs G rs u) _ _ (fill_dtcs-IsPrivate rs u) λ more w. refl

  list_scans_by_vin-IsPrivate :
      (vin : Text) (limit : ℕ) → IsPrivate org (list_scans_by_vin G vin (some org) limit)
  unfolding list_scans_by_vin IsPrivate
  list_scans_by_vin-IsPrivate vin limit t =
      and_then-IsPrivate org
        (query G (λ u. (holds (take (limit_or 20 limit) (rows_by_vin vin (some org) u)), u)) t) _ _
        (select-IsPrivate _
          (λ u. ap (λ rows. holds (take (limit_or 20 limit) rows)) (rows_by_vin-own vin org u)) t)
        λ rows u. fill_dtcs-IsPrivate (map scan_record rows) u

  latest_dtcs-IsPrivate : (vin : Text) → IsPrivate org (latest_dtcs G vin (some org))
  unfolding latest_dtcs IsPrivate
  latest_dtcs-IsPrivate vin t =
      and_then-IsPrivate org
        (query G (λ u. (or_missing (first_row (rows_by_vin vin (some org) u)), u)) t) _ _
        (select-IsPrivate _
          (λ u. ap (λ rows. or_missing (first_row rows)) (rows_by_vin-own vin org u)) t)
        λ p u. list_dtcs-IsPrivate p.0.id u

  latest_observations-IsPrivate :
      (vin : Text) → IsPrivate org (latest_observations G vin (some org))
  unfolding latest_observations IsPrivate
  latest_observations-IsPrivate vin t =
      select-IsPrivate _ (λ u. rw (rows_by_vin-own vin org u) refl) t

module _ (R : Floats) (G : Server R.F) (org : Text) where
  open R use {F}

  looked_up-IsPrivate : (i : Identity) (year : ℤ) → IsPrivate org (looked_up R G i year)
  unfolding looked_up IsPrivate list_recalls_for_vehicle list_recalls_mmy own
  looked_up-IsPrivate i year t =
      ap (λ m. or_when_empty m (λ u. or_empty (list_recalls_mmy G i.make i.model year u)))
        (select-IsPrivate G org _ (λ u. refl) t)
      ∙ or_when_empty-IsPrivate org (list_recalls_for_vehicle G i.id t) _ λ u.
        ap or_empty (select-IsPrivate G org _ (λ w. refl) u)
        ∙ or_empty-IsPrivate org (list_recalls_mmy G i.make i.model year u)

  recalls_in-IsPrivate : (i : Identity) (y : Option ℤ) → IsPrivate org (recalls_in R G i y)
  unfolding recalls_in IsPrivate
  recalls_in-IsPrivate i none t = refl
  recalls_in-IsPrivate i (some (negsuc y)) t = refl
  recalls_in-IsPrivate i (some (pos zero)) t = refl
  recalls_in-IsPrivate i (some (pos (suc y))) t =
      elim (Bool-cases (text_eq i.make [] || text_eq i.model [])) [
        | inl unnamed ↦ rw unnamed refl
        | inr full ↦ rw full (looked_up-IsPrivate i (pos (suc y)) t)
      ]

  recalls_of-IsPrivate : (i : Identity) → IsPrivate org (recalls_of R G i)
  unfolding recalls_of IsPrivate
  recalls_of-IsPrivate i t = recalls_in-IsPrivate i i.year t

  background_of-IsPrivate : (o : Option Identity) → IsPrivate org (background_of R G o)
  unfolding background_of IsPrivate get_enrichment own
  background_of-IsPrivate none t = refl
  background_of-IsPrivate (some i) t =
      and_then-IsPrivate org (or_nothing (get_enrichment G i.id t)) _ _
        (ap or_nothing (select-IsPrivate G org _ (λ u. refl) t)
          ∙ or_nothing-IsPrivate org (get_enrichment G i.id t))
        λ e u.
          and_then-IsPrivate org (recalls_of R G i u) _ _ (recalls_of-IsPrivate i u) λ rs w. refl

  background-IsPrivate : (vin : Text) → IsPrivate org (background R G vin)
  unfolding background IsPrivate identity_of own
  background-IsPrivate [] t = refl
  background-IsPrivate (c ∷ cs) t =
      let run = query G (λ u. (or_missing (identity_of (c ∷ cs) u), u)) in
      and_then-IsPrivate org (or_nothing (run t)) _ _
        (ap or_nothing (select-IsPrivate G org _ (λ u. refl) t) ∙ or_nothing-IsPrivate org (run t))
        λ i u. background_of-IsPrivate i u

  co_occurrence-IsPrivate :
      (focus : Text) (limit : ℕ) → IsPrivate org (co_occurrence R G focus (some org) limit)
  unfolding co_occurrence IsPrivate
  co_occurrence-IsPrivate focus limit t =
      select-IsPrivate G org _
        (λ u.
          ap (λ (c : ℕ × List (Text × ℕ)). holds (map (co_row R G c.0) c.1))
            (co_occurring-own G focus org (limit_or 5 limit) u))
        t

  observations_of-IsPrivate : (vin : Text) → IsPrivate org (observations_of R G vin (some org))
  unfolding observations_of IsPrivate
  observations_of-IsPrivate [] t = refl
  observations_of-IsPrivate (c ∷ cs) t =
      ap or_nothing (latest_observations-IsPrivate G org (c ∷ cs) t)
      ∙ or_nothing-IsPrivate org (latest_observations G (c ∷ cs) (some org) t)

  explain_code-IsPrivate : (code vin : Text) → IsPrivate org (explain_code R G code vin (some org))
  unfolding explain_code IsPrivate article_for own
  explain_code-IsPrivate code vin t =
      and_then-IsPrivate org (background R G vin t) _ _ (background-IsPrivate vin t) λ b t1.
        and_then-IsPrivate org
          (query G (λ (u : Tables). (holds (article_for G code b.make b.model u), u)) t1) _ _
          (select-IsPrivate G org _ (λ u. refl) t1)
          λ article t2.
            and_then-IsPrivate org
              (query G
                (λ (u : Tables).
                  (holds (map (history_hit G) (history_rows code vin (some org) u)), u))
                t2)
              _ _
              (select-IsPrivate G org _
                (λ u.
                  ap (λ rows. holds (map (history_hit G) rows)) (history_rows-own code vin org u))
                t2)
              λ history t3.
                and_then-IsPrivate org (observations_of R G vin (some org) t3) _ _
                  (observations_of-IsPrivate vin t3)
                  λ obs t4.
                    and_then-IsPrivate org (or_empty (co_occurrence R G code (some org) 5 t4)) _ _
                      (ap or_empty (co_occurrence-IsPrivate code 5 t4)
                        ∙ or_empty-IsPrivate org (co_occurrence R G code (some org) 5 t4))
                      λ co t5. refl

  -- To an organization, the scans of the others make no difference: with its filter, the list of
  -- scans, the latest codes, the latest observations and the explanation of a code are the same
  -- without them, and so is what is done to the tables.
  pub queries-IsPrivate :
      (code vin : Text) (limit : ℕ)
      → IsPrivate org (list_scans_by_vin G vin (some org) limit)
        × IsPrivate org (latest_dtcs G vin (some org))
        × IsPrivate org (latest_observations G vin (some org))
        × IsPrivate org (explain_code R G code vin (some org))
  queries-IsPrivate code vin limit = (
    list_scans_by_vin-IsPrivate G org vin limit,
    latest_dtcs-IsPrivate G org vin,
    latest_observations-IsPrivate G org vin,
    explain_code-IsPrivate code vin,
  )
