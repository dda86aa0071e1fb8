-- ===== src/Enrichment/Decode/Vehicle.antt =====
-- What is kept of a decoded VIN (internal/enrichment/worker.go: vinDecode).
use mathlib.Core.Path.{subst}
use mechmind.Base.{
  ◌∙◌, ℕ, All, Bool-cases, keep, zero, suc, ◌≡◌, refl, sym, ap, inl, inr, Bool, true, false, ◌||◌,
  none, some, List, [], ◌∷◌,
}
use mechmind.Base.Int.{pos, eq_ℤ}
use mechmind.Text.{Text, codes, text_eq}
use mechmind.Text.Laws.{text_eq_refl}
use mechmind.Store.{erred, holds}
use mechmind.Store.Accounts.{find_row}
use mechmind.Store.Tables.{RecallCatalogRow, VehicleEnrichment, Tables, Server, Kept}
use mechmind.Store.Recalls.{
  or_source, upsert_identity, upsert_enrichment, attach_recalls, enriches, put_row, or_source,
  is_for,
}
use mechmind.Store.Recalls.Attach.{Attached, HasRecall, attach_rows-HasRecall}
use mechmind.Store.Tables.Gives.{Gives, query-Gives}
use mechmind.Enrichment.{Queue, Service}
use mechmind.Enrichment.Market.{in_market_scope}
use mechmind.Enrichment.Nhtsa.{LeanVin}
use mechmind.Enrichment.Decode.Identity.{
  IsRowOf, IsIdentified, enrichment_row-IsRowOf, identify_rows-IsIdentified, unmarked-IsRowOf,
  unmarked-IsIdentified,
}
use mechmind.Enrichment.Decode.{
  MmyPayload, JobJson, Done, or_stop, ask_recalls, attach_for, keep_vin, marked, engine_of,
  enrichment_row, mmy_of,
}

put_row-find_row :
    {A : Type 0} (p : A → Bool) (x : A) (ys : List A)
    → p x ≡ true
    → find_row p (put_row p (λ old. x) x ys) ≡ some x
put_row-find_row p x [] h = rw h refl
put_row-find_row p x (y ∷ ys) h = elim (Bool-cases (p y)) [
  | inl hit ↦ rw (hit, h) refl
  | inr miss ↦ rw (miss, miss) (put_row-find_row p x ys h)
]

-- What holds where the work is done without an error.
abbrev pub Stops : (Queue × Tables → Type 0) → Done → Type 0
Stops P (some e, s) = Unit
Stops P (none, s) = P s

Stops-imp :
    (P Q : Queue × Tables → Type 0) (m : Done)
    → Stops P m
    → ((s : Queue × Tables) → P s → Q s)
    → Stops Q m
Stops-imp P Q (some e, s) p f = tt
Stops-imp P Q (none, s) p f = f s p

or_stop-Stops :
    {A : Type 0} (P : A → Tables → Type 0) (Q : Queue × Tables → Type 0) (m : Kept A) (q : Queue)
    → (k : A → Tables → Done) → Gives P m
    → ((a : A) (t : Tables) → P a t → Stops Q (k a t))
    → Stops Q (or_stop m q k)
or_stop-Stops P Q (erred e, t) q k p f = tt
or_stop-Stops P Q (holds a, t) q k p f = f a t p

module _ {F : Type 0} (G : Server F) where
  -- In the market all recalls of the catalog for the make, the model and the year are the
  -- vehicle's; outside of it the queue and the vehicle's recalls are as before.
  pub IsScoped : Bool → Text → MmyPayload → Queue × Tables → Queue × Tables → Type 0
  IsScoped true id p (q, t) (q1, t1) =
      All (HasRecall id t1.vehicle_recalls) (keep (is_for G p.make p.model p.year) t.catalog)
  IsScoped false id p (q, t) (q1, t1) = (q1 ≡ q) × (t1.vehicle_recalls ≡ t.vehicle_recalls)

  -- The vehicle is known as it was decoded, and its recalls are those of its market.
  pub IsDecoded : Text → Text → LeanVin → Queue × Tables → Queue × Tables → Type 0
  IsDecoded id raw lean (q, t) (q1, t1) =
      ((e : VehicleEnrichment) × (find_row (enriches id) t1.enrichments ≡ some e)
        × IsRowOf id lean e)
      × IsIdentified id lean t.vehicles t1.vehicles
      × IsScoped (in_market_scope lean.make lean.year) id (mmy_of raw lean) (q, t) (q1, t1)

  -- Rows that are as before.
  Keeps : Tables → Tables → Type 0
  Keeps t u = (u.catalog ≡ t.catalog) × (u.vehicle_recalls ≡ t.vehicle_recalls)

  -- What is known of the vehicles is as before.
  SameKnown : Tables → Tables → Type 0
  SameKnown t u = (u.enrichments ≡ t.enrichments) × (u.vehicles ≡ t.vehicles)

module _ {F : Type 0} (G : Server F) (V : Service) (P : JobJson) where
  upsert_identity-Keeps :
      (id : Text) (v : LeanVin) (t : Tables)
      → Gives
          (λ _ u. IsIdentified id v t.vehicles u.vehicles × Keeps G t u)
          (upsert_identity G id v.make v.model v.year (engine_of v) t)
  unfolding upsert_identity Keeps
  upsert_identity-Keeps id v t =
      query-Gives G (λ _ u. IsIdentified id v t.vehicles u.vehicles × Keeps G t u) _ t
        (identify_rows-IsIdentified id v t.vehicles, (refl, refl))

  upsert_enrichment-Keeps :
      (e : VehicleEnrichment) (t : Tables)
      → or_source e.source (codes "nhtsa_vpic") ≡ e.source
      → Gives
          (λ _ u.
            (find_row (enriches e.vehicle_id) u.enrichments ≡ some e)
            × (u.vehicles ≡ t.vehicles)
            × Keeps G t u)
          (upsert_enrichment G e t)
  unfolding upsert_enrichment Keeps enriches
  upsert_enrichment-Keeps e t same =
      query-Gives G
        (λ _ u.
          (find_row (enriches e.vehicle_id) u.enrichments ≡ some e)
          × (u.vehicles ≡ t.vehicles)
          × Keeps G t u)
        _ t
        (
          rw same (
              put_row-find_row (enriches e.vehicle_id) e t.enrichments (text_eq_refl e.vehicle_id)),
          refl,
          (refl, refl),
        )

  ask_recalls-Stops :
      (p : MmyPayload) (n : ℕ) (q : Queue) (t : Tables)
      → Stops (λ s. s.1 ≡ t) (ask_recalls G V P p n q t)
  unfolding ask_recalls
  ask_recalls-Stops p zero q t = refl
  ask_recalls-Stops p (suc n) q t = refl

  attach_recalls-Gives :
      (id : Text) (p : MmyPayload) (t : Tables)
      → Gives
          (λ n u.
            (All (HasRecall id u.vehicle_recalls) (keep (is_for G p.make p.model p.year) t.catalog))
            × SameKnown G t u)
          (attach_recalls G id p.make p.model p.year t)
  unfolding attach_recalls Attached SameKnown
  attach_recalls-Gives id p t =
      query-Gives G
        (λ n u.
          (All (HasRecall id u.vehicle_recalls) (keep (is_for G p.make p.model p.year) t.catalog))
          × SameKnown G t u)
        _ t
        (
          (attach_rows-HasRecall id (keep (is_for G p.make p.model p.year) t.catalog)
              t.vehicle_recalls).1,
          (refl, refl),
        )

  attach_for-Stops :
      (id : Text) (p : MmyPayload) (q : Queue) (t : Tables)
      → Stops
          (λ s. SameKnown G t s.1 × IsScoped G (in_market_scope p.make p.year) id p (q, t) s)
          (attach_for G V P id p q t)
  unfolding attach_for IsScoped SameKnown
  attach_for-Stops id p q t = elim (Bool-cases (in_market_scope p.make p.year)) [
    | inl inside ↦ rw inside (
        or_stop-Stops
          (λ n u.
            (All (HasRecall id u.vehicle_recalls) (keep (is_for G p.make p.model p.year) t.catalog))
            × SameKnown G t u)
          _ (attach_recalls G id p.make p.model p.year t) q _ (attach_recalls-Gives id p t)
          λ n u (all, same).
            Stops-imp (λ s. s.1 ≡ u) _ (ask_recalls G V P p n q u) (ask_recalls-Stops p n q u)
              λ s e. (
                subst (SameKnown G t) (sym e) same,
                subst
                    (λ (w : Tables).
                      All (HasRecall id w.vehicle_recalls)
                        (keep (is_for G p.make p.model p.year) t.catalog))
                    (sym e) all,
              ))
    | inr beyond ↦ rw beyond ((refl, refl), (refl, refl))
  ]

  IsScoped-Keeps :
      (b : Bool) (id : Text) (p : MmyPayload) (q : Queue) (t u : Tables) (s : Queue × Tables)
      → Keeps G t u
      → IsScoped G b id p (q, u) s
      → IsScoped G b id p (q, t) s
  unfolding IsScoped Keeps
  IsScoped-Keeps true id p q t u (q1, t1) (same, rows) h =
      subst
        (λ (rs : List RecallCatalogRow).
          All (HasRecall id t1.vehicle_recalls) (keep (is_for G p.make p.model p.year) rs))
        same h
  IsScoped-Keeps false id p q t u (q1, t1) (same, rows) (h, k) = (h, k ∙ rows)

  kept-IsDecoded :
      (id raw : Text) (v : LeanVin) (q : Queue) (t : Tables)
      → Stops (IsDecoded G id raw v (q, t)) (
          or_stop (upsert_identity G id v.make v.model v.year (engine_of v) t) q λ _ t1.
            or_stop
              (upsert_enrichment G (enrichment_row id v) t1)
              q
              λ _ t2. attach_for G V P id (mmy_of raw v) q t2)
  unfolding IsDecoded enrichment_row Keeps SameKnown
  kept-IsDecoded id raw v q t =
      or_stop-Stops (λ _ u. IsIdentified id v t.vehicles u.vehicles × Keeps G t u) _
        (upsert_identity G id v.make v.model v.year (engine_of v) t) q _
        (upsert_identity-Keeps id v t)
        λ _ t1 (named, (same, rows)).
          or_stop-Stops
            (λ _ u.
              (find_row (enriches id) u.enrichments ≡ some (enrichment_row id v))
              × (u.vehicles ≡ t1.vehicles)
              × Keeps G t1 u)
            _ (upsert_enrichment G (enrichment_row id v) t1) q _
            (upsert_enrichment-Keeps (enrichment_row id v) t1 refl)
            λ _ t2 (found, vehicles, (same2, rows2)).
              Stops-imp
                (λ s.
                  SameKnown G t2 s.1
                  × IsScoped G (in_market_scope v.make v.year) id (mmy_of raw v) (q, t2) s)
                _ (attach_for G V P id (mmy_of raw v) q t2)
                (attach_for-Stops id (mmy_of raw v) q t2)
                λ s ((rest, more), scoped). (
                  (
                    enrichment_row id v,
                    ap (find_row (enriches id)) rest ∙ found,
                    enrichment_row-IsRowOf id v,
                  ),
                  subst (IsIdentified id v t.vehicles) (sym (more ∙ vehicles)) named,
                  IsScoped-Keeps (in_market_scope v.make v.year) id (mmy_of raw v) q t t2 s
                      (same2 ∙ same, rows2 ∙ rows) scoped,
                )

  -- The mark of an incomplete answer leaves what is put down as it is.
  unmarked-IsDecoded :
      (id raw mark : Text) (lean : LeanVin) (before after : Queue × Tables)
      → IsDecoded G id raw (record lean { error_text = mark }) before after
      → IsDecoded G id raw lean before after
  unfolding IsDecoded
  unmarked-IsDecoded id raw mark lean (q, t) (q1, t1) ((e, found, row), named, scoped) = (
    (e, found, unmarked-IsRowOf id mark lean e row),
    unmarked-IsIdentified id mark lean t.vehicles t1.vehicles named,
    scoped,
  )

  -- Where a decoded VIN is kept without an error, a row of exactly what was decoded is found for
  -- the
  -- vehicle, its make, model, year and engine are those that were decoded, or the known ones where
  -- these are empty, and the other vehicles are as they were; in the market it has every recall of
  -- the catalog for its make, model and year, and outside of it its recalls and the queue are as
  -- they
  -- were.
  pub keep_vin-IsDecoded :
      (id raw : Text) (lean : LeanVin) (q : Queue) (t : Tables)
      → Stops (IsDecoded G id raw lean (q, t)) (keep_vin G V P id raw lean q t)
  unfolding keep_vin marked enrichment_row
  keep_vin-IsDecoded id raw lean q t =
      elim (Bool-cases (text_eq lean.model [] || eq_ℤ lean.year (pos 0))) [
        | inl partial ↦
            let v : LeanVin = record lean { error_text = codes "incomplete_vpic" } in
            rw partial (
              Stops-imp (IsDecoded G id raw v (q, t)) (IsDecoded G id raw lean (q, t)) _
                (kept-IsDecoded id raw v q t)
                λ s h. unmarked-IsDecoded id raw (codes "incomplete_vpic") lean (q, t) s h)
        | inr whole ↦ rw whole (kept-IsDecoded id raw lean q t)
      ]
