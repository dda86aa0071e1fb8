-- ===== src/Enrichment/Decode/Identity.antt =====
-- What is put down of a vehicle (internal/store/enrichment.go: UpsertVehicleIdentity,
-- UpsertVehicleEnrichment).
use mechmind.Base.{
  keep, ◌≡◌, refl, ap, ◌⊎◌, inl, inr, Bool, true, false, not, Option, none, some, List, [], ◌∷◌,
  map, if◌then◌else◌, zero, suc,
}
use mechmind.Base.Int.{pos, negsuc, ℤ}
use mechmind.Text.{Text, codes, text_eq}
use mechmind.Store.Accounts.{find_row}
use mechmind.Store.Tables.{Vehicle, VehicleEnrichment, has_vehicle_id}
use mechmind.Store.Recalls.{identified, or_kept, or_kept_year}
use mechmind.Enrichment.Market.{in_market_scope}
use mechmind.Enrichment.Nhtsa.{LeanVin}
use mechmind.Enrichment.Decode.{engine_of, enrichment_row}

-- What is known now is what is new, or what was known where that is empty.
pub IsKnown : Text → Option Text → Option Text → Type 0
IsKnown new old now = (¬ (new ≡ []) × (now ≡ some new)) ⊎ ((new ≡ []) × (now ≡ old))

-- The same of a year and 0.
pub IsKnownYear : ℤ → Option ℤ → Option ℤ → Type 0
IsKnownYear new old now = (¬ (new ≡ pos 0) × (now ≡ some new)) ⊎ ((new ≡ pos 0) × (now ≡ old))

or_kept-IsKnown : (new : Text) (old : Option Text) → IsKnown new old (or_kept new old)
unfolding IsKnown
or_kept-IsKnown [] old = inr (refl, refl)
or_kept-IsKnown (c ∷ cs) old = inl (λ e. cc, refl)

or_kept_year-IsKnownYear : (new : ℤ) (old : Option ℤ) → IsKnownYear new old (or_kept_year new old)
unfolding IsKnownYear
or_kept_year-IsKnownYear (pos zero) old = inr (refl, refl)
or_kept_year-IsKnownYear (pos (suc n)) old = inl (λ e. cc, refl)
or_kept_year-IsKnownYear (negsuc n) old = inl (λ e. cc, refl)

-- The vehicle of before with what has been decoded; where there was none there is none.
pub IsNamed : LeanVin → Option Vehicle → Option Vehicle → Type 0
IsNamed lean none after = after ≡ none
IsNamed lean (some v) after =
    (w : Vehicle) × (after ≡ some w)
    × (w.id ≡ v.id)
    × (w.vin ≡ v.vin)
    × IsKnown lean.make v.make w.make
    × IsKnown lean.model v.model w.model
    × IsKnownYear lean.year v.year w.year
    × IsKnown (engine_of lean) v.engine w.engine

-- The vehicle of an identifier is named, and the others are as they were.
pub IsIdentified : Text → LeanVin → List Vehicle → List Vehicle → Type 0
IsIdentified id lean before after =
    IsNamed lean (find_row (has_vehicle_id id) before) (find_row (has_vehicle_id id) after)
    × (keep (λ v. not (has_vehicle_id id v)) after ≡ keep (λ v. not (has_vehicle_id id v)) before)

-- A row of what has been decoded.
pub record IsRowOf (id : Text) (lean : LeanVin) (e : VehicleEnrichment) : Type 0 where
  pub of_vehicle : e.vehicle_id ≡ id
  pub make : e.make ≡ lean.make
  pub model : e.model ≡ lean.model
  pub year : e.year ≡ lean.year
  pub body_class : e.body_class ≡ lean.body_class
  pub fuel_type : e.fuel_type ≡ lean.fuel_type
  pub displacement_l : e.displacement_l ≡ lean.displacement_l
  pub cylinders : e.cylinders ≡ lean.cylinders
  pub drive_type : e.drive_type ≡ lean.drive_type
  pub engine_note : e.engine_note ≡ lean.engine_note
  pub scope : e.in_market_scope ≡ in_market_scope lean.make lean.year
  pub source : e.source ≡ codes "nhtsa_vpic"

pub enrichment_row-IsRowOf : (id : Text) (lean : LeanVin) → IsRowOf id lean (enrichment_row id lean)
unfolding enrichment_row
enrichment_row-IsRowOf id lean = record {
  of_vehicle = refl;
  make = refl;
  model = refl;
  year = refl;
  body_class = refl;
  fuel_type = refl;
  displacement_l = refl;
  cylinders = refl;
  drive_type = refl;
  engine_note = refl;
  scope = refl;
  source = refl;
}

module _ (id : Text) (lean : LeanVin) where
  -- The vehicles after the statement.
  abbrev pub identify_rows : List Vehicle → List Vehicle
  identify_rows vs =
      map
        (λ (v : Vehicle).
          if has_vehicle_id id v
          then identified lean.make lean.model lean.year (engine_of lean) v
          else v)
        vs

  identified-IsNamed :
      (v : Vehicle)
      → IsNamed lean (some v) (some (identified lean.make lean.model lean.year (engine_of lean) v))
  unfolding IsNamed identified
  identified-IsNamed v = (
    identified lean.make lean.model lean.year (engine_of lean) v,
    refl,
    refl,
    refl,
    or_kept-IsKnown lean.make v.make,
    or_kept-IsKnown lean.model v.model,
    or_kept_year-IsKnownYear lean.year v.year,
    or_kept-IsKnown (engine_of lean) v.engine,
  )

  with_row-IsIdentified :
      (v : Vehicle) (after before : List Vehicle) (b : Bool)
      → text_eq v.id id ≡ b
      → IsIdentified id lean before after
      → IsIdentified id lean
          (v ∷ before)
          ((if b then identified lean.make lean.model lean.year (engine_of lean) v else v) ∷ after)
  unfolding IsIdentified has_vehicle_id identified
  with_row-IsIdentified v after before true hit (named, others) =
      rw (hit, keep) (identified-IsNamed v, others)
  with_row-IsIdentified v after before false miss (named, others) =
      rw (miss, keep) (named, ap (λ rest. v ∷ rest) others)

  pub identify_rows-IsIdentified : (vs : List Vehicle) → IsIdentified id lean vs (identify_rows vs)
  unfolding IsIdentified IsNamed has_vehicle_id
  identify_rows-IsIdentified [] = (refl, refl)
  identify_rows-IsIdentified (v ∷ vs) =
      with_row-IsIdentified v (identify_rows vs) vs (text_eq v.id id) refl
        (identify_rows-IsIdentified vs)

module _ (id t : Text) (lean : LeanVin) where
  -- The mark of an incomplete answer leaves what is put down as it is.
  pub unmarked-IsRowOf :
      (e : VehicleEnrichment) → IsRowOf id (record lean { error_text = t }) e → IsRowOf id lean e
  unmarked-IsRowOf e h = record {
    of_vehicle = h.of_vehicle;
    make = h.make;
    model = h.model;
    year = h.year;
    body_class = h.body_class;
    fuel_type = h.fuel_type;
    displacement_l = h.displacement_l;
    cylinders = h.cylinders;
    drive_type = h.drive_type;
    engine_note = h.engine_note;
    scope = h.scope;
    source = h.source;
  }

  unmarked-IsNamed :
      (o p : Option Vehicle) → IsNamed (record lean { error_text = t }) o p → IsNamed lean o p
  unfolding IsNamed engine_of
  unmarked-IsNamed none p h = h
  unmarked-IsNamed (some v) p h = h

  pub unmarked-IsIdentified :
      (before after : List Vehicle)
      → IsIdentified id (record lean { error_text = t }) before after
      → IsIdentified id lean before after
  unfolding IsIdentified
  unmarked-IsIdentified before after (named, others) = (
    unmarked-IsNamed (find_row (has_vehicle_id id) before) (find_row (has_vehicle_id id) after)
        named,
    others,
  )
