-- ===== src/Store/Sessions/Keyed.antt =====
-- The keys and the references of the rows, as scans are stored (internal/store/store.go:
-- CreateScan).
use mechmind.Base.{
  ◌∙◌, ◌∙◌, All, All-imp, Option-cases, ◌≡◌, refl, inl, inr, none, some, [], ◌∷◌, ◌++◌,
}
use mechmind.Text.{Text}
use mechmind.Text.Laws.{text_eq_iff}
use mechmind.Store.Accounts.{find_row}
use mechmind.Store.Tables.{
  Vehicle, SessionRow, DtcRow, Tables, has_vin, has_vehicle_id, after_query,
}
use mechmind.Store.Tables.Keys.{
  with_key, Keyed, HasKey, find_row-later, find_row-passes, find_row-All, with_key_self,
  HasKey-append, Keyed-append,
}
use mechmind.Store.Tables.Gives.{Gives}
use mechmind.Store.Sessions.{add_vehicle}

-- Vehicles and scans are found by their identifiers, a vehicle by its VIN too, a scan has its
-- vehicle, and a code its scan.
pub record IsKeyed (t : Tables) : Type 0 where
  pub vehicles : Keyed (λ (v : Vehicle). v.id) t.vehicles
  pub vins : Keyed (λ (v : Vehicle). v.vin) t.vehicles
  pub sessions : Keyed (λ (s : SessionRow). s.id) t.sessions
  pub driven :
      All (λ (s : SessionRow). HasKey (λ (v : Vehicle). v.id) t.vehicles s.vehicle_id) t.sessions
  pub noted :
      All
        (λ (r : DtcRow). HasKey (λ (s : SessionRow). s.id) t.sessions r.scan_session_id)
        t.dtc_rows

pub after_query-IsKeyed : (t : Tables) → IsKeyed t → IsKeyed (after_query t)
after_query-IsKeyed t k = record {
  vehicles = k.vehicles;
  vins = k.vins;
  sessions = k.sessions;
  driven = k.driven;
  noted = k.noted;
}

-- What a statement on the vehicles leaves alone.
pub record HasVehicle (vin : Text) (before : Tables) (id : Text) (t : Tables) : Type 0 where
  pub keyed : IsKeyed t
  pub vehicle : Vehicle
  pub found : find_row (has_vehicle_id id) t.vehicles ≡ some vehicle
  pub named : vehicle.vin ≡ vin
  pub sessions : t.sessions ≡ before.sessions
  pub dtc_rows : t.dtc_rows ≡ before.dtc_rows

pub add_vehicle-HasVehicle :
    (vin id clash : Text) (t : Tables)
    → IsKeyed t
    → Gives (HasVehicle vin t) (add_vehicle (find_row (has_vin vin) t.vehicles) vin id clash t)
unfolding add_vehicle has_vin has_vehicle_id with_key
add_vehicle-HasVehicle vin id clash t k = elim (Option-cases (find_row (has_vin vin) t.vehicles)) [
  | inr (v, hit) ↦ rw hit (record {
    keyed = k;
    vehicle = v;
    found =
        find_row-All (has_vin vin)
          (λ (w : Vehicle). find_row (has_vehicle_id w.id) t.vehicles ≡ some w) t.vehicles v
          k.vehicles hit;
    named = (text_eq_iff v.vin vin).0 (find_row-passes (has_vin vin) t.vehicles v hit);
    sessions = refl;
    dtc_rows = refl;
  })
  | inl miss ↦ elim (Option-cases (find_row (has_vehicle_id id) t.vehicles)) [
    | inr (v, taken) ↦ rw (miss, taken) tt
    | inl free ↦
        let v : Vehicle = record {
          id = id;
          vin = vin;
          make = none;
          model = none;
          year = none;
          engine = none;
        } in
        rw (miss, free)
          (record {
            keyed = record {
              vehicles = Keyed-append (λ (w : Vehicle). w.id) t.vehicles v k.vehicles free;
              vins = Keyed-append (λ (w : Vehicle). w.vin) t.vehicles v k.vins miss;
              sessions = k.sessions;
              driven =
                  All-imp
                    (λ (s : SessionRow). HasKey (λ (w : Vehicle). w.id) t.vehicles s.vehicle_id)
                    (λ (s : SessionRow).
                      HasKey (λ (w : Vehicle). w.id) (t.vehicles ++ v ∷ []) s.vehicle_id)
                    (λ s h.
                      HasKey-append (λ (w : Vehicle). w.id) t.vehicles (v ∷ []) s.vehicle_id h)
                    t.sessions k.driven;
              noted = k.noted;
            };
            vehicle = v;
            found =
                find_row-later (has_vehicle_id id) t.vehicles (v ∷ []) free
                ∙ with_key_self (λ (w : Vehicle). w.id) v [];
            named = refl;
            sessions = refl;
            dtc_rows = refl;
          })
  ]
]
