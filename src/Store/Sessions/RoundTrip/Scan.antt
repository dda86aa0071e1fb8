-- ===== src/Store/Sessions/RoundTrip/Scan.antt =====
-- The whole transaction of a new scan (internal/store/store.go: CreateScan).
use mechmind.Base.{ℕ, ◌∙◌, ◌∙◌, Option-cases, Bool-cases, ◌+◌, ◌≡◌, refl, inl, inr, some, [], map}
use mechmind.Text.{codes, text_eq, Text}
use mechmind.Store.Accounts.{and_then, find_row}
use mechmind.Store.Tables.{
  has_session_id, has_vehicle_id, Vehicle, SessionRow, Tables, Server, Kept, has_vin, after_query,
}
use mechmind.Store.Tables.Gives.{Gives, and_then-Gives, query-Gives, in_transaction-Gives}
use mechmind.Store.Sessions.{written, add_session, add_vehicle}
use mechmind.Store.Sessions.Keyed.{after_query-IsKeyed, IsKeyed, HasVehicle, add_vehicle-HasVehicle}
use mechmind.Store.Sessions.Make.{
  upsert_vehicle, insert_session, store_dtcs, session_row, made_record, store_session, scan_body,
  create_scan, parsed,
}
use mechmind.Store.Sessions.RoundTrip.Rows.{
  Stores, text_of, text_of-Gives, stored_row, add_session-Stores, store_dtcs-Stores,
}
use mechmind.Api.{ScanInput, ScanRecord}

module _ {F : Type 0} (G : Server F) where
  open G use {postgres, clock}

  -- What a new scan leaves: the record is of a row that has been added with its vehicle, its
  -- observations and its codes.
  pub record IsMade (input : ScanInput F) (before : Tables) (rec : ScanRecord F) (t : Tables)
      : Type 0 where
    pub row : SessionRow
    pub vehicle : Vehicle
    pub now : ℕ
    pub made : rec ≡ made_record input row.technician_id row.org_id row.vehicle_id row.id now
    pub dated : row.started_at ≡ G.kept_time now
    pub linked : row.link_type ≡ input.link_type
    pub adapted : row.adapter_name ≡ input.adapter_name
    pub spoken : row.protocol ≡ input.protocol
    pub named : vehicle.vin ≡ input.vin
    pub observed : row.observations ≡ text_of (written G.write_observations input.observations)
    pub stores : Stores before row vehicle (map (stored_row G row.id) input.dtcs) t

  insert_session-Stores :
      (before : Tables) (s : SessionRow) (v : Vehicle) (t : Tables)
      → IsKeyed t
      → t.sessions ≡ before.sessions
      → t.dtc_rows ≡ before.dtc_rows
      → find_row (has_vehicle_id s.vehicle_id) t.vehicles ≡ some v
      → Gives (λ _. Stores before s v []) (insert_session G s t)
  unfolding insert_session
  insert_session-Stores before s v t k same noted found =
      query-Gives G (λ _. Stores before s v [])
        (λ u. add_session (find_row (has_session_id s.id) u.sessions) postgres.duplicate s u) t
        (add_session-Stores before postgres.duplicate s v (after_query t) (after_query-IsKeyed t k)
          same noted found)

  store_session-IsMade :
      (input : ScanInput F) (before : Tables) (tech org id : Text) (t : Tables)
      → HasVehicle input.vin before id t
      → Gives (IsMade input before) (store_session G input tech org id t)
  unfolding store_session
  store_session-IsMade input before tech org id t h =
      let obs = written G.write_observations input.observations in
      let new = G.new_uuid t.statements in
      let s = session_row input tech org id new (G.kept_time (clock t.statements)) (text_of obs) in
      and_then-Gives (λ o u. (o ≡ text_of obs) × (u ≡ t)) (IsMade input before) (obs, t) _
        (text_of-Gives obs t)
        λ o u (same, here).
          rw (same, here)
            (and_then-Gives (λ _. Stores before s h.vehicle []) (IsMade input before)
              (insert_session G s t) _
              (insert_session-Stores before s h.vehicle t h.keyed h.sessions h.dtc_rows h.found)
              λ _ u1 k.
                and_then-Gives (λ _. Stores before s h.vehicle (map (stored_row G new) input.dtcs))
                  (IsMade input before) (store_dtcs G new input.dtcs u1) _
                  (store_dtcs-Stores G before s h.vehicle [] input.dtcs u1 k)
                  λ _ u2 m. record {
                    row = s;
                    vehicle = h.vehicle;
                    now = clock t.statements;
                    made = refl;
                    dated = refl;
                    linked = refl;
                    adapted = refl;
                    spoken = refl;
                    named = h.named;
                    observed = refl;
                    stores = m;
                  })

  scan_body-IsMade :
      (input : ScanInput F) (before : Tables) (tech org : Text) (t : Tables)
      → IsKeyed t
      → t.sessions ≡ before.sessions
      → t.dtc_rows ≡ before.dtc_rows
      → Gives (IsMade input before) (scan_body G input tech org t)
  unfolding scan_body upsert_vehicle
  scan_body-IsMade input before tech org t k same noted =
      and_then-Gives (HasVehicle input.vin (after_query t)) (IsMade input before)
        (upsert_vehicle G input.vin t) _
        (query-Gives G (HasVehicle input.vin (after_query t))
          (λ u.
            add_vehicle (find_row (has_vin input.vin) u.vehicles) input.vin
              (postgres.new_id u.statements) postgres.duplicate u)
          t
          (add_vehicle-HasVehicle input.vin (postgres.new_id (t.statements + 1)) postgres.duplicate
            (after_query t) (after_query-IsKeyed t k)))
        λ id u h. store_session-IsMade input before tech org id u (record {
          keyed = h.keyed;
          vehicle = h.vehicle;
          found = h.found;
          named = h.named;
          sessions = h.sessions ∙ same;
          dtc_rows = h.dtc_rows ∙ noted;
        })

  after_query-IsMade :
      (input : ScanInput F) (before : Tables) (rec : ScanRecord F) (t : Tables)
      → IsMade input before rec t
      → IsMade input before rec (after_query t)
  after_query-IsMade input before rec t m = record {
    row = m.row;
    vehicle = m.vehicle;
    now = m.now;
    made = m.made;
    dated = m.dated;
    linked = m.linked;
    adapted = m.adapted;
    spoken = m.spoken;
    named = m.named;
    observed = m.observed;
    stores = record {
      keyed = after_query-IsKeyed t m.stores.keyed;
      fresh = m.stores.fresh;
      sessions = m.stores.sessions;
      found = m.stores.found;
      dtc_rows = m.stores.dtc_rows;
    };
  }

  parsed-Gives :
      {A : Type 0} (P : A → Tables → Type 0) (field raw : Text) (t : Tables)
      → (k : Text → Tables → Kept A) → ((id : Text) → Gives P (k id t))
      → Gives P (and_then (parsed G field raw, t) k)
  parsed-Gives P field raw t k f = elim (Option-cases (G.parse_uuid raw)) [
    | inl bad ↦ rw bad tt
    | inr (id, good) ↦ rw good (f id)
  ]

  -- A new scan is made, if no error is returned.
  pub create_scan-IsMade :
      (input : ScanInput F) (t : Tables)
      → IsKeyed t
      → Gives (IsMade input t) (create_scan G input t)
  unfolding create_scan
  create_scan-IsMade input t k = elim (Bool-cases (text_eq input.vin [])) [
    | inl empty ↦ rw empty tt
    | inr full ↦ rw full (
        parsed-Gives (IsMade input t) (codes "technician_id") input.technician_id t _ λ tech.
          parsed-Gives (IsMade input t) (codes "org_id") input.org_id t _ λ org.
            in_transaction-Gives G (IsMade input t) (scan_body G input tech org) t
              (λ rec u. after_query-IsMade input t rec u)
              (scan_body-IsMade input t tech org (after_query t) (after_query-IsKeyed t k) refl
                refl))
  ]
