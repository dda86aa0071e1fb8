-- ===== src/Store/Sessions/RoundTrip/Rows.antt =====
-- The rows that a new scan adds (internal/store/store.go: CreateScan).
use mechmind.Base.{
  ◌∙◌, append-nil, append_assoc, All-imp, All-append, Option-cases, ◌≡◌, refl, sym, ap, inl, inr,
  Option, none, some, List, [], ◌∷◌, ◌++◌, map,
}
use mechmind.Text.{Text}
use mechmind.Obd.Types.{Dtc}
use mechmind.Store.{Stored, erred, holds}
use mechmind.Store.Accounts.{find_row}
use mechmind.Store.Tables.{
  Vehicle, SessionRow, DtcRow, Tables, Server, has_vehicle_id, has_session_id,
}
use mechmind.Store.Tables.Keys.{
  with_key, HasKey, find_row-later, with_key_self, HasKey-append, Keyed-append,
}
use mechmind.Store.Tables.Gives.{Gives, and_then-Gives, query-Gives}
use mechmind.Store.Sessions.{written, dtc_row, add_session}
use mechmind.Store.Sessions.Keyed.{IsKeyed}
use mechmind.Store.Sessions.Make.{insert_dtc, store_dtc, store_dtcs}

-- A scan with its vehicle and its codes has been added.
pub record Stores (before : Tables) (s : SessionRow) (v : Vehicle) (rows : List DtcRow) (t : Tables)
    : Type 0 where
  pub keyed : IsKeyed t
  pub fresh : find_row (has_session_id s.id) before.sessions ≡ none
  pub sessions : t.sessions ≡ before.sessions ++ s ∷ []
  pub found : find_row (has_vehicle_id s.vehicle_id) t.vehicles ≡ some v
  pub dtc_rows : t.dtc_rows ≡ before.dtc_rows ++ rows

-- The JSON that has been written, and nothing after an error.
abbrev pub text_of : Stored (Option Text) → Option Text
text_of (erred e) = none
text_of (holds o) = o

pub text_of-Gives :
    (m : Stored (Option Text)) (t : Tables) → Gives (λ o u. (o ≡ text_of m) × (u ≡ t)) (m, t)
text_of-Gives (erred e) t = tt
text_of-Gives (holds o) t = (refl, refl)

pub add_session-Stores :
    (before : Tables) (clash : Text) (s : SessionRow) (v : Vehicle) (t : Tables)
    → IsKeyed t
    → t.sessions ≡ before.sessions
    → t.dtc_rows ≡ before.dtc_rows
    → find_row (has_vehicle_id s.vehicle_id) t.vehicles ≡ some v
    → Gives
        (λ _. Stores before s v [])
        (add_session (find_row (has_session_id s.id) t.sessions) clash s t)
unfolding add_session has_session_id has_vehicle_id with_key
add_session-Stores before clash s v t k same noted found =
    elim (Option-cases (find_row (has_session_id s.id) t.sessions)) [
      | inr (r, taken) ↦ rw taken tt
      | inl free ↦ rw free (record {
        keyed = record {
          vehicles = k.vehicles;
          vins = k.vins;
          sessions = Keyed-append (λ (r : SessionRow). r.id) t.sessions s k.sessions free;
          driven =
              All-append
                (λ (r : SessionRow). HasKey (λ (w : Vehicle). w.id) t.vehicles r.vehicle_id)
                t.sessions (s ∷ []) k.driven ((v, found), tt);
          noted =
              All-imp
                (λ (r : DtcRow). HasKey (λ (r : SessionRow). r.id) t.sessions r.scan_session_id)
                (λ (r : DtcRow).
                  HasKey (λ (r : SessionRow). r.id) (t.sessions ++ s ∷ []) r.scan_session_id)
                (λ r h.
                  HasKey-append (λ (r : SessionRow). r.id) t.sessions (s ∷ []) r.scan_session_id h)
                t.dtc_rows k.noted;
        };
        fresh = rw (sym same) free;
        sessions = rw same refl;
        found = found;
        dtc_rows = noted ∙ sym (append-nil before.dtc_rows);
      })
    ]

module _ {F : Type 0} (G : Server F) where
  open G use {postgres}

  -- The row of a code of the scan.
  unfoldable pub stored_row : Text → Dtc F → DtcRow
  unfolding dtc_row
  stored_row id d = dtc_row id d (text_of (written G.write_frame d.freeze_frame))

  insert_dtc-Stores :
      (before : Tables) (s : SessionRow) (v : Vehicle) (rows : List DtcRow) (r : DtcRow)
      → (t : Tables) → r.scan_session_id ≡ s.id
      → Stores before s v rows t
      → Gives (λ _. Stores before s v (rows ++ r ∷ [])) (insert_dtc G r t)
  unfolding insert_dtc has_session_id with_key
  insert_dtc-Stores before s v rows r t own h =
      query-Gives G (λ _. Stores before s v (rows ++ r ∷ []))
        (λ u. (holds tt, record u { dtc_rows = u.dtc_rows ++ r ∷ [] })) t
        (record {
          keyed = record {
            vehicles = h.keyed.vehicles;
            vins = h.keyed.vins;
            sessions = h.keyed.sessions;
            driven = h.keyed.driven;
            noted =
                All-append
                  (λ (x : DtcRow). HasKey (λ (y : SessionRow). y.id) t.sessions x.scan_session_id)
                  t.dtc_rows (r ∷ []) h.keyed.noted ((s, hit), tt);
          };
          fresh = h.fresh;
          sessions = h.sessions;
          found = h.found;
          dtc_rows =
              ap (λ (xs : List DtcRow). xs ++ r ∷ []) h.dtc_rows
              ∙ append_assoc before.dtc_rows rows (r ∷ []);
        })
    where
      hit : find_row (has_session_id r.scan_session_id) t.sessions ≡ some s
      hit =
          rw (own, h.sessions)
            (find_row-later (has_session_id s.id) before.sessions (s ∷ []) h.fresh
              ∙ with_key_self (λ (y : SessionRow). y.id) s [])

  store_dtc-Stores :
      (before : Tables) (s : SessionRow) (v : Vehicle) (rows : List DtcRow) (d : Dtc F)
      → (t : Tables) → Stores before s v rows t
      → Gives (λ _. Stores before s v (rows ++ stored_row s.id d ∷ [])) (store_dtc G s.id d t)
  unfolding store_dtc stored_row dtc_row
  store_dtc-Stores before s v rows d t h =
      let frame = written G.write_frame d.freeze_frame in
      and_then-Gives (λ o u. (o ≡ text_of frame) × (u ≡ t))
        (λ _. Stores before s v (rows ++ stored_row s.id d ∷ [])) (frame, t)
        (λ o u. insert_dtc G (dtc_row s.id d o) u) (text_of-Gives frame t)
        λ o u (same, here).
          rw (same, here)
            (insert_dtc-Stores before s v rows (dtc_row s.id d (text_of frame)) t refl h)

  pub store_dtcs-Stores :
      (before : Tables) (s : SessionRow) (v : Vehicle) (rows : List DtcRow) (ds : List (Dtc F))
      → (t : Tables) → Stores before s v rows t
      → Gives (λ _. Stores before s v (rows ++ map (stored_row s.id) ds)) (store_dtcs G s.id ds t)
  unfolding store_dtcs
  store_dtcs-Stores before s v rows [] t h = rw (append-nil rows) h
  store_dtcs-Stores before s v rows (d ∷ ds) t h =
      and_then-Gives (λ _. Stores before s v (rows ++ stored_row s.id d ∷ []))
        (λ _. Stores before s v (rows ++ map (stored_row s.id) (d ∷ ds))) (store_dtc G s.id d t)
        (λ _ u. store_dtcs G s.id ds u) (store_dtc-Stores before s v rows d t h)
        λ _ u k.
          rw (sym (append_assoc rows (stored_row s.id d ∷ []) (map (stored_row s.id) ds)))
            (store_dtcs-Stores before s v (rows ++ stored_row s.id d ∷ []) ds u k)
