-- ===== src/Store/Sessions/RoundTrip.antt =====
-- A scan is read as it was stored (internal/store/store.go: CreateScan, GetScan).
pub mod Rows
pub mod Scan
use mathlib.Core.Path.{subst}
use mathlib.Core.Option
use mechmind.Base.{
  some_none, ◌∙◌, All, Option-cases, Bool-cases, keep, keep-append, ◌+◌, ◌-◌, ◌≡◌, refl, sym, ap,
  inl, inr, Bool, Option, none, List, [], ◌∷◌, ◌++◌, map, arith,
}
use mechmind.Base.Sort.{sort_by}
use mechmind.Text.{codes, Text, text_eq}
use mechmind.Obd.Types.{Dtc}
use mechmind.Store.{Stored, erred, holds, other}
use mechmind.Store.Accounts.{and_then, find_row, or_missing}
use mechmind.Store.Tables.{
  Vehicle, SessionRow, DtcRow, Tables, Server, Kept, has_vehicle_id, has_session_id, query,
  in_transaction, after_query, undone,
}
use mechmind.Store.Tables.Gives.{
  Gives, IsAtomic, and_then-Gives, query-Gives, in_transaction-Gives, in_transaction-IsAtomic,
}
use mechmind.Store.Sessions.{dtc_row, written, reread, joined, first_row, scan_record}
use mechmind.Text.Laws.{text_eq_iff, text_eq_refl}
use mechmind.Store.Tables.Keys.{HasKey, with_key}
use mechmind.Store.Sessions.Keyed.{IsKeyed}
use mechmind.Store.Sessions.RoundTrip.Rows.{stored_row, text_of}
use mechmind.Store.Sessions.RoundTrip.Scan.{IsMade, create_scan-IsMade}
use mechmind.Store.Sessions.Make.{made_record, scan_body, create_scan, parsed}
use mechmind.Store.Sessions.Read.{
  of_session, get_scan, with_dtcs, list_dtcs, dtcs_of, observed, read_dtc, code_before,
}
use mechmind.Api.{ScanInput, ScanRecord}

-- No row passes a test that finds none.
keep-missing : {A : Type 0} (p : A → Bool) (xs : List A) → find_row p xs ≡ none → keep p xs ≡ []
keep-missing p [] h = refl
keep-missing p (x ∷ xs) h = ground (arith, keep-missing p xs)

-- No code is one of a scan that is not there.
keep-strange :
    (id : Text) (ss : List SessionRow) (rs : List DtcRow)
    → find_row (has_session_id id) ss ≡ none
    → All (λ (r : DtcRow). HasKey (λ (s : SessionRow). s.id) ss r.scan_session_id) rs
    → keep (of_session id) rs ≡ []
unfolding of_session with_key has_session_id
keep-strange id ss [] fresh h = refl
keep-strange id ss (r ∷ rs) fresh ((s, found), h) =
    elim (Bool-cases (text_eq r.scan_session_id id)) [
      | inl same ↦ some_none (
          sym fresh
          ∙ ap (λ k. find_row (has_session_id k) ss)
              (sym ((text_eq_iff r.scan_session_id id).0 same))
          ∙ found)
      | inr foreign ↦ rw (foreign, keep) (keep-strange id ss rs fresh h)
    ]

module _ {F : Type 0} (G : Server F) where
  open G use {postgres}

  keep-own :
      (id : Text) (ds : List (Dtc F))
      → keep (of_session id) (map (stored_row G id) ds) ≡ map (stored_row G id) ds
  unfolding of_session stored_row dtc_row
  keep-own id [] = refl
  keep-own id (d ∷ ds) =
      rw (text_eq_refl id, keep) (ap (λ rs. stored_row G id d ∷ rs) (keep-own id ds))

  -- The codes of a scan as they are read after they have been stored: in the order of their texts,
  -- with the status and the freeze frame that the database holds and the description of the code.
  unfoldable pub returned_dtcs : Text → List (Dtc F) → List (Dtc F)
  unfolding sort_by stored_row
  returned_dtcs id ds = map (read_dtc G) (sort_by (code_before G) (map (stored_row G id) ds))

  -- A stored scan as it is read.
  unfoldable pub returned_scan : ScanRecord F → ScanRecord F
  unfolding returned_dtcs
  returned_scan rec = record rec {
    started_at = G.kept_time rec.started_at;
    finished_at = Option.map G.kept_time rec.finished_at;
    dtcs = returned_dtcs rec.id rec.dtcs;
    observations =
        reread G.read_observations (text_of (written G.write_observations rec.observations));
  }

  dtcs_of-IsMade :
      (input : ScanInput F) (before : Tables) (rec : ScanRecord F) (t : Tables)
      → IsKeyed before
      → (m : IsMade G input before rec t)
      → dtcs_of G m.row.id t.dtc_rows ≡ returned_dtcs m.row.id input.dtcs
  unfolding dtcs_of returned_dtcs
  dtcs_of-IsMade input before rec t keyed m =
      let id = m.row.id in
      let new = map (stored_row G id) input.dtcs in
      ap (λ rs. map (read_dtc G) (sort_by (code_before G) rs))
        (ap (keep (of_session id)) m.stores.dtc_rows
          ∙ keep-append (of_session id) before.dtc_rows new
          ∙ ap (λ rs. rs ++ keep (of_session id) new)
              (keep-strange id before.sessions before.dtc_rows m.stores.fresh keyed.noted)
          ∙ keep-own id input.dtcs)

  joined-IsMade :
      (input : ScanInput F) (before : Tables) (rec : ScanRecord F) (t : Tables)
      → (m : IsMade G input before rec t)
      → joined t.vehicles (keep (has_session_id m.row.id) t.sessions) ≡ (m.row, m.vehicle) ∷ []
  unfolding joined has_session_id
  joined-IsMade input before rec t m =
      ap (joined t.vehicles) (
        ap (keep (has_session_id m.row.id)) m.stores.sessions
        ∙ keep-append (has_session_id m.row.id) before.sessions (m.row ∷ [])
        ∙ ap (λ ss. ss ++ keep (has_session_id m.row.id) (m.row ∷ []))
            (keep-missing (has_session_id m.row.id) before.sessions m.stores.fresh)
        ∙ self)
      ∙ rw m.stores.found refl
    where
      self : keep (has_session_id m.row.id) (m.row ∷ []) ≡ m.row ∷ []
      self = rw (text_eq_refl m.row.id, keep) refl

  get_scan-IsMade :
      (input : ScanInput F) (before : Tables) (rec : ScanRecord F) (t : Tables)
      → IsKeyed before
      → IsMade G input before rec t
      → postgres.fault t.statements ≡ none
      → postgres.fault (t.statements + 1) ≡ none
      → get_scan G rec.id t ≡ (holds (returned_scan rec), after_query (after_query t))
  unfolding get_scan query with_dtcs list_dtcs returned_scan made_record observed scan_record
  get_scan-IsMade input before rec t keyed m first second = rw m.made (
      rw
        (
          first,
          joined-IsMade input before rec t m,
          second,
          dtcs_of-IsMade input before rec t keyed m,
        )
        (rw (m.named, m.dated, m.observed, m.linked, m.adapted, m.spoken) refl))

  -- A scan that has been stored is read as it was given, where the reading does not fail: with its
  -- times as the database keeps them, its codes in the order of their texts, an empty status as
  -- confirmed, and JSON as it is read again.
  pub get_scan-create_scan :
      (input : ScanInput F) (t u : Tables) (rec : ScanRecord F)
      → IsKeyed t
      → create_scan G input t ≡ (holds rec, u)
      → postgres.fault u.statements ≡ none
      → postgres.fault (u.statements + 1) ≡ none
      → get_scan G rec.id u ≡ (holds (returned_scan rec), after_query (after_query u))
  get_scan-create_scan input t u rec keyed made first second =
      get_scan-IsMade input t rec u keyed
        (subst (Gives (IsMade G input t)) made (create_scan-IsMade G input t keyed)) first second

  parsed-IsAtomic :
      (field raw : Text) (t : Tables) (k : Text → Tables → Kept (ScanRecord F))
      → ((id : Text) → IsAtomic t (k id t))
      → IsAtomic t (and_then (parsed G field raw, t) k)
  parsed-IsAtomic field raw t k f = elim (Option-cases (G.parse_uuid raw)) [
    | inl bad ↦ rw bad refl
    | inr (id, good) ↦ rw good (f id)
  ]

  create_scan-IsAtomic : (input : ScanInput F) (t : Tables) → IsAtomic t (create_scan G input t)
  unfolding create_scan
  create_scan-IsAtomic input t = elim (Bool-cases (text_eq input.vin [])) [
    | inl empty ↦ rw empty refl
    | inr full ↦ rw full (
        parsed-IsAtomic (codes "technician_id") input.technician_id t _ λ tech.
          parsed-IsAtomic (codes "org_id") input.org_id t _
            λ org. in_transaction-IsAtomic G (scan_body G input tech org) t)
  ]

  -- After a scan that is stored, no two vehicles or scans have one identifier, no two vehicles have
  -- one VIN, and every scan has its vehicle and every code its scan; one that is refused leaves
  -- every
  -- row as it was.
  pub create_scan-IsKeyed :
      (input : ScanInput F) (t : Tables)
      → IsKeyed t
      → Gives (λ rec u. IsKeyed u) (create_scan G input t) × IsAtomic t (create_scan G input t)
  create_scan-IsKeyed input t keyed = (
    keeps (create_scan G input t) (create_scan-IsMade G input t keyed),
    create_scan-IsAtomic input t,
  )
    where
      keeps : (m : Kept (ScanRecord F)) → Gives (IsMade G input t) m → Gives (λ rec u. IsKeyed u) m
      keeps (erred e, u) h = tt
      keeps (holds rec, u) h = h.stores.keyed
