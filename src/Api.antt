-- ===== src/Api.antt =====
-- The API server (internal/api/server.go) over the accounts of the store. What it asks of the scans
-- in the store is a parameter, and so are JSON, UUIDs, and the signing and checking of tokens
-- (internal/auth/auth.go: Manager, over its JWT library). A request comes with its time.
pub mod Accounts
pub mod Scans
pub mod Routes
pub mod Explain
use mechmind.Base.{
  drop, ℕ, Bool, false, not, ◌||◌, Option, none, some, List, [], ◌∷◌, if◌then◌else◌,
}
use mechmind.Text.{Text, codes, text_eq, has_prefix, to_lower, trim_space}
use mechmind.Http.{answered, refused, Answer}
use mechmind.Obd.Types.{Dtc, Observations}
use mechmind.Store.{Technician, Organization, StoreError, Stored, Db, Postgres, error_text}
use mechmind.Store.Accounts.{Made}

pub record Claims : Type 0 where
  pub technician_id : Text
  pub org_id : Text
  pub email : Text
  pub role : Text

-- What a scan request holds.
pub record ScanInput (F : Type 0) : Type 0 where
  pub technician_id : Text
  pub org_id : Text
  pub vin : Text
  pub link_type : Text
  pub adapter_name : Text
  pub protocol : Text
  pub notes : Text
  pub dtcs : List (Dtc F)
  pub observations : Option (Observations F)

-- `store.ScanRecord`; times are nanoseconds.
pub record ScanRecord (F : Type 0) : Type 0 where
  pub id : Text
  pub vehicle_id : Text
  pub vin : Text
  pub technician_id : Text
  pub org_id : Text
  pub link_type : Text
  pub adapter_name : Text
  pub protocol : Text
  pub started_at : ℕ
  pub finished_at : Option ℕ
  pub dtcs : List (Dtc F)
  pub observations : Option (Observations F)

pub record Outside (F : Type 0) : Type 1 where
  pub postgres : Postgres
  -- `uuid.Parse`, as the text that the UUID is printed with.
  pub parse_uuid : Text → Option Text
  -- `Manager.Issue` for a technician, an organization, an email and a role, and `Manager.Parse`.
  pub issue : ℕ → Text → Text → Text → Text → Stored Text
  pub parse_token : ℕ → Text → Option Claims
  -- The scans in the store.
  pub Scans : Type 0
  pub create_scan : ScanInput F → Scans → Stored (ScanRecord F) × Scans
  pub enqueue_vin_decode : Text → Text → Scans → Scans
  pub get_scan : Text → Scans → Stored (ScanRecord F) × Scans
  -- The scans of a VIN, those of one organization only where it is given, and a limit.
  pub list_scans_by_vin : Text → Option Text → ℕ → Scans → Stored (List (ScanRecord F)) × Scans
  pub enrichment_stats : Scans → Stored Text × Scans
  pub enqueue_job : Text → ℕ → Scans → Stored Text × Scans

-- What the handlers answer.
pub data Payload (F : Type 0) : Type 0 where
  session : Text → Technician → Option Organization → Payload F
  profile : Technician → Payload F
  organizations : List Organization → Payload F
  organization : Organization → Payload F
  members : List Technician → Payload F
  activated : Text → Bool → Payload F
  changed : Text → Text → Payload F
  scan : ScanRecord F → Payload F
  scans : Text → List (ScanRecord F) → Payload F
  stats : Text → Payload F
  job : Text → Payload F

-- The store's state.
pub record State (S : Type 0) : Type 0 where
  pub db : Db
  pub stored : S

abbrev pub bearer : Text
bearer = codes "Bearer "

-- The role guard on its own: whether the role is one of those allowed.
unfoldable pub allows : List Text → Text → Bool
unfolding text_eq
allows [] role = false
allows (r ∷ roles) role = text_eq r role || allows roles role

abbrev pub or_invalid : Option Claims → Answer Claims
or_invalid none = refused 401 (codes "invalid token")
or_invalid (some c) = answered 200 c

module _ {F : Type 0} (O : Outside F) where
  open O use {postgres, parse_token}

  -- The claims of a request, or the refusal of `requireAuth`; without the header it has an empty
  -- one.
  unfoldable pub authorize : ℕ → Text → Answer Claims
  unfolding has_prefix
  authorize now header =
      if not (has_prefix header bearer)
      then refused 401 (codes "missing bearer token")
      else or_invalid (parse_token now (drop 7 header))
