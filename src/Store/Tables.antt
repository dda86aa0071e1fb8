-- ===== src/Store/Tables.antt =====
-- The rows of vehicles, scans, recalls and articles (internal/store/store.go, enrichment.go), and
-- the statements on them. PostgreSQL runs the statements: what each does to the rows is the meaning
-- of its SQL, and whether the nth statement fails is a parameter, so that a row which a check or a
-- reference refuses is a failing statement. JSON, UUIDs, the clock, the order of texts and the form
-- of a date are parameters too. Times are nanoseconds.
pub mod Gives
pub mod Keys
use mechmind.Base.{ℕ, ◌+◌, Bool, Option, none, some, List}
use mechmind.Base.Int.{ℤ}
use mechmind.Text.{Text, text_eq}
use mechmind.Obd.Types.{FreezeFrame, Observations, DtcStatus}
use mechmind.Store.{Stored, erred, holds, Postgres, other}
use mechmind.Store.Accounts.{ran, and_then}
use mechmind.Explain.Packet.{KnowledgeArticle}

-- A NULL is `none`.
pub record Vehicle : Type 0 where
  pub id : Text
  pub vin : Text
  pub make : Option Text
  pub model : Option Text
  pub year : Option ℤ
  pub engine : Option Text

pub record VehicleEnrichment : Type 0 where
  pub vehicle_id : Text
  pub make : Text
  pub model : Text
  pub year : ℤ
  pub body_class : Text
  pub fuel_type : Text
  pub displacement_l : Text
  pub cylinders : Text
  pub drive_type : Text
  pub engine_note : Text
  pub in_market_scope : Bool
  pub source : Text

pub record RecallCatalogRow : Type 0 where
  pub make : Text
  pub model : Text
  pub year : ℤ
  pub campaign_number : Text
  pub component : Text
  pub summary : Text
  pub consequence : Text
  pub remedy : Text
  pub report_date : Text
  pub source : Text

-- A row of scan_sessions. Its finished_at is its started_at; its observations are JSON.
pub record SessionRow : Type 0 where
  pub id : Text
  pub vehicle_id : Text
  pub technician_id : Text
  pub org_id : Text
  pub link_type : Text
  pub adapter_name : Text
  pub protocol : Text
  pub started_at : ℕ
  pub observations : Option Text

-- A row of dtc_observations; its freeze frame is JSON.
pub record DtcRow : Type 0 where
  pub scan_session_id : Text
  pub code : Text
  pub status : DtcStatus
  pub freeze_frame : Option Text

-- The rows, in the order in which they were made, and the number of statements so far.
pub record Tables : Type 0 where
  pub vehicles : List Vehicle
  pub sessions : List SessionRow
  pub dtc_rows : List DtcRow
  pub articles : List KnowledgeArticle
  pub enrichments : List VehicleEnrichment
  pub catalog : List RecallCatalogRow
  -- With the vehicle of each.
  pub vehicle_recalls : List (Text × RecallCatalogRow)
  pub statements : ℕ

pub record Server (F : Type 0) : Type 0 where
  pub postgres : Postgres
  pub clock : ℕ → ℕ
  -- A time as TIMESTAMPTZ keeps it, in microseconds.
  pub kept_time : ℕ → ℕ
  -- `uuid.New`, by the number of the statement before it.
  pub new_uuid : ℕ → Text
  -- `json.Marshal`, and `json.Unmarshal` of what a column holds, with the text of its error.
  pub write_observations : Observations F → Stored Text
  pub json_error : Text → Text
  pub read_observations : Text → Option (Observations F)
  pub write_frame : FreezeFrame F → Stored Text
  pub read_frame : Text → Option (FreezeFrame F)
  -- `uuid.Parse`, and the text of its error.
  pub parse_uuid : Text → Option Text
  pub uuid_error : Text → Text
  -- Whether the first text may stand before the second, in the collation of the database.
  pub before : Text → Text → Bool
  -- `lower` and `upper` of the database.
  pub lower : Text → Text
  pub upper : Text → Text
  -- The day of a time.
  pub day : ℕ → Text

-- What a method returns, with the tables after it.
abbrev pub Kept : Type 0 → Type 0
Kept A = Stored A × Tables

unfoldable pub has_vin : Text → Vehicle → Bool
unfolding text_eq
has_vin vin v = text_eq v.vin vin

unfoldable pub has_vehicle_id : Text → Vehicle → Bool
unfolding text_eq
has_vehicle_id id v = text_eq v.id id

unfoldable pub has_session_id : Text → SessionRow → Bool
unfolding text_eq
has_session_id id s = text_eq s.id id

abbrev pub after_query : Tables → Tables
after_query t = record t { statements = t.statements + 1 }

-- The tables of before, after as many statements.
abbrev pub undone : Tables → Tables → Tables
undone before t = record before { statements = t.statements }

abbrev committed : {A : Type 0} → Option Text → Tables → A → Tables → Kept A
committed none before a t = (holds a, t)
committed (some e) before a t = (erred (other e), undone before t)

module _ {F : Type 0} (G : Server F) where
  open G use {postgres}

  -- One statement: its error, or its effect.
  unfoldable pub query : {A : Type 0} → (Tables → Kept A) → Tables → Kept A
  query run t = ran (postgres.fault t.statements) run (after_query t)

  -- COMMIT, or ROLLBACK after an error of the body or of the commit.
  unfoldable pub finish : {A : Type 0} → Tables → Kept A → Kept A
  finish before (erred e, t) = (erred e, undone before t)
  finish before (holds a, t) = committed (postgres.fault t.statements) before a (after_query t)

  unfoldable pub in_transaction : {A : Type 0} → (Tables → Kept A) → Tables → Kept A
  unfolding query finish
  in_transaction body t = and_then (query (λ u. (holds tt, u)) t) λ _ u. finish u (body u)
