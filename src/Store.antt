-- ===== src/Store.antt =====
-- The database of accounts as the store sees it (internal/store/store.go): its rows, its errors,
-- and
-- the statements. PostgreSQL runs the statements: what each does to the rows is the meaning of its
-- SQL, and whether the nth statement fails is a parameter.
pub mod Accounts
pub mod Tables
pub mod Sessions
pub mod Recalls
pub mod Knowledge
use mechmind.Base.{ℕ, ◌-◌, Bool, not, Option, List}
use mechmind.Text.{Text, codes}

pub record Technician : Type 0 where
  pub id : Text
  pub org_id : Option Text
  pub email : Text
  pub display_name : Text
  pub role : Text
  pub active : Bool
  pub password_hash : Text

pub record Organization : Type 0 where
  pub id : Text
  pub name : Text
  pub network_id : Text
  pub invite_code : Text

pub data StoreError : Type 0 where
  not_found email_taken invalid_creds inactive register_closed bad_invite : StoreError
  other : Text → StoreError

-- The texts of the errors.
unfoldable pub error_text : StoreError → Text
error_text not_found = codes "not found"
error_text email_taken = codes "email already registered"
error_text invalid_creds = codes "invalid email or password"
error_text inactive = codes "account is inactive"
error_text register_closed = codes "self-registration is disabled"
error_text bad_invite = codes "invalid invite code"
error_text (other e) = e

-- A value or an error of the store.
pub data Stored (A : Type 0) : Type 0 where
  erred : StoreError → Stored A
  holds : A → Stored A

-- The rows, in the order in which they were made, and the number of statements so far.
pub record Db : Type 0 where
  pub technicians : List Technician
  pub organizations : List Organization
  pub settings : List (Text × Text)
  pub statements : ℕ

pub record Postgres : Type 0 where
  -- The error, if any, of the nth statement.
  pub fault : ℕ → Option Text
  -- Its error where a row breaks a unique key.
  pub duplicate : Text
  -- Identifiers and invite codes, made afresh at each statement.
  pub new_id : ℕ → Text
  pub new_code : ℕ → Text
  -- bcrypt.
  pub generate : Text → Stored Text
  pub compare_hash : Text → Text → Bool

pub super_admin : Text
super_admin = codes "super_admin"

pub org_admin : Text
org_admin = codes "org_admin"

pub technician : Text
technician = codes "technician"
