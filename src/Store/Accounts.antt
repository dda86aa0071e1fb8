-- ===== src/Store/Accounts.antt =====
-- Accounts (internal/store/store.go: settings, technicians, organizations; internal/auth/auth.go:
-- the password rules). A statement that fails has no effect, and a transaction that fails has none.
pub mod Register
pub mod Roles
pub mod Outcome
pub mod Login
use mechmind.Base.{
  keep, ℕ, ◌+◌, Bool, true, false, not, Option, none, some, List, [], ◌∷◌, ◌++◌, map, ltb, leb,
  if◌then◌else◌, length,
}
use mechmind.Text.{contains, Text, codes, text_eq}
use mechmind.Text.Map.{get_key, put_key}
use mechmind.Store.{
  technician, org_admin, register_closed, bad_invite, super_admin, inactive, invalid_creds, other,
  email_taken, not_found, holds, erred, Technician, Organization, StoreError, Stored, Db, Postgres,
}

-- What a method returns, with the database after it.
abbrev pub Made : Type 0 → Type 0
Made A = Stored A × Db

abbrev pub after_statement : Db → Db
after_statement db = record db { statements = db.statements + 1 }

-- The first row that passes.
abbrev pub find_row : {A : Type 0} → (A → Bool) → List A → Option A
find_row p [] = none
find_row p (x ∷ xs) = let rest = find_row p xs in if p x then some x else rest

abbrev pub or_missing : {A : Type 0} → Option A → Stored A
or_missing none = erred not_found
or_missing (some a) = holds a

abbrev pub and_then : {S A B : Type 0} → Stored A × S → (A → S → Stored B × S) → Stored B × S
and_then (erred e, s) k = (erred e, s)
and_then (holds a, s) k = k a s

-- A row without its password hash.
abbrev pub returned : Technician → Technician
returned t = record t { password_hash = [] }

unfoldable pub has_role : Text → Technician → Bool
unfolding text_eq
has_role role t = text_eq t.role role

unfoldable pub has_email : Text → Technician → Bool
unfolding text_eq
has_email email t = text_eq t.email email

unfoldable pub has_id : Text → Technician → Bool
unfolding text_eq
has_id id t = text_eq t.id id

pub has_code : Text → Organization → Bool
unfolding text_eq
has_code code o = text_eq o.invite_code code

abbrev pub with_hash : {A : Type 0} → Stored Text → (Text → Db → Made A) → Db → Made A
with_hash (erred e) k db = (erred e, db)
with_hash (holds h) k db = k h db

-- A statement's error, or its effect.
abbrev pub ran : {S A : Type 0} → Option Text → (S → Stored A × S) → S → Stored A × S
ran none run s = run s
ran (some e) run s = (erred (other e), s)

-- An update of no row is `ErrNotFound`.
unfoldable pub activate : Option Technician → Text → Bool → Db → Made (Unit {0})
unfolding has_id
activate none id active db = (erred not_found, db)
activate (some row) id active db = (
  holds tt,
  record db {
    technicians =
        map (λ (t : Technician). if has_id id t then record t { active = active } else t)
          db.technicians;
  },
)

module _ (G : Postgres) where
  -- One statement: its error, or its effect.
  unfoldable pub statement : {A : Type 0} → (Db → Made A) → Db → Made A
  statement run db = ran (G.fault db.statements) run (after_statement db)

  -- `auth.HashPassword`.
  unfoldable pub hash_password : Text → Stored Text
  hash_password p =
      if ltb (length p) 8
      then erred (other (codes "password must be at least 8 characters"))
      else G.generate p

  unfoldable pub setting : Text → Db → Made Text
  unfolding statement get_key
  setting key = statement λ db. (or_missing (get_key key db.settings), db)

  unfoldable pub set_setting : Text → Text → Db → Made (Unit {0})
  unfolding statement put_key
  set_setting key value =
      statement λ db. (holds tt, record db { settings = put_key key value db.settings })

  unfoldable pub count_by_role : Text → Db → Made ℕ
  unfolding statement has_role
  count_by_role role = statement λ db. (holds (length (keep (has_role role) db.technicians)), db)

  unfoldable pub get_technician_by_email : Text → Db → Made Technician
  unfolding statement has_email
  get_technician_by_email email =
      statement λ db. (or_missing (find_row (has_email email) db.technicians), db)

  unfoldable pub get_technician : Text → Db → Made Technician
  unfolding statement has_id
  get_technician id = statement λ db. (or_missing (find_row (has_id id) db.technicians), db)

  -- What `Authenticate` makes of the row.
  unfoldable pub check_technician : Text → Stored Technician → Stored Technician
  check_technician password (erred not_found) = erred invalid_creds
  check_technician password (erred e) = erred e
  check_technician password (holds t) =
      if not t.active
      then erred inactive
      else if not (G.compare_hash t.password_hash password)
      then erred invalid_creds
      else holds t

  unfoldable pub authenticate : Text → Text → Db → Made Technician
  unfolding get_technician_by_email check_technician
  authenticate email password db =
      let (t, db1) = get_technician_by_email email db in (check_technician password t, db1)

  -- The row is added unless another one has its key.
  abbrev pub add_row : Option Technician → Technician → Db → Made Technician
  add_row none t db = (holds (returned t), record db { technicians = db.technicians ++ t ∷ [] })
  add_row (some taken) t db = (erred (other G.duplicate), db)

  -- INSERT INTO technicians, as RETURNING gives it, without the hash: a taken email is a violation
  -- of its unique key.
  unfoldable pub insert_technician : Option Text → Text → Text → Text → Text → Db → Made Technician
  unfolding statement has_email
  insert_technician org email hash name role = statement λ db.
      let t : Technician = record {
        id = G.new_id db.statements;
        org_id = org;
        email = email;
        display_name = name;
        role = role;
        active = true;
        password_hash = hash;
      } in
      add_row (find_row (has_email email) db.technicians) t db

  unfoldable pub set_technician_active : Text → Bool → Db → Made (Unit {0})
  unfolding statement activate has_id
  set_technician_active id active =
      statement λ db. activate (find_row (has_id id) db.technicians) id active db

  -- `EnsureBootstrapAdmin`: the new super admin, or none where there is one.
  unfoldable pub ensure_bootstrap_admin : Text → Text → Text → Db → Made (Option Technician)
  unfolding count_by_role hash_password insert_technician
  ensure_bootstrap_admin email password name db = and_then (count_by_role super_admin db) λ n d.
      let made =
        with_hash (hash_password password)
          (λ h d1.
            and_then (insert_technician none email h name super_admin d1)
              λ t d2. (holds (some t), d2))
          d in
      if leb 1 n then (holds none, d) else made

  abbrev pub add_organization : Option Organization → Organization → Db → Made Organization
  add_organization none o db = (holds o, record db { organizations = db.organizations ++ o ∷ [] })
  add_organization (some taken) o db = (erred (other G.duplicate), db)

  unfoldable pub insert_organization : Organization → Db → Made Organization
  unfolding statement has_code
  insert_organization o =
      statement λ db. add_organization (find_row (has_code o.invite_code) db.organizations) o db

  -- A new organization, with a code that is also its network.
  unfoldable pub new_organization : Text → Db → Organization
  new_organization name db = record {
    id = G.new_id db.statements;
    name = name;
    network_id = G.new_code db.statements;
    invite_code = G.new_code db.statements;
  }

  unfoldable pub create_organization : Text → Db → Made Organization
  unfolding insert_organization new_organization
  create_organization name db = insert_organization (new_organization name db) db

  unfoldable pub list_organizations : Db → Made (List Organization)
  unfolding statement
  list_organizations = statement λ db. (holds db.organizations, db)

  in_org : Option Text → Technician → Bool
  unfolding text_eq
  in_org none t = true
  in_org (some o) t = elim t.org_id [ none ↦ false | some own ↦ text_eq own o ]

  unfoldable pub list_technicians : Option Text → Db → Made (List Technician)
  unfolding statement in_org
  list_technicians org =
      statement λ db. (holds (map returned (keep (in_org org) db.technicians)), db)
