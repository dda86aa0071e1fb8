-- ===== src/Store/Accounts/Register.antt =====
-- Registration, in one transaction (internal/store/store.go: RegisterTechnician,
-- isUniqueViolation).
use mechmind.Store.Accounts.{
  with_hash, find_row, hash_password, and_then, after_statement, has_code, statement,
  create_organization, insert_technician, Made, setting,
}
use mechmind.Base.{Bool, not, ◌||◌, Option, none, some, [], if◌then◌else◌}
use mechmind.Text.{contains, Text, codes, text_eq}
use mechmind.Store.{
  technician, org_admin, register_closed, bad_invite, other, email_taken, holds, erred, Technician,
  Organization, StoreError, Stored, Db, Postgres,
}

unfoldable pub is_unique_violation : Text → Bool
unfolding contains
is_unique_violation e = contains e (codes "unique") || contains e (codes "duplicate key")

pub record RegisterInput : Type 0 where
  pub email : Text
  pub password : Text
  pub display_name : Text
  pub shop_name : Text
  pub invite_code : Text

-- A transaction without effect, but for its statements.
abbrev pub rolled_back : Db → Db → Db
rolled_back before db = record before { statements = db.statements }

abbrev pub committed : {A : Type 0} → Option Text → Db → A → Db → Made A
committed none before a db = (holds a, db)
committed (some e) before a db = (erred (other e), rolled_back before db)

abbrev pub or_bad_invite : Option Organization → Stored (Organization × Text)
or_bad_invite none = erred bad_invite
or_bad_invite (some o) = holds (o, technician)

abbrev pub insert_error : StoreError → StoreError
insert_error (other e) = if is_unique_violation e then email_taken else other e
insert_error e = e

-- The row of a registration, in its organization.
unfoldable pub add_member :
    RegisterInput → Text → Organization × Text → Made Technician → Made (Technician × Organization)
add_member reg hash (o, role) (erred e, db) = (erred (insert_error e), db)
add_member reg hash (o, role) (holds t, db) = (holds (t, o), db)

-- The value of a setting, and the empty text where it cannot be read.
abbrev pub or_blank : Stored Text → Text
or_blank (erred e) = []
or_blank (holds v) = v

module _ (G : Postgres) where
  -- COMMIT, or ROLLBACK after an error of the body or of the commit.
  unfoldable pub commit : {A : Type 0} → Db → Made A → Made A
  unfolding statement
  commit before (erred e, db) = (erred e, rolled_back before db)
  commit before (holds a, db) = committed (G.fault db.statements) before a (after_statement db)

  unfoldable pub in_transaction : {A : Type 0} → (Db → Made A) → Db → Made A
  unfolding commit statement
  in_transaction body db = and_then (statement G (λ d. (holds tt, d)) db) λ _ d. commit d (body d)

  -- The organization and the role of a registration.
  unfoldable pub join_organization : RegisterInput → Text → Db → Made (Organization × Text)
  unfolding create_organization statement has_code text_eq
  join_organization reg require_invite db =
      if not (text_eq reg.invite_code [])
      then statement G
          (λ d. (or_bad_invite (find_row (has_code reg.invite_code) d.organizations), d)) db
      else if text_eq require_invite (codes "true")
      then (erred bad_invite, db)
      else if text_eq reg.shop_name []
      then (erred (other (codes "shop_name is required when not using an invite code")), db)
      else and_then (create_organization G reg.shop_name db) λ o d. (holds (o, org_admin), d)

  unfoldable pub register_body : RegisterInput → Text → Text → Db → Made (Technician × Organization)
  unfolding join_organization insert_technician add_member is_unique_violation
  register_body reg require_invite hash db =
      and_then (join_organization reg require_invite db) λ (p : Organization × Text) (d : Db).
        add_member reg hash p
          (insert_technician G (some p.0.id) reg.email hash reg.display_name p.1 d)

  unfoldable pub register_technician : RegisterInput → Db → Made (Technician × Organization)
  unfolding setting hash_password in_transaction register_body text_eq
  register_technician reg db = and_then (setting G (codes "allow_self_register") db) λ allow d.
      let (invites, d1) = setting G (codes "require_invite_code") d in
      let made =
        with_hash (hash_password G reg.password)
          (λ h. in_transaction (register_body reg (or_blank invites) h)) d1 in
      if text_eq allow (codes "true") then made else (erred register_closed, d)
