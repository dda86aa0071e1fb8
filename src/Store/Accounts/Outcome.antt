-- ===== src/Store/Accounts/Outcome.antt =====
-- What a registration leaves in the database, on every branch.
use mechmind.Store.Accounts.Roles.{IsOrgRole, join_organization-IsOrgRole}
use mechmind.Store.Accounts.{
  setting, with_hash, insert_technician, add_row, after_statement, has_email, hash_password,
  find_row, returned, and_then, ran, statement, Made,
}
use mechmind.Store.Accounts.Register.{
  or_blank, register_technician, in_transaction, register_body, add_member, RegisterInput, commit,
  join_organization,
}
use mechmind.Store.{
  register_closed, Stored, org_admin, technician, holds, Technician, erred, Organization, Postgres,
  Db,
}
use mechmind.Base.{
  ◌∙◌, ◌∙◌, Option-cases, Bool-cases, ◌≡◌, refl, ◌⊎◌, inl, inr, true, Option, none, some, [], ◌∷◌,
  ◌++◌, if◌then◌else◌,
}
use mechmind.Text.{Text, codes, text_eq}

-- No account and no setting is touched.
unfoldable pub SameRows : Db → Db → Type 0
SameRows a b =
    (b.technicians ≡ a.technicians)
    × (b.organizations ≡ a.organizations)
    × (b.settings ≡ a.settings)

module _ (G : Postgres) where
  -- The new row: the member that is returned, with the email and a hash of the password.
  unfoldable pub IsMember : RegisterInput → Technician × Organization → Technician → Type 0
  IsMember reg (t, o) row =
      (returned row ≡ t)
      × (row.email ≡ reg.email)
      × (row.active ≡ true)
      × (row.org_id ≡ some o.id)
      × ((row.role ≡ technician) ⊎ (row.role ≡ org_admin))
      × (hash_password G reg.password ≡ holds row.password_hash)

  -- An error leaves the rows as they were; a registration adds one row, of an email that was free.
  unfoldable pub IsRegistered : RegisterInput → Db → Made (Technician × Organization) → Type 0
  IsRegistered reg before (erred e, db) = SameRows before db
  IsRegistered reg before (holds r, db) =
      (row : Technician) × (db.technicians ≡ before.technicians ++ row ∷ [])
      × (find_row (has_email reg.email) before.technicians ≡ none)
      × IsMember reg r row

  -- Inside the transaction an error may leave anything.
  IsAdded : RegisterInput → Db → Made (Technician × Organization) → Type 0
  IsAdded reg before (erred e, db) = Unit
  IsAdded reg before (holds r, db) = IsRegistered reg before (holds r, db)

  commit-IsRegistered :
      (reg : RegisterInput) (before : Db) (m : Made (Technician × Organization))
      → IsAdded reg before m
      → IsRegistered reg before (commit G before m)
  unfolding commit IsRegistered IsAdded SameRows
  commit-IsRegistered reg before (erred e, db) h = (refl, refl, refl)
  commit-IsRegistered reg before (holds r, db) h = elim (Option-cases (G.fault db.statements)) [
    | inl fine ↦ rw fine h
    | inr (e, bad) ↦ rw bad (refl, refl, refl)
  ]

  -- The row that an insert makes.
  IsRow : Technician → Option Technician → Db → Made Technician → Type 0
  IsRow row taken before (erred e, db) = Unit
  IsRow row taken before (holds t, db) =
      (db.technicians ≡ before.technicians ++ row ∷ []) × (taken ≡ none) × (returned row ≡ t)

  add_row-IsRow :
      (taken : Option Technician) (row : Technician) (db : Db)
      → IsRow row taken db (add_row G taken row db)
  unfolding IsRow
  add_row-IsRow none row db = (refl, refl, refl)
  add_row-IsRow (some t) row db = tt

  add_member-IsAdded :
      (reg : RegisterInput) (hash : Text) (p : Organization × Text) (before d : Db)
      (row : Technician) (m : Made Technician)
      → d.technicians ≡ before.technicians
      → IsMember reg (returned row, p.0) row
      → IsRow row (find_row (has_email reg.email) d.technicians) d m
      → IsAdded reg before (add_member reg hash p m)
  unfolding add_member IsAdded IsRegistered IsRow IsMember
  add_member-IsAdded reg hash (o, role) before d row (erred e, d2) same member h = tt
  add_member-IsAdded reg hash (o, role) before d row (holds t, d2) same member (rows, free, ret) =
      (row, rw⁻¹ same rows, rw⁻¹ same free, rw⁻¹ ret member)

  insert-IsAdded :
      (reg : RegisterInput) (hash : Text) (p : Organization × Text) (f : Option Text)
      (before d : Db) (row : Db → Technician)
      → d.technicians ≡ before.technicians
      → IsMember reg (returned (row d), p.0) (row d)
      → IsAdded reg before (
          add_member reg hash p
            (ran f (λ c. add_row G (find_row (has_email reg.email) c.technicians) (row c) c) d))
  unfolding add_member IsAdded
  insert-IsAdded reg hash p none before d row same member =
      add_member-IsAdded reg hash p before d (row d) _ same member
        (add_row-IsRow (find_row (has_email reg.email) d.technicians) (row d) d)
  insert-IsAdded reg hash (o, role) (some e) before d row same member = tt

  member-IsAdded :
      (reg : RegisterInput) (hash : Text) (before : Db) (m : Made (Organization × Text))
      → hash_password G reg.password ≡ holds hash
      → IsOrgRole before m
      → IsAdded reg before (
          and_then m (λ (p : Organization × Text) (d : Db).
            add_member reg hash p
              (insert_technician G (some p.0.id) reg.email hash reg.display_name p.1 d)))
  unfolding IsAdded IsOrgRole insert_technician statement IsMember
  member-IsAdded reg hash before (erred e, d) hashed h = tt
  member-IsAdded reg hash before (holds (o, role), d) hashed (same, allowed) =
      insert-IsAdded reg hash (o, role) (G.fault d.statements) before (after_statement d) _ same
        (refl, refl, refl, refl, allowed, hashed)

  IsRegistered-shift :
      (reg : RegisterInput) (a b : Db) (m : Made (Technician × Organization))
      → SameRows a b
      → IsRegistered reg b m
      → IsRegistered reg a m
  unfolding IsRegistered SameRows
  IsRegistered-shift reg a b (erred e, d) (t, o, s) (t2, o2, s2) = (t2 ∙ t, o2 ∙ o, s2 ∙ s)
  IsRegistered-shift reg a b (holds r, d) (t, o, s) (row, rows, free, member) =
      (row, rw⁻¹ t rows, rw⁻¹ t free, member)

  transaction-IsRegistered :
      (reg : RegisterInput) (invites hash : Text) (f : Option Text) (db : Db)
      → hash_password G reg.password ≡ holds hash
      → IsRegistered reg db (
          and_then
            (ran f (λ d. (holds tt, d)) db)
            (λ (u : Unit {0}) (d : Db). commit G d (register_body G reg invites hash d)))
  unfolding IsRegistered SameRows register_body
  transaction-IsRegistered reg invites hash none db hashed =
      commit-IsRegistered reg db (register_body G reg invites hash db) (
        member-IsAdded reg hash db (join_organization G reg invites db) hashed
          (join_organization-IsOrgRole G reg invites db))
  transaction-IsRegistered reg invites hash (some e) db hashed = (refl, refl, refl)

  hashed-IsRegistered :
      (reg : RegisterInput) (invites : Text) (h : Stored Text) (db : Db)
      → hash_password G reg.password ≡ h
      → IsRegistered reg db (with_hash h (λ k. in_transaction G (register_body G reg invites k)) db)
  unfolding IsRegistered SameRows in_transaction statement
  hashed-IsRegistered reg invites (erred m) db e = (refl, refl, refl)
  hashed-IsRegistered reg invites (holds k) db e =
      IsRegistered-shift reg db (after_statement db) _ (refl, refl, refl)
        (transaction-IsRegistered reg invites k (G.fault db.statements) (after_statement db) e)

  setting-SameRows : (key : Text) (db : Db) → SameRows db (setting G key db).1
  unfolding setting statement SameRows
  setting-SameRows key db = elim (Option-cases (G.fault db.statements)) [
    | inl fine ↦ rw fine (refl, refl, refl)
    | inr (e, bad) ↦ rw bad (refl, refl, refl)
  ]

  allowed-IsRegistered :
      (reg : RegisterInput) (m : Made Text) (before : Db)
      → SameRows before m.1
      → IsRegistered reg before (
          and_then m λ allow d.
            let (invites, d1) = setting G (codes "require_invite_code") d in
            let made =
              with_hash
                (hash_password G reg.password)
                (λ h. in_transaction G (register_body G reg (or_blank invites) h))
                d1 in
            if text_eq allow (codes "true") then made else (erred register_closed, d))
  unfolding IsRegistered
  allowed-IsRegistered reg (erred e, d) before same = same
  allowed-IsRegistered reg (holds allow, d) before same =
      elim (Bool-cases (text_eq allow (codes "true"))) [
        | inr shut ↦ rw shut same
        | inl on ↦
            let (invites, d1) = setting G (codes "require_invite_code") d in
            rw on (
              IsRegistered-shift reg before d _ same (
                IsRegistered-shift reg d d1 _ (setting-SameRows (codes "require_invite_code") d) (
                  hashed-IsRegistered reg (or_blank invites) (hash_password G reg.password) d1
                    refl)))
      ]

  -- A registration that fails, at whatever statement, leaves every account, organization and
  -- setting as it was; one that succeeds adds exactly one technician, with the email that was
  -- free, active, of the organization that is returned, as technician or org_admin, never as
  -- super_admin, and with a hash of the password.
  pub register_technician-IsRegistered :
      (reg : RegisterInput) (db : Db) → IsRegistered reg db (register_technician G reg db)
  unfolding register_technician
  register_technician-IsRegistered reg db =
      allowed-IsRegistered reg (setting G (codes "allow_self_register") db) db
        (setting-SameRows (codes "allow_self_register") db)
