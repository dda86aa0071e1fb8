-- ===== src/Store/Accounts/Roles.antt =====
-- The organization and the role that a registration gets.
use mechmind.Store.Accounts.{
  new_organization, after_statement, has_code, insert_organization, find_row, add_organization,
  create_organization, and_then, ran, statement, Made,
}
use mechmind.Store.Accounts.Register.{or_bad_invite, RegisterInput, join_organization}
use mechmind.Store.{org_admin, technician, holds, erred, Organization, Postgres, Db}
use mechmind.Base.{Bool-cases, ◌≡◌, refl, ◌⊎◌, inl, inr, Option, none, some, []}
use mechmind.Text.{Text, codes, text_eq}

-- No technician is changed, and the role is not super_admin.
unfoldable pub IsOrgRole : Db → Made (Organization × Text) → Type 0
IsOrgRole before (erred e, db) = Unit
IsOrgRole before (holds (o, role), db) =
    (db.technicians ≡ before.technicians) × ((role ≡ technician) ⊎ (role ≡ org_admin))

module _ (G : Postgres) where
  or_bad_invite-IsOrgRole :
      (o : Option Organization) (before db : Db)
      → db.technicians ≡ before.technicians
      → IsOrgRole before (or_bad_invite o, db)
  unfolding IsOrgRole
  or_bad_invite-IsOrgRole none before db h = tt
  or_bad_invite-IsOrgRole (some o) before db h = (h, inl refl)

  find_organization-IsOrgRole :
      (o : Db → Option Organization) (f : Option Text) (before db : Db)
      → db.technicians ≡ before.technicians
      → IsOrgRole before (ran f (λ d. (or_bad_invite (o d), d)) db)
  unfolding IsOrgRole
  find_organization-IsOrgRole o none before db h = or_bad_invite-IsOrgRole (o db) before db h
  find_organization-IsOrgRole o (some e) before db h = tt

  add_organization-IsOrgRole :
      (taken : Option Organization) (o : Organization) (before db : Db)
      → db.technicians ≡ before.technicians
      → IsOrgRole before
          (and_then (add_organization G taken o db) (λ p d. (holds (p, org_admin), d)))
  unfolding IsOrgRole
  add_organization-IsOrgRole none o before db h = (h, inr refl)
  add_organization-IsOrgRole (some t) o before db h = tt

  new_organization-IsOrgRole :
      (f : Option Text) (taken : Db → Option Organization) (o : Organization) (before db : Db)
      → db.technicians ≡ before.technicians
      → IsOrgRole before (
          and_then
            (ran f (λ d. add_organization G (taken d) o d) db)
            (λ p d. (holds (p, org_admin), d)))
  unfolding IsOrgRole
  new_organization-IsOrgRole none taken o before db h =
      add_organization-IsOrgRole (taken db) o before db h
  new_organization-IsOrgRole (some e) taken o before db h = tt

  pub join_organization-IsOrgRole :
      (reg : RegisterInput) (invites : Text) (db : Db)
      → IsOrgRole db (join_organization G reg invites db)
  unfolding join_organization statement create_organization insert_organization IsOrgRole
  join_organization-IsOrgRole reg invites db = elim (Bool-cases (text_eq reg.invite_code [])) [
    | inr invited ↦ rw invited (
        find_organization-IsOrgRole (λ d. find_row (has_code reg.invite_code) d.organizations)
          (G.fault db.statements) db (after_statement db) refl)
    | inl no_code ↦ elim (Bool-cases (text_eq invites (codes "true"))) [
      | inl needed ↦ rw (no_code, needed) tt
      | inr free ↦ elim (Bool-cases (text_eq reg.shop_name [])) [
        | inl nameless ↦ rw (no_code, free, nameless) tt
        | inr named ↦
            rw (no_code, free, named)
              (new_organization-IsOrgRole (G.fault db.statements)
                (λ d.
                  find_row (has_code (new_organization G reg.shop_name db).invite_code)
                    d.organizations)
                (new_organization G reg.shop_name db) db (after_statement db) refl)
      ]
    ]
  ]
