-- ===== src/Api/Routes/Local.antt =====
-- What an org_admin changes of the technicians (internal/api/server.go: setActive).
use mechmind.Store.{holds, erred, org_admin, Technician, Db, Stored}
use mechmind.Base.{
  none, not, keep, Bool-cases, true, inl, inr, ◌⊎◌, some, map, ◌⊎◌, ◌≡◌, Option-cases, ◌≡◌, Bool,
  Option, ℕ, List,
}
use mechmind.Text.{text_eq, Text}
use mechmind.Api.{Payload, Claims, Outside}
use mechmind.Store.Accounts.{
  activate, after_statement, set_technician_active, statement, get_technician, has_id, find_row,
}
use mechmind.Api.Accounts.{
  respond, change_active, set_active_of, active_as_org_admin, is_of, set_active, change_active,
  respond,
}
use mechmind.Base.{
  if◌then◌else◌, ◌∙◌, refl, ap, ◌≡◌, ◌⊎◌, inl, inr, ℕ, Bool, true, false, not, Option, none, some,
  List, [], ◌∷◌, map, keep, Bool-cases, Option-cases,
}
use mechmind.Http.{Answer}

module _ {F : Type 0} (O : Outside F) where
  open O use {parse_uuid, postgres}

  -- Nothing has changed but the `active` of the technicians with an identifier.
  pub OnlyActive : Text → List Technician → List Technician → Type 0
  OnlyActive id before after =
      (map (λ (t : Technician). record t { active = true }) after
        ≡ map (λ (t : Technician). record t { active = true }) before)
      × (keep (λ t. not (has_id id t)) after ≡ keep (λ t. not (has_id id t)) before)

  forget-if :
      (b active : Bool) (t : Technician)
      → record (if b then record t { active = active } else t) { active = true }
        ≡ record t { active = true }
  forget-if true active t = refl
  forget-if false active t = refl

  keep-if :
      (id : Text) (active : Bool) (t : Technician) (after ts : List Technician) (b : Bool)
      → text_eq t.id id ≡ b
      → keep (λ t. not (has_id id t)) after ≡ keep (λ t. not (has_id id t)) ts
      → keep (λ t. not (has_id id t)) ((if b then record t { active = active } else t) ∷ after)
        ≡ keep (λ t. not (has_id id t)) (t ∷ ts)
  unfolding has_id
  keep-if id active t after ts true hit h = rw (hit, keep) h
  keep-if id active t after ts false miss h = rw (miss, keep) (ap (λ rest. t ∷ rest) h)

  with_active-OnlyActive :
      (id : Text) (active : Bool) (ts : List Technician)
      → OnlyActive id ts
          (map (λ (t : Technician). if has_id id t then record t { active = active } else t) ts)
  unfolding OnlyActive has_id
  with_active-OnlyActive id active [] = (refl, refl)
  with_active-OnlyActive id active (t ∷ ts) =
      let (same, others) = with_active-OnlyActive id active ts in
      (
        ap
              (λ rest.
                record (if has_id id t then record t { active = active } else t) { active = true }
                ∷ rest)
              same
            ∙ ap (λ x. x ∷ map (λ (t : Technician). record t { active = true }) ts)
                (forget-if (has_id id t) active t),
        keep-if id active t _ ts (has_id id t) refl others,
      )

  activate-OnlyActive :
      (id : Text) (active : Bool) (o : Option Technician) (db : Db)
      → OnlyActive id db.technicians (activate o id active db).1.technicians
  unfolding activate OnlyActive
  activate-OnlyActive id active none db = (refl, refl)
  activate-OnlyActive id active (some t) db = with_active-OnlyActive id active db.technicians

  respond-OnlyActive :
      {A : Type 0} (id : Text) (status : ℕ) (k : A → Answer (Payload F)) (before : List Technician)
      → (m : Stored A × Db) → OnlyActive id before m.1.technicians
      → OnlyActive id before (respond status k m).1.technicians
  respond-OnlyActive id status k before (erred e, db) h = h
  respond-OnlyActive id status k before (holds a, db) h = h

  set_technician_active-OnlyActive :
      (id : Text) (active : Bool) (db : Db)
      → OnlyActive id db.technicians (set_technician_active postgres id active db).1.technicians
  unfolding set_technician_active statement OnlyActive
  set_technician_active-OnlyActive id active db =
      elim (Option-cases (postgres.fault db.statements)) [
        | inr (e, bad) ↦ rw bad (refl, refl)
        | inl fine ↦ rw fine (
            activate-OnlyActive id active (find_row (has_id id) db.technicians)
              (after_statement db))
      ]

  change_active-OnlyActive :
      (id : Text) (active : Bool) (db : Db)
      → OnlyActive id db.technicians (change_active O id active db).1.technicians
  unfolding change_active
  change_active-OnlyActive id active db =
      respond-OnlyActive id 400 _ db.technicians (set_technician_active postgres id active db)
        (set_technician_active-OnlyActive id active db)

  -- No technician is changed, or only the `active` of the one that is looked up, which is of the
  -- claims' organization.
  pub IsLocal : Claims → Text → Db → Answer (Payload F) × Db → Type 0
  IsLocal c raw db out =
      (out.1.technicians ≡ db.technicians)
      ⊎ ((id : Text) × (t : Technician) × (parse_uuid raw ≡ some id)
          × (find_row (has_id id) db.technicians ≡ some t)
          × (is_of t.org_id c.org_id ≡ true)
          × OnlyActive id db.technicians out.1.technicians)

  active_as_org_admin-IsLocal :
      (c : Claims) (raw id : Text) (active : Bool) (db : Db)
      → parse_uuid raw ≡ some id
      → IsLocal c raw db (active_as_org_admin O c id active (get_technician postgres id db))
  unfolding active_as_org_admin get_technician statement IsLocal
  active_as_org_admin-IsLocal c raw id active db parsed =
      elim (Option-cases (postgres.fault db.statements)) [
        | inr (e, bad) ↦ rw bad (inl refl)
        | inl fine ↦ elim (Option-cases (find_row (has_id id) db.technicians)) [
          | inl missing ↦ rw (fine, missing) (inl refl)
          | inr (t, found) ↦ elim (Bool-cases (is_of t.org_id c.org_id)) [
            | inl own ↦
                rw (fine, found, own)
                  (inr (
                    id,
                    t,
                    parsed,
                    found,
                    own,
                    change_active-OnlyActive id active (after_statement db),
                  ))
            | inr foreign ↦ rw (fine, found, foreign) (inl refl)
          ]
        ]
      ]

  set_active_of-IsLocal :
      (c : Claims) (raw : Text) (o : Option Text) (body : Stored Bool) (db : Db)
      → text_eq c.role org_admin ≡ true
      → parse_uuid raw ≡ o
      → IsLocal c raw db (set_active_of O c o body db)
  unfolding set_active_of IsLocal
  set_active_of-IsLocal c raw none body db admin parsed = inl refl
  set_active_of-IsLocal c raw (some id) (erred e) db admin parsed = inl refl
  set_active_of-IsLocal c raw (some id) (holds active) db admin parsed =
      rw admin (active_as_org_admin-IsLocal c raw id active db parsed)

  -- An org_admin changes no technician but the one that is looked up, of it only whether it is
  -- active, and that only where it is of the organization of the claims.
  pub set_active-IsLocal :
      (c : Claims) (raw : Text) (body : Stored Bool) (db : Db)
      → text_eq c.role org_admin ≡ true
      → IsLocal c raw db (set_active O c raw body db)
  unfolding set_active
  set_active-IsLocal c raw body db admin =
      set_active_of-IsLocal c raw (parse_uuid raw) body db admin refl
