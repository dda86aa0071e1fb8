-- ===== src/Api/Accounts.antt =====
-- The handlers of accounts (internal/api/server.go: register, login, me, setActive, patchSetting
-- and
-- those of organizations and technicians).
use mechmind.Store.Accounts.{
  returned, authenticate, set_technician_active, list_organizations, list_technicians,
  get_technician, set_setting, Made, create_organization,
}
use mechmind.Store.{
  org_admin, holds, email_taken, register_closed, erred, Organization, Stored, Technician,
  StoreError, error_text, Db,
}
use mechmind.Store.Accounts.Register.{RegisterInput, register_technician}
use mechmind.Base.{ℕ, Bool, false, not, ◌||◌, Option, none, some, [], if◌then◌else◌}
use mechmind.Text.{Text, codes, text_eq, to_lower, trim_space}
use mechmind.Http.{refused, answered, Answer}
use mechmind.Api.{
  changed, session, organization, members, profile, activated, organizations, Outside, Payload,
  Claims,
}

abbrev pub Handled : Type 0 → Type 0
Handled F = Answer (Payload F) × Db

register_status : StoreError → ℕ
register_status register_closed = 403
register_status email_taken = 409
register_status e = 400

-- The nil UUID stands for a text that is none.
abbrev uuid_or_nil : Option Text → Text
uuid_or_nil none = codes "00000000-0000-0000-0000-000000000000"
uuid_or_nil (some id) = id

abbrev or_empty : Option Text → Text
or_empty none = []
or_empty (some o) = o

-- A failure of the store with one status, or what a success gives.
abbrev pub respond : {A F : Type 0} → ℕ → (A → Answer (Payload F)) → Made A → Handled F
respond status k (erred e, db) = (refused status (error_text e), db)
respond status k (holds a, db) = (k a, db)

-- The settings that can be changed.
is_flag : Text → Bool
unfolding text_eq
is_flag key =
    text_eq key (codes "allow_self_register")
    || text_eq key (codes "require_invite_code")
    || text_eq key (codes "enrichment_enabled")

is_boolean : Text → Bool
unfolding text_eq
is_boolean v = text_eq v (codes "true") || text_eq v (codes "false")

-- Whether the technician is of the organization.
abbrev pub is_of : Option Text → Text → Bool
is_of none org = false
is_of (some o) org = text_eq o org

module _ {F : Type 0} (O : Outside F) where
  open O use {postgres, parse_uuid, issue}

  open_session : ℕ → ℕ → Technician → Option Organization → Answer (Payload F)
  open_session now status t org = elim (issue now t.id (or_empty t.org_id) t.email t.role) [
    | erred e ↦ refused 500 (error_text e)
    | holds tok ↦ answered status (session tok (returned t) org)
  ]

  registered : ℕ → Made (Technician × Organization) → Handled F
  unfolding open_session register_status error_text
  registered now (erred e, db) = (refused (register_status e) (error_text e), db)
  registered now (holds (t, org), db) = (open_session now 201 t (some org), db)

  unfoldable pub register : ℕ → RegisterInput → Db → Handled F
  unfolding register_technician registered trim_space to_lower
  register now reg db =
      let input = record reg {
        email = trim_space (to_lower reg.email);
        invite_code = trim_space reg.invite_code;
      } in
      registered now (register_technician postgres input db)

  unfoldable pub login : ℕ → Text → Text → Db → Handled F
  unfolding authenticate open_session trim_space to_lower error_text
  login now email password db =
      respond 401 (λ t. open_session now 200 t none)
        (authenticate postgres (trim_space (to_lower email)) password db)

  -- An identifier that is no UUID is looked up as the nil UUID.
  unfoldable pub me : Claims → Db → Handled F
  unfolding get_technician error_text
  me c db =
      respond 404 (λ t. answered 200 (profile (returned t)))
        (get_technician postgres (uuid_or_nil (parse_uuid c.technician_id)) db)

  pub list_orgs : Db → Handled F
  unfolding list_organizations error_text
  list_orgs db =
      respond 500 (λ os. answered 200 (organizations os)) (list_organizations postgres db)

  -- A body that is no JSON object with a name is `none`.
  unfoldable pub create_org : Option Text → Db → Handled F
  unfolding create_organization text_eq error_text
  create_org none db = (refused 400 (codes "name is required"), db)
  create_org (some name) db =
      let made =
        respond 500 (λ o. answered 201 (organization o)) (create_organization postgres name db) in
      if text_eq name [] then (refused 400 (codes "name is required"), db) else made

  pub list_all_technicians : Db → Handled F
  unfolding list_technicians error_text
  list_all_technicians db =
      respond 500 (λ ts. answered 200 (members ts)) (list_technicians postgres none db)

  unfoldable pub list_org_technicians : Claims → Db → Handled F
  unfolding list_technicians error_text
  list_org_technicians c db = elim (parse_uuid c.org_id) [
    | none ↦ (refused 400 (codes "missing org"), db)
    | some org ↦
        respond 500 (λ ts. answered 200 (members ts)) (list_technicians postgres (some org) db)
  ]

  unfoldable pub change_active : Text → Bool → Db → Handled F
  unfolding set_technician_active error_text
  change_active id active db =
      respond 400 (λ _. answered 200 (activated id active))
        (set_technician_active postgres id active db)

  -- For an org_admin, the target is looked up first.
  unfoldable pub active_as_org_admin : Claims → Text → Bool → Made Technician → Handled F
  unfolding change_active text_eq error_text
  active_as_org_admin c id active (erred e, db) = (refused 404 (error_text e), db)
  active_as_org_admin c id active (holds t, db) =
      let done = change_active id active db in
      if is_of t.org_id c.org_id then done else (refused 403 (codes "forbidden"), db)

  -- The identifier, then the body: an error or the flag.
  unfoldable pub set_active_of : Claims → Option Text → Stored Bool → Db → Handled F
  unfolding change_active active_as_org_admin get_technician text_eq error_text
  set_active_of c none body db = (refused 400 (codes "invalid id"), db)
  set_active_of c (some id) (erred e) db = (refused 400 (error_text e), db)
  set_active_of c (some id) (holds active) db =
      let as_admin = active_as_org_admin c id active (get_technician postgres id db) in
      let done = change_active id active db in if text_eq c.role org_admin then as_admin else done

  unfoldable pub set_active : Claims → Text → Stored Bool → Db → Handled F
  unfolding set_active_of
  set_active c raw body db = set_active_of c (parse_uuid raw) body db

  unfoldable pub patch_setting : Text → Stored Text → Db → Handled F
  unfolding set_setting is_flag is_boolean error_text
  patch_setting key (erred e) db = (refused 400 (error_text e), db)
  patch_setting key (holds value) db =
      let done =
        respond 500 (λ _. answered 200 (changed key value)) (set_setting postgres key value db) in
      if not (is_flag key)
      then (refused 400 (codes "unknown setting"), db)
      else if not (is_boolean value)
      then (refused 400 (codes "value must be true or false"), db)
      else done
